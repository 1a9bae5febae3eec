-- ===== src/Server.antt =====
-- internal/daemon/daemon.go: handleConn, which reads one request, dispatches it and writes the
-- answer. What the handlers get from elsewhere, and what others do meanwhile, is `Surroundings`.
pub mod Answers
pub mod Replay
pub mod Safety
use headless_terminal.Base.{
  ℕ, Bool, true, false, Option, none, some, List, [], ◌∷◌, ◌++◌, Bytes, codes, Result, ok, err, ℤ,
  bytes_eq, if◌then◌else◌, map,
}
use headless_terminal.Session.{Emulator, nil_terminal}
use headless_terminal.Session.Pacing.{Action}
use headless_terminal.Wait.{Seen, Event, view_failed}
use headless_terminal.Daemon.Requests.{RequestError, SessionInfo, of_session, of_wait}
use headless_terminal.Daemon.Handlers.{
  World, Signalled, object_of, session_info, op_list, op_stop, op_remove, op_send, op_view, op_wait,
}
use headless_terminal.Daemon.Handlers.Run.{
  Frame, Watcher, attached, parked, frames, op_run, op_watch, attach,
}
use headless_terminal.Wire.{
  Op, run_op, list_op, stop_op, kill_op, remove_op, send_op, view_op, watch_op, wait_op,
  daemon_stop_op, op_name, Params, Reply, Request, Failure, malformed_request, bad_params,
  unknown_op, of_request, Json, lines, write_err, write_ok, write_frames, decode_params,
}

-- The switch of handleConn on the name.
unfoldable pub op_of : Bytes → Option Op
unfolding bytes_eq
op_of s =
    if bytes_eq s (codes "run")
    then some run_op
    else if bytes_eq s (codes "list")
    then some list_op
    else if bytes_eq s (codes "stop")
    then some stop_op
    else if bytes_eq s (codes "kill")
    then some kill_op
    else if bytes_eq s (codes "remove")
    then some remove_op
    else if bytes_eq s (codes "send")
    then some send_op
    else if bytes_eq s (codes "view")
    then some view_op
    else if bytes_eq s (codes "watch")
    then some watch_op
    else if bytes_eq s (codes "wait")
    then some wait_op
    else if bytes_eq s (codes "daemon-stop")
    then some daemon_stop_op
    else none

module _ (em : Emulator) where
  open em use {Term}

  -- What a handler gets from elsewhere: `regexp`, the PTY's refusals, whether the process takes a
  -- signal and the code that it exits with, the id, process, quick exit and object of a new session, what other
  -- requests do to the world meanwhile, what a wait sees, and what comes through a watcher's channel.
  pub record Surroundings : Type 0 where
    pub compile : Bytes → Option (Bytes → Bool)
    pub fails : ℕ → Bool
    pub takes_signal : Signalled
    pub exit_code : ℤ
    pub new_id : Bytes
    pub process : Option ℕ
    pub early_exit : Option ℤ
    pub new_object : ℕ
    pub meanwhile : World Term → World Term
    pub at_start : Seen
    pub events : List Event
    pub chunks : List Bytes

  -- What a handler does: it panics, it has not replied yet, or it leaves a world behind, has written to
  -- the PTY, and replies, with frames behind the reply.
  pub data Outcome (A : Type 0) : Type 0 where
    panics waits : Outcome A
    replies : World Term → List Action → List Frame → Result RequestError A → Outcome A

  from_change : {A : Type 0} → Option (World Term × Result RequestError A) → Outcome A
  from_change none = panics
  from_change (some (w, r)) = replies w [] [] r

  -- A view of a nil terminal is no reply: it dereferences nil, in the goroutine of the connection.
  unfoldable pub crashes : RequestError → Bool
  crashes (of_session nil_terminal) = true
  crashes (of_wait (view_failed nil_terminal)) = true
  crashes _ = false

  from_view : {A : Type 0} → World Term → List Action → Result RequestError A → Outcome A
  unfolding crashes
  from_view w acts (err e) = if crashes e then panics else replies w acts [] (err e)
  from_view w acts (ok r) = replies w acts [] (ok r)

  from_wait : {A : Type 0} → World Term → List Action → Option (Result RequestError A) → Outcome A
  unfolding from_view
  from_wait w acts none = waits
  from_wait w acts (some r) = from_view w acts r

  -- opWatch behind the acknowledgement.
  stream_frames :
      World Term
      → Surroundings
      → SessionInfo
      → Result RequestError (Bytes × World Term × ℕ)
      → Outcome SessionInfo
  unfolding crashes
  stream_frames w env info (err e) = if crashes e then panics else replies w [] [] (ok info)
  stream_frames w env info (ok (prime, w', ch)) = replies w' [] (frames prime env.chunks) (ok info)

  from_watcher : World Term → Surroundings → Option (World Term × Watcher) → Outcome SessionInfo
  unfolding stream_frames
  from_watcher w env none = panics
  from_watcher w env (some (w', parked ch)) = waits
  from_watcher w env (some (w', attached s)) =
      stream_frames w' env (session_info em (object_of em w' s)) (attach em w' s)

  -- The handler of each operation, on decoded params.
  unfoldable pub handle : Surroundings → World Term → (op : Op) → Params op → Outcome (Reply op)
  unfolding from_change from_view from_wait from_watcher
  handle env w run_op p =
      from_change
        (op_run em env.new_id env.process env.early_exit env.new_object w (env.meanwhile w) p)
  handle env w list_op p = replies w [] [] (ok (op_list em w))
  handle env w stop_op p = from_change (op_stop em env.takes_signal env.exit_code w p.id)
  handle env w kill_op p = from_change (op_stop em env.takes_signal env.exit_code w p)
  handle env w remove_op p = from_change (op_remove em env.exit_code w p.id p.force)
  handle env w send_op p =
      let sent = op_send em env.compile env.fails w (env.meanwhile w) p env.at_start env.events in
      from_wait (env.meanwhile w) sent.0 sent.1
  handle env w view_op p = from_view w [] (op_view em w p.id p.format)
  handle env w watch_op p = from_watcher w env (op_watch em w p)
  handle env w wait_op p =
      from_wait w [] (op_wait em env.compile w p.id p.params env.at_start env.events)
  handle env w daemon_stop_op p = replies w [] [] (ok tt)

  -- handleConn: it panics, it has not answered yet, or it leaves a world behind and has written to the connection;
  -- the flag says that the daemon is told to stop.
  pub data Served : Type 0 where
    connection_panics connection_waits : Served
    served : World Term → Bytes → Bool → Served

  abbrev pub stops_daemon : Op → Bool
  stops_daemon daemon_stop_op = true
  stops_daemon _ = false

  module _ (json : Json) where
    unfoldable pub finish : (op : Op) → Outcome (Reply op) → Served
    finish op panics = connection_panics
    finish op waits = connection_waits
    finish op (replies w acts fs (err e)) = served w (write_err json (of_request e)) false
    finish op (replies w acts fs (ok r)) =
        served w (write_ok json op r ++ write_frames json fs) (stops_daemon op)

    dispatch : Surroundings → World Term → (op : Op) → Option (Params op) → Served
    unfolding finish
    dispatch env w op none = served w (write_err json bad_params) false
    dispatch env w op (some p) = finish op (handle env w op p)

    answer : Surroundings → World Term → Bytes → Option Bytes → Option Op → Served
    unfolding dispatch
    answer env w name params none = served w (write_err json (unknown_op name)) false
    answer env w name params (some op) = dispatch env w op (decode_params json op params)

    read_request : Surroundings → World Term → Option Request → Served
    unfolding answer
    read_request env w none = served w (write_err json malformed_request) false
    read_request env w (some req) = answer env w req.op req.params (op_of req.op)

    -- The first line is the request. A connection that ends before it is closed with no answer.
    unfoldable pub handle_conn : Surroundings → World Term → Bytes → Served
    unfolding read_request
    handle_conn env w input = elim (lines input) [
      | [] ↦ served w [] false
      | line ∷ rest ↦ read_request env w (json.request.unmarshal line)
    ]
