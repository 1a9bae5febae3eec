-- ===== src/Daemon/Handlers.antt =====
-- internal/daemon/daemon.go: the handlers of the requests that act on one session, on parameters
-- that have been decoded from JSON. `World` is the maps and the session objects. What a child
-- process does is an argument: whether it takes a signal, and the code it exits with.
pub mod Lifecycle
pub mod Safety
pub mod Shutdown
pub mod Run
use headless_terminal.Base.{
  ℕ, ◌+◌, ◌-◌, ◌*◌, ◌%◌, ◌^◌, suc, Bool, true, false, not, ◌&&◌, ◌||◌, Option, none, some, List, [],
  ◌∷◌, Bytes, codes, Result, ok, err, ◌>>=◌, ℤ, pos, negsuc, ltb, ◌==◌, if◌then◌else◌, bytes_eq,
  update,
}
use headless_terminal.Utf8.{to_lower}
use headless_terminal.Session.{
  Emulator, Session, State, is_exited, state_string, Format, plain, vt, html, Snapshot,
  SessionError, already_exited, view, signal, mark_exited, tear_down, ended,
}
use headless_terminal.Session.Pacing.{Action, SendError, send_paced}
use headless_terminal.Wait.{Condition, Seen, Event, WaitError, WaitResult, wait}
use headless_terminal.Daemon.{Handle, Registry, ResolveError, resolve, unregister, range}
use headless_terminal.Daemon.Requests.{
  Cursor, ViewResult, WaitParams, SendParams, SendResult, SessionInfo, RequestError, unresolved,
  of_session, of_send, of_wait, unknown_format, session_running, cmd_required, name_in_use,
  or_request, parse_format, milliseconds, pos_part, condition_of, cursor_of, view_result,
}

pub record World (Term : Type 0) : Type 0 where
  pub registry : Registry
  pub objects : ℕ → Session Term

-- What comes of a signal to a session that has just been seen running: the process takes it, or refuses it, or has
-- exited in the meantime with a code of its own.
pub data Signalled : Type 0 where
  signal_taken signal_refused : Signalled
  exits_first : ℤ → Signalled

module _ (em : Emulator) where
  open em use {Term}

  abbrev pub object_of : World Term → Handle → Session Term
  object_of w s = w.objects s.object

  abbrev pub put : World Term → Handle → Session Term → World Term
  put w s t = record w { objects = update w.objects s.object t }

  -- sessionInfo.
  unfoldable pub session_info : Session Term → SessionInfo
  session_info s = record {
    id = s.id;
    name = s.name;
    pid = elim s.pid [ none ↦ 0 | some p ↦ p ];
    state = state_string s.state;
    cols = s.cols;
    rows = s.rows;
    cmd = s.cmd;
    exit_code = if is_exited s.state then some s.exit_code else none;
  }

  infos : World Term → List (Bytes × Handle) → List SessionInfo
  infos w [] = []
  infos w (e ∷ es) = session_info (object_of w e.1) ∷ infos w es

  -- opList.
  unfoldable pub op_list : World Term → List SessionInfo
  unfolding infos
  op_list w = infos w (range w.registry.sessions)

  find : World Term → Bytes → Result RequestError Handle
  unfolding or_request
  find w ref = or_request unresolved (resolve w.registry ref)

  view_of : World Term → Handle → Bytes → Result RequestError ViewResult
  unfolding or_request
  view_of w s format = do
    f ← parse_format format
    snap ← or_request of_session (view em f (object_of w s))
    ok (view_result s snap)

  -- opView.
  unfoldable pub op_view : World Term → Bytes → Bytes → Result RequestError ViewResult
  unfolding find view_of
  op_view w ref format = find w ref >>= λ s. view_of w s format

  wait_of :
      (Bytes → Option (Bytes → Bool))
      → WaitParams
      → Seen
      → List Event
      → Option (Result RequestError WaitResult)
  unfolding or_request
  wait_of compile p seen events = elim (wait compile (condition_of p) seen events) [
    | none ↦ none
    | some r ↦ some (or_request of_wait r)
  ]

  -- opWait; none while it still waits.
  unfoldable pub op_wait :
      (Bytes → Option (Bytes → Bool))
      → World Term
      → Bytes
      → WaitParams
      → Seen
      → List Event
      → Option (Result RequestError WaitResult)
  unfolding find wait_of
  op_wait compile w ref p seen events = elim (find w ref) [
    | err e ↦ some (err e)
    | ok s ↦ wait_of compile p seen events
  ]

  -- The wait and the view of opSend, behind the send. The view sees the world as it is then.
  send_view :
      World Term → Handle → Option Bytes → Option WaitResult → Result RequestError SendResult
  unfolding view_of
  send_view w s none waited = ok (record { wait_result = waited; view_result = none })
  send_view w s (some format) waited =
      view_of w s format >>= λ v. ok (record { wait_result = waited; view_result = some v })

  send_wait :
      (Bytes → Option (Bytes → Bool))
      → World Term
      → Handle
      → Option WaitParams
      → Option Bytes
      → Seen
      → List Event
      → Option (Result RequestError SendResult)
  unfolding send_view wait_of
  send_wait compile w s none format seen events = some (send_view w s format none)
  send_wait compile w s (some p) format seen events = elim (wait_of compile p seen events) [
    | none ↦ none
    | some (err e) ↦ some (err e)
    | some (ok r) ↦ some (send_view w s format (some r))
  ]

  -- opSend: what goes to the PTY, and the reply, none while it still waits. `later` is the world
  -- in which the view is taken. The settle time is a sleep and no more.
  unfoldable pub op_send :
      (Bytes → Option (Bytes → Bool))
      → (ℕ → Bool)
      → World Term
      → World Term
      → SendParams
      → Seen
      → List Event
      → List Action × Option (Result RequestError SendResult)
  unfolding find send_wait
  op_send compile fails w later p seen events = elim (find w p.id) [
    | err e ↦ ([], some (err e))
    | ok s ↦
        let delay = pos_part (milliseconds p.inter_key_delay_ms) in
        let sent = send_paced fails (is_exited (object_of w s).state) p.bytes delay in
        elim sent.1 [
          | some e ↦ (sent.0, some (err (of_send e)))
          | none ↦ (sent.0, send_wait compile later s p.wait_params p.view_format seen events)
        ]
  ]

  -- waitLoop of the session when its child has exited with the code. `none` is a panic.
  exit_object : World Term → Handle → ℤ → Option (World Term)
  exit_object w s code = elim (mark_exited em code (object_of w s)) [
    | none ↦ none
    | some t ↦ some (put w s (record t { done = true }))
  ]

  reply_exited : Option (World Term) → Option (World Term × Result RequestError (Unit {0}))
  reply_exited none = none
  reply_exited (some w) = some (w, ok tt)

  send_signal :
      Bool → ℤ → World Term → Handle → Option (World Term × Result RequestError (Unit {0}))
  unfolding exit_object reply_exited
  send_signal takes code w s = elim (signal em takes (object_of w s)) [
    | err e ↦ some (w, err (of_session e))
    | ok u ↦ reply_exited (exit_object w s code)
  ]

  -- opStop and opKill on a session: SIGTERM or SIGKILL, and the wait for the exit, that opStop
  -- hastens by SIGKILL when the grace time is over. `code` is the exit code either way. If the child exits between
  -- State() and the signal, signal finds the session exited, which is an error.
  unfoldable pub end_session :
      Signalled → ℤ → World Term → Handle → Option (World Term × Result RequestError (Unit {0}))
  unfolding exit_object send_signal
  end_session takes code w s =
      if is_exited (object_of w s).state then some (w, ok tt) else elim takes [
        | signal_taken ↦ send_signal true code w s
        | signal_refused ↦ send_signal false code w s
        | exits_first own_code ↦ elim (exit_object w s own_code) [
          | none ↦ none
          | some w' ↦ some (w', err (of_session already_exited))
        ]
      ]

  -- opStop, and opKill.
  unfoldable pub op_stop :
      Signalled → ℤ → World Term → Bytes → Option (World Term × Result RequestError (Unit {0}))
  unfolding find
  op_stop takes code w ref = elim (find w ref) [
    | err e ↦ some (w, err e)
    | ok s ↦ end_session takes code w s
  ]

  -- The end of Close: `<-s.readDone`, and the terminal is freed.
  unfoldable pub shut_down : Session Term → Session Term
  shut_down t = tear_down em (record t { reader = ended })

  -- Close: a running child is killed and waited for, and the terminal is freed.
  unfoldable pub close_session : ℤ → World Term → Handle → Option (World Term)
  unfolding exit_object shut_down
  close_session code w s =
      if is_exited (object_of w s).state
      then some (put w s (shut_down (object_of w s)))
      else elim (exit_object w s code) [
        | none ↦ none
        | some w' ↦ some (put w' s (shut_down (object_of w' s)))
      ]

  -- opRemove.
  unfoldable pub op_remove :
      ℤ → World Term → Bytes → Bool → Option (World Term × Result RequestError (Unit {0}))
  unfolding find
  op_remove code w ref force = elim (find w ref) [
    | err e ↦ some (w, err e)
    | ok s ↦
        if not (is_exited (object_of w s).state) && not force
        then some (w, err session_running)
        else elim (close_session code w s) [
          | none ↦ none
          | some w' ↦ some (record w' { registry = unregister s w'.registry }, ok tt)
        ]
  ]
