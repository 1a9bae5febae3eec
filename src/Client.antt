-- ===== src/Client.antt =====
-- internal/client/client.go: one connection for each call. The connection is a function: what comes
-- back for the bytes that are written, or `none` if it cannot be made or written to.
pub mod Calls
pub mod Streaming
pub mod Starting
use headless_terminal.Base.{
  ℕ, Bool, true, false, Option, none, some, List, [], ◌∷◌, ◌++◌, Bytes, Result, ok, err, ◌>>=◌,
  if◌then◌else◌, ℤ,
}
use headless_terminal.Session.{Options}
use headless_terminal.Wait.{WaitResult}
use headless_terminal.Daemon.Requests.{SessionInfo, SendParams, SendResult, ViewResult}
use headless_terminal.Daemon.Handlers.Run.{Frame, data_frame, eof_frame}
use headless_terminal.Wire.{
  Op, run_op, list_op, stop_op, kill_op, remove_op, send_op, view_op, watch_op, wait_op,
  daemon_stop_op, op_name, Params, Reply, Request, Response, Failure, Json, lines, line_of,
  StopParams, RemoveParams, ViewParams, WaitRequest, encode_params, decode_reply,
}

-- Why a call fails. `remote` is the error that the daemon told.
pub data CallError : Type 0 where
  cannot_marshal cannot_connect no_response bad_response bad_result : CallError
  remote : Option Failure → CallError

or_fail {ℓ} : {A : Type ℓ} → CallError → Option A → Result CallError A
or_fail e none = err e
or_fail e (some a) = ok a

-- ReadBytes('\n') of the answer.
first_line : List Bytes → Result CallError Bytes
first_line [] = err no_response
first_line (l ∷ ls) = ok l

check_ok : Response → Result CallError (Option Bytes)
check_ok r = if r.is_ok then ok r.payload else err (remote r.error)

module _ (json : Json) (net : Bytes → Option Bytes) where
  -- Both marshals of `call`: the line of the request.
  request_line : (op : Op) → Params op → Result CallError Bytes
  unfolding or_fail
  request_line op p = do
    params ← or_fail cannot_marshal (encode_params json op p)
    text ←
        or_fail cannot_marshal (json.request.marshal (record { op = op_name op; params = params }))
    ok (line_of (some text))

  -- call.
  unfoldable pub call : (op : Op) → Params op → Result CallError (Option (Reply op))
  unfolding or_fail first_line check_ok request_line
  call op p = do
    request ← request_line op p
    output ← or_fail cannot_connect (net request)
    line ← first_line (lines output)
    response ← or_fail bad_response (json.response.unmarshal line)
    payload ← check_ok response
    or_fail bad_result (decode_reply json op payload)

  -- Run, List, Stop, Kill, Remove, Send, SendExt, View, Wait and DaemonStop. A result that did not
  -- come with the response, which the program leaves at its zero value, is `none`.
  pub run : Options → Result CallError (Option SessionInfo)
  run p = call run_op p

  pub list : Result CallError (Option (List SessionInfo))
  list = call list_op tt

  -- The timeout is in milliseconds already.
  pub stop : Bytes → ℤ → Result CallError (Option (Unit {0}))
  stop id timeout_ms = call stop_op (record { id = id; timeout_ms = timeout_ms })

  pub kill : Bytes → Result CallError (Option (Unit {0}))
  kill id = call kill_op id

  pub remove : Bytes → Bool → Result CallError (Option (Unit {0}))
  remove id force = call remove_op (record { id = id; force = force })

  unfoldable pub send_ext : SendParams → Result CallError (Option SendResult)
  send_ext p = call send_op p

  pub view : Bytes → Bytes → Result CallError (Option ViewResult)
  view id format = call view_op (record { id = id; format = format })

  unfoldable pub wait : WaitRequest → Result CallError (Option WaitResult)
  wait p = call wait_op p

  pub daemon_stop : Result CallError (Option (Unit {0}))
  daemon_stop = call daemon_stop_op tt

abbrev pub is_eof : Frame → Bool
is_eof eof_frame = true
is_eof (data_frame b) = false

-- Why a watch ends with an error: the daemon's, a frame that is no JSON, or the caller's own.
pub data WatchError : Type 0 where
  of_call : CallError → WatchError
  bad_frame : WatchError
  of_caller : Bytes → WatchError

module _ (json : Json) (on_frame : Frame → Option Bytes) where
  -- The loop of Watch on the lines behind the acknowledgement: the frames that OnFrame was called
  -- with, and the error. A connection that ends is no error.
  unfoldable pub follow : List Bytes → List Frame × Option WatchError
  follow [] = ([], none)
  follow (line ∷ ls) = elim (json.frame.unmarshal line) [
    | none ↦ ([], some bad_frame)
    | some f ↦ elim (on_frame f) [
      | some e ↦ (f ∷ [], some (of_caller e))
      | none ↦ if is_eof f then (f ∷ [], none) else (f ∷ (follow ls).0, (follow ls).1)
    ]
  ]

-- What Watch has done: OnReady was called, with the session or, where none came, with a zero value;
-- then OnFrame was called with the frames.
pub record Streamed : Type 0 where
  pub ready : Option (Option SessionInfo)
  pub frames : List Frame
  pub failed : Option WatchError

module _ (json : Json) (net : Bytes → Option Bytes) (on_frame : Frame → Option Bytes) where
  not_ready : CallError → Streamed
  not_ready e = record { ready = none; frames = []; failed = some (of_call e) }

  -- The session of the acknowledgement, whose JSON is not checked.
  acknowledged : List Bytes → Option Bytes → Streamed
  acknowledged ls payload =
      let (frames, failed) = follow json on_frame ls in
      record {
        ready = some (elim payload [ none ↦ none | some b ↦ (json.reply watch_op).unmarshal b ]);
        frames = frames;
        failed = failed;
      }

  read_ack : List Bytes → Streamed
  unfolding not_ready acknowledged
  read_ack [] = not_ready no_response
  read_ack (line ∷ ls) = elim (json.response.unmarshal line) [
    | none ↦ not_ready bad_response
    | some r ↦ if r.is_ok then acknowledged ls r.payload else not_ready (remote r.error)
  ]

  -- Watch. The errors of its two marshals are dropped: it writes what it has.
  unfoldable pub watch : Bytes → Streamed
  unfolding read_ack not_ready
  watch id =
      let request : Request = record {
        op = op_name watch_op;
        params = (json.params watch_op).marshal id;
      } in
      let text : Bytes = elim (json.request.marshal request) [ none ↦ [] | some b ↦ b ] in
      elim (net (line_of (some text))) [
        | none ↦ not_ready cannot_connect
        | some output ↦ read_ack (lines output)
      ]
