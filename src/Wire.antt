-- ===== src/Wire.antt =====
-- internal/protocol/protocol.go and writeOK, writeErr, writeJSON and writeFrame of
-- internal/daemon/daemon.go: requests and responses as lines of text. `encoding/json` is a
-- parameter, a codec for each type; a codec that refuses a value is `none`.
pub mod Lines
use headless_terminal.Base.{
  ℕ, ◌≡◌, Bool, true, false, Option, none, some, List, [], ◌∷◌, ◌++◌, Bytes, codes, ◌==◌, bytes_eq,
  if◌then◌else◌, ℤ, ok, err,
}
use headless_terminal.Session.{Options}
use headless_terminal.Wait.{WaitResult}
use headless_terminal.Daemon.Requests.{
  SessionInfo, SendParams, SendResult, ViewResult, WaitParams, RequestError,
}
use headless_terminal.Daemon.Handlers.Run.{Frame}

-- OpRun and the others.
pub data Op : Type 0 where
  run_op list_op stop_op kill_op remove_op : Op
  send_op view_op watch_op wait_op daemon_stop_op : Op

-- The names on the wire.
abbrev pub op_name : Op → Bytes
op_name run_op = codes "run"
op_name list_op = codes "list"
op_name stop_op = codes "stop"
op_name kill_op = codes "kill"
op_name remove_op = codes "remove"
op_name send_op = codes "send"
op_name view_op = codes "view"
op_name watch_op = codes "watch"
op_name wait_op = codes "wait"
op_name daemon_stop_op = codes "daemon-stop"

-- StopParams, RemoveParams and ViewParams. The daemon does not read `Trim`.
pub record StopParams : Type 0 where
  pub id : Bytes
  pub timeout_ms : ℤ

pub record RemoveParams : Type 0 where
  pub id : Bytes
  pub force : Bool

pub record ViewParams : Type 0 where
  pub id : Bytes
  pub format : Bytes

-- WaitParams with its id.
pub record WaitRequest : Type 0 where
  pub id : Bytes
  pub params : WaitParams

-- What a request of each kind carries. SessionRef and WatchParams are an id. RunParams is given without
-- the directory and the environment.
abbrev pub Params : Op → Type 0
Params run_op = Options
Params list_op = Unit {0}
Params stop_op = StopParams
Params kill_op = Bytes
Params remove_op = RemoveParams
Params send_op = SendParams
Params view_op = ViewParams
Params watch_op = Bytes
Params wait_op = WaitRequest
Params daemon_stop_op = Unit {0}

-- What a response to each kind carries. RunResult and ListResult hold one field.
abbrev pub Reply : Op → Type 0
Reply run_op = SessionInfo
Reply list_op = List SessionInfo
Reply stop_op = Unit {0}
Reply kill_op = Unit {0}
Reply remove_op = Unit {0}
Reply send_op = SendResult
Reply view_op = ViewResult
Reply watch_op = SessionInfo
Reply wait_op = WaitResult
Reply daemon_stop_op = Unit {0}

-- Request.
pub record Request : Type 0 where
  pub op : Bytes
  pub params : Option Bytes

-- What a response with `ok` false tells, as a value in place of its text.
pub data Failure : Type 0 where
  malformed_request bad_params unencodable : Failure
  unknown_op : Bytes → Failure
  of_request : RequestError → Failure

-- Response.
pub record Response : Type 0 where
  pub is_ok : Bool
  pub error : Option Failure
  pub payload : Option Bytes

-- json.Marshal and json.Unmarshal at one type.
pub record Codec (A : Type 0) : Type 0 where
  pub marshal : A → Option Bytes
  pub unmarshal : Bytes → Option A

pub record Json : Type 0 where
  pub params : (op : Op) → Codec (Params op)
  pub reply : (op : Op) → Codec (Reply op)
  pub request : Codec Request
  pub response : Codec Response
  pub frame : Codec Frame

-- The newline.
abbrev pub newline : ℕ
newline = 0x0a

lines_from : Bytes → Bytes → List Bytes
lines_from cur [] = []
lines_from cur (c ∷ s) = elim (c == newline) [
  | true ↦ (cur ++ c ∷ []) ∷ lines_from [] s
  | false ↦ lines_from (cur ++ c ∷ []) s
]

-- What `ReadBytes('\n')` gives, call by call, before its first error: the lines with their newlines.
unfoldable pub lines : Bytes → List Bytes
unfolding lines_from
lines s = lines_from [] s

-- A text on a line of its own, and nothing where there is no text.
abbrev pub line_of : Option Bytes → Bytes
line_of none = []
line_of (some b) = b ++ newline ∷ []

module _ (json : Json) where
  -- writeErr.
  unfoldable pub write_err : Failure → Bytes
  write_err e =
      line_of (json.response.marshal (record { is_ok = false; error = some e; payload = none }))

  write_payload : Option (Option Bytes) → Bytes
  unfolding write_err
  write_payload none = write_err unencodable
  write_payload (some payload) =
      line_of (json.response.marshal (record { is_ok = true; error = none; payload = payload }))

  -- The `data` of writeOK, marshalled: nil for an operation that has no result.
  abbrev pub encode_reply : (op : Op) → Reply op → Option (Option Bytes)
  encode_reply stop_op r = some none
  encode_reply kill_op r = some none
  encode_reply remove_op r = some none
  encode_reply daemon_stop_op r = some none
  encode_reply op r = elim ((json.reply op).marshal r) [ none ↦ none | some b ↦ some (some b) ]

  -- writeOK.
  unfoldable pub write_ok : (op : Op) → Reply op → Bytes
  unfolding write_payload
  write_ok op r = write_payload (encode_reply op r)

  -- writeFrame, for a list of frames.
  unfoldable pub write_frames : List Frame → Bytes
  write_frames [] = []
  write_frames (f ∷ fs) = line_of (json.frame.marshal f) ++ write_frames fs

  -- The `params` of `call`: nil for an operation that has none.
  abbrev pub encode_params : (op : Op) → Params op → Option (Option Bytes)
  encode_params list_op p = some none
  encode_params daemon_stop_op p = some none
  encode_params op p = elim ((json.params op).marshal p) [ none ↦ none | some b ↦ some (some b) ]

  -- json.Unmarshal(raw, &p) of a handler, which fails on params that are not there. Two handlers
  -- read none.
  abbrev pub decode_params : (op : Op) → Option Bytes → Option (Params op)
  decode_params list_op raw = some tt
  decode_params daemon_stop_op raw = some tt
  decode_params op none = none
  decode_params op (some b) = (json.params op).unmarshal b

  -- The result that `call` decodes, if it is given one and the response holds data.
  abbrev pub decode_reply : (op : Op) → Option Bytes → Option (Option (Reply op))
  decode_reply stop_op payload = some none
  decode_reply kill_op payload = some none
  decode_reply remove_op payload = some none
  decode_reply daemon_stop_op payload = some none
  decode_reply op none = some none
  decode_reply op (some b) = elim ((json.reply op).unmarshal b) [
    | none ↦ none
    | some r ↦ some (some r)
  ]
