-- ===== src/Daemon/Requests.antt =====
-- internal/protocol/protocol.go and internal/daemon/daemon.go: the parameters and the results of the
-- requests, decoded from JSON, and how the handlers read and fill them.
use headless_terminal.Base.{
  ℕ, ◌+◌, ◌-◌, ◌*◌, ◌%◌, ◌^◌, Bool, ◌&&◌, ◌||◌, Option, none, some, List, [], Bytes, codes, Result,
  ok, err, ℤ, pos, negsuc, ltb, if◌then◌else◌, bytes_eq,
}
use headless_terminal.Utf8.{to_lower}
use headless_terminal.Session.{Format, plain, vt, html, Snapshot, SessionError}
use headless_terminal.Session.Pacing.{SendError}
use headless_terminal.Wait.{Condition, WaitError, WaitResult}
use headless_terminal.Daemon.{Handle, ResolveError}

-- protocol.Cursor.
pub record Cursor : Type 0 where
  pub row : ℕ
  pub col : ℕ
  pub visible : Bool

-- protocol.ViewResult.
pub record ViewResult : Type 0 where
  pub id : Bytes
  pub cols : ℕ
  pub rows : ℕ
  pub screen : Bytes
  pub cursor : Option Cursor

-- protocol.WaitParams; the id is an argument of its own.
pub record WaitParams : Type 0 where
  pub idle_ms : ℤ
  pub change : Bool
  pub text : Bytes
  pub regex : Bool
  pub cursor : Option Cursor
  pub exit : Bool
  pub timeout_ms : ℤ

-- protocol.SendParams. `view` is the format that is asked for.
pub record SendParams : Type 0 where
  pub id : Bytes
  pub bytes : Bytes
  pub inter_key_delay_ms : ℤ
  pub settle_ms : ℤ
  pub wait_params : Option WaitParams
  pub view_format : Option Bytes

-- protocol.SendResult.
pub record SendResult : Type 0 where
  pub wait_result : Option WaitResult
  pub view_result : Option ViewResult

-- protocol.SessionInfo, without the start time.
pub record SessionInfo : Type 0 where
  pub id : Bytes
  pub name : Bytes
  pub pid : ℕ
  pub state : Bytes
  pub cols : ℕ
  pub rows : ℕ
  pub cmd : List Bytes
  pub exit_code : Option ℤ

pub data RequestError : Type 0 where
  unresolved : ResolveError → RequestError
  of_session : SessionError → RequestError
  of_send : SendError → RequestError
  of_wait : WaitError → RequestError
  unknown_format : Bytes → RequestError
  session_running cmd_required : RequestError
  name_in_use : Bytes → RequestError

unfoldable pub or_request {ℓ κ} :
    {E : Type ℓ} {A : Type κ} → (E → RequestError) → Result E A → Result RequestError A
or_request wrap (ok a) = ok a
or_request wrap (err e) = err (wrap e)

-- parseFormat.
unfoldable pub parse_format : Bytes → Result RequestError Format
unfolding bytes_eq
parse_format s =
    let f = to_lower s in
    if bytes_eq f [] || bytes_eq f (codes "plain")
    then ok plain
    else if bytes_eq f (codes "ansi") || bytes_eq f (codes "vt")
    then ok vt
    else if bytes_eq f (codes "html")
    then ok html
    else err (unknown_format s)

-- An int64 from its 64 bits.
abbrev signed64 : ℕ → ℤ
signed64 m = if ltb m (2 ^ 63) then pos m else negsuc (2 ^ 64 - 1 - m)

-- time.Duration(ms) * time.Millisecond, which wraps.
unfoldable pub milliseconds : ℤ → ℤ
milliseconds (pos n) = signed64 (n * 1000000 % 2 ^ 64)
milliseconds (negsuc n) = signed64 ((2 ^ 64 - (n + 1) * 1000000 % 2 ^ 64) % 2 ^ 64)

abbrev pub pos_part : ℤ → ℕ
pos_part (pos n) = n
pos_part (negsuc n) = 0

-- The wait.Condition of a request.
unfoldable pub condition_of : WaitParams → Condition
condition_of p = record {
  idle = milliseconds p.idle_ms;
  change = p.change;
  text = p.text;
  regex = p.regex;
  cursor = elim p.cursor [ none ↦ none | some cur ↦ some (cur.row, cur.col) ];
  exit = p.exit;
  timeout = milliseconds p.timeout_ms;
}

-- The cursor of a reply, for one that is in view.
abbrev pub cursor_of : Snapshot → Option Cursor
cursor_of snap =
    if ltb 0 snap.cursor_row && ltb 0 snap.cursor_col
    then some (record { row = snap.cursor_row; col = snap.cursor_col; visible = snap.cursor_vis })
    else none

abbrev pub view_result : Handle → Snapshot → ViewResult
view_result s snap = record {
  id = s.id;
  cols = snap.cols;
  rows = snap.rows;
  screen = snap.screen;
  cursor = cursor_of snap;
}
