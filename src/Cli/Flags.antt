-- ===== src/Cli/Flags.antt =====
-- cmd/ht: the requests that the commands make of their flags and arguments.
pub mod Durations
use headless_terminal.Base.{
  ℕ, zero, suc, ◌+◌, ◌-◌, ◌/◌, Bool, true, false, not, ◌||◌, Option, none, some, List, [], ◌∷◌,
  ◌++◌, Bytes, Result, ok, err, ◌>>=◌, ℤ, pos, negsuc, if◌then◌else◌, bytes_eq, flatten,
}
use headless_terminal.Keys.{KeyError, parse_all}
use headless_terminal.Session.{Options}
use headless_terminal.Wait.{is_positive}
use headless_terminal.Daemon.{is_nil}
use headless_terminal.Daemon.Serve.{ServeError}
use headless_terminal.Daemon.Requests.{Cursor, WaitParams, SendParams}
use headless_terminal.Wire.{WaitRequest}
use headless_terminal.Client.{CallError, WatchError}
use headless_terminal.Cli.Numbers.{PairError, parse_cursor, parse_size}

-- Why a command fails.
pub data CommandError : Type 0 where
  usage bad_flags no_daemon bad_json refuses_tty cannot_create cannot_draw : CommandError
  not_started no_terminal bad_exit : CommandError
  unknown_daemon_command : Bytes → CommandError
  daemon_failed : ServeError → CommandError
  bad_keys : KeyError → CommandError
  bad_pair : PairError → CommandError
  unknown_chrome : Bytes → CommandError
  call_failed : CallError → CommandError
  watch_failed : WatchError → CommandError

unfoldable pub or_failed {ℓ κ} :
    {E : Type ℓ} {A : Type κ} → (E → CommandError) → Result E A → Result CommandError A
or_failed wrap (ok a) = ok a
or_failed wrap (err e) = err (wrap e)

-- A length of n, or of -n.
abbrev pub negate : ℕ → ℤ
negate zero = pos 0
negate (suc n) = negsuc n

-- int(d / time.Millisecond), which cuts towards 0.
unfoldable pub to_ms : ℤ → ℤ
to_ms (pos n) = pos (n / 1000000)
to_ms (negsuc n) = negate ((n + 1) / 1000000)

-- The flags of a wait: those of `ht wait`, and those of `ht send` that begin with --wait, and --timeout.
-- The durations are in nanoseconds.
pub record WaitFlags : Type 0 where
  pub idle : ℤ
  pub change : Bool
  pub text : Bytes
  pub regex : Bool
  pub cursor : Bytes
  pub exit : Bool
  pub timeout : ℤ

-- --cursor and --wait-cursor.
cursor_flag : Bytes → Result CommandError (Option Cursor)
unfolding or_failed
cursor_flag [] = ok none
cursor_flag (c ∷ s) = do
  pair ← or_failed bad_pair (parse_cursor (c ∷ s))
  ok (some (record { row = pair.0; col = pair.1; visible = false }))

unfoldable pub wait_params : WaitFlags → Result CommandError WaitParams
unfolding cursor_flag
wait_params f = do
  cursor ← cursor_flag f.cursor
  ok (record {
    idle_ms = to_ms f.idle;
    change = f.change;
    text = f.text;
    regex = f.regex;
    cursor = cursor;
    exit = f.exit;
    timeout_ms = to_ms f.timeout;
  })

-- The variable `hasWait` of cmdSend.
unfoldable pub has_wait : WaitFlags → Bool
has_wait f =
    is_positive f.idle || f.change || not (is_nil f.text) || not (is_nil f.cursor) || f.exit

pub record SendFlags : Type 0 where
  pub raw : Bool
  pub rate : ℤ
  pub wait_duration : ℤ
  pub waits : WaitFlags
  pub view : Bool
  pub format : Bytes
  pub json_out : Bool

-- The bytes to send.
keys_of : Bool → List Bytes → Result CommandError Bytes
unfolding or_failed
keys_of true inputs = ok (flatten inputs)
keys_of false inputs = or_failed bad_keys (parse_all inputs)

send_wait_params : WaitFlags → Result CommandError (Option WaitParams)
send_wait_params f = if has_wait f then (wait_params f >>= λ p. ok (some p)) else ok none

-- cmdSend up to its call: the first argument is the session, the others are keys.
unfoldable pub send_params : SendFlags → List Bytes → Result CommandError SendParams
unfolding keys_of send_wait_params
send_params f [] = err usage
send_params f (sid ∷ []) = err usage
send_params f (sid ∷ k ∷ ks) = do
  sent ← keys_of f.raw (k ∷ ks)
  wait ← send_wait_params f.waits
  ok (record {
    id = sid;
    bytes = sent;
    inter_key_delay_ms = to_ms f.rate;
    settle_ms = to_ms f.wait_duration;
    wait_params = wait;
    view_format = if f.view then some f.format else none;
  })

-- The one argument that most commands take.
unfoldable pub only_argument : List Bytes → Result CommandError Bytes
only_argument (sid ∷ []) = ok sid
only_argument _ = err usage

-- cmdWait up to its call.
unfoldable pub wait_request : WaitFlags → List Bytes → Result CommandError WaitRequest
unfolding only_argument
wait_request f args = do
  sid ← only_argument args
  p ← wait_params f
  ok (record { id = sid; params = p })

-- cmdRun up to its call. --cwd and --env are passed on as they are.
unfoldable pub run_params : Bytes → Bytes → List Bytes → Result CommandError Options
unfolding or_failed
run_params size name [] = err usage
run_params size name (c ∷ cs) = do
  pair ← or_failed bad_pair (parse_size size)
  ok (record { cmd = c ∷ cs; cols = pair.0; rows = pair.1; name = name })
