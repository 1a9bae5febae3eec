-- ===== src/Cli/Commands.antt =====
-- cmd/ht: the commands behind their flags, and the exit codes of main. The shell gives the connection
-- to the daemon, which `newClient` starts, the JSON printer, the terminal and the files.
pub mod Exits
use headless_terminal.Base.{
  ℕ, Bool, true, false, not, ◌&&◌, ◌||◌, Option, none, some, List, [], ◌∷◌, ◌++◌, Bytes, codes,
  Result, ok, err, ◌>>=◌, ℤ, pos, bytes_eq, if◌then◌else◌,
}
use headless_terminal.Wait.{WaitResult, no_trigger}
use headless_terminal.Daemon.{is_nil}
use headless_terminal.Daemon.Requests.{Cursor, SessionInfo, SendResult, ViewResult}
use headless_terminal.Wire.{Json, newline, line_of}
use headless_terminal.Client
use headless_terminal.Client.{CallError}
use headless_terminal.Cli.Screen.{write_screen}
use headless_terminal.Cli.Flags.{
  CommandError, usage, no_daemon, bad_json, refuses_tty, cannot_create, cannot_draw, unknown_chrome,
  call_failed, or_failed, WaitFlags, SendFlags, send_params, wait_request, only_argument,
  run_params, to_ms,
}

-- json.MarshalIndent for each type that is printed, term.IsTerminal of the standard output, os.Create,
-- and the picture of an ANSI text: with the window frame or not, and for the number of columns.
pub record Shell : Type 0 where
  pub session_text : SessionInfo → Option Bytes
  pub send_text : SendResult → Option Bytes
  pub view_text : ViewResult → Option Bytes
  pub wait_text : WaitResult → Option Bytes
  pub is_tty : Bool
  pub creates : Bytes → Bool
  pub draw : Bool → ℕ → Bytes → Option Bytes

-- How a command ends: it returns to main, or it ends the program.
pub data Ending : Type 0 where
  returned : Option CommandError → Ending
  exits : ℕ → Ending

-- What a command has printed on the standard output, what it has written to the file of --output,
-- and how it ended.
pub record Ran : Type 0 where
  pub out : Bytes
  pub file : Option Bytes
  pub ending : Ending

-- The code that main exits with.
abbrev pub exit_code : Ran → ℕ
exit_code r = elim r.ending [ returned none ↦ 0 | returned (some e) ↦ 1 | exits n ↦ n ]

-- A command that has printed nothing when it fails.
abbrev pub after {ℓ} : {A : Type ℓ} → Result CommandError A → (A → Ran) → Ran
after (ok a) run = run a
after (err e) run = record { out = []; file = none; ending = returned (some e) }

abbrev pub prints : Bytes → Ran
prints text = record { out = text; file = none; ending = returned none }

-- emitJSON.
abbrev pub emit_json : Option Bytes → Ran
emit_json none = record { out = []; file = none; ending = returned (some bad_json) }
emit_json (some b) = prints (b ++ newline ∷ [])

-- A result that did not come is left at its zero value.
abbrev pub zero_session : SessionInfo
zero_session = record {
  id = [];
  name = [];
  pid = 0;
  state = [];
  cols = 0;
  rows = 0;
  cmd = [];
  exit_code = none;
}

abbrev pub zero_view : ViewResult
zero_view = record { id = []; cols = 0; rows = 0; screen = []; cursor = none }

abbrev pub zero_send : SendResult
zero_send = record { wait_result = none; view_result = none }

abbrev pub zero_wait : WaitResult
zero_wait = record { matched = false; trigger = no_trigger }

abbrev pub or_zero {ℓ} : {A : Type ℓ} → A → Option A → A
or_zero a none = a
or_zero a (some b) = b

-- The condition of the exit code 3 of cmdSend: a wait that has not matched.
abbrev pub is_late : Option WaitResult → Bool
is_late none = false
is_late (some w) = not w.matched

abbrev print_view : Option ViewResult → Bytes → Bytes
print_view v format = elim v [
  | none ↦ []
  | some shown ↦ write_screen shown.screen shown.cursor format
]

-- cmdSend behind its call.
unfoldable pub show_sent : Shell → SendFlags → SendResult → Ran
show_sent shell f r = record {
  out = if f.json_out then line_of (shell.send_text r) else print_view r.view_result f.format;
  file = none;
  ending = if is_late r.wait_result then exits 3 else returned none;
}

-- cmdWait behind its call.
unfoldable pub show_waited : Shell → Bool → WaitResult → Ran
show_waited shell json_out r = record {
  out = if json_out then line_of (shell.wait_text r) else [];
  file = none;
  ending = if r.matched then returned none else exits 3;
}

-- renderPNG up to the picture: the window frame that --chrome asks for.
chrome_frame : Bytes → Result CommandError Bool
chrome_frame chrome =
    if is_nil chrome || bytes_eq chrome (codes "none")
    then ok false
    else if bytes_eq chrome (codes "mac")
    then ok true
    else err (unknown_chrome chrome)

-- openOutput: whether there is a file to write.
open_output : Shell → Bytes → Bytes → Result CommandError Bool
open_output shell [] format =
    if bytes_eq format (codes "png") && shell.is_tty then err refuses_tty else ok false
open_output shell (c ∷ path) format =
    if shell.creates (c ∷ path) then ok true else err cannot_create

drawn : Option Bytes → Result CommandError Bytes
drawn none = err cannot_draw
drawn (some b) = ok b

-- The file of --output is there, with nothing in it, also when the drawing fails.
write_picture : Bool → Result CommandError Bytes → Ran
write_picture true (ok b) = record { out = []; file = some b; ending = returned none }
write_picture true (err e) = record { out = []; file = some []; ending = returned (some e) }
write_picture false r = after r prints

module _ (shell : Shell) (json : Json) (connect : Option (Bytes → Option Bytes)) where
  -- newClient.
  unfoldable pub new_client : Result CommandError (Bytes → Option Bytes)
  new_client = elim connect [ none ↦ err no_daemon | some net ↦ ok net ]

  -- A call behind newClient, and its result.
  via {ℓ} :
      {A : Type ℓ}
      → A
      → ((Bytes → Option Bytes) → Result CallError (Option A))
      → Result CommandError A
  unfolding new_client or_failed
  via zero make = do net ← new_client; r ← or_failed call_failed (make net); ok (or_zero zero r)

  -- cmdSend.
  unfoldable pub cmd_send : SendFlags → List Bytes → Ran
  unfolding via
  cmd_send f args =
      after (send_params f args >>= λ p. via zero_send (λ net. Client.send_ext json net p))
        (show_sent shell f)

  -- cmdWait.
  unfoldable pub cmd_wait : WaitFlags → Bool → List Bytes → Ran
  unfolding via
  cmd_wait f json_out args =
      after (wait_request f args >>= λ p. via zero_wait (λ net. Client.wait json net p))
        (show_waited shell json_out)

  -- cmdStop, cmdKill and cmdRemove. The timeout is cut to milliseconds by Stop of the client.
  unfoldable pub cmd_stop : ℤ → List Bytes → Ran
  unfolding via
  cmd_stop timeout args =
      after (only_argument args >>= λ sid. via tt (λ net. Client.stop json net sid (to_ms timeout)))
        (λ done. prints [])

  unfoldable pub cmd_kill : List Bytes → Ran
  unfolding via
  cmd_kill args =
      after (only_argument args >>= λ sid. via tt (λ net. Client.kill json net sid))
        (λ done. prints [])

  unfoldable pub cmd_remove : Bool → List Bytes → Ran
  unfolding via
  cmd_remove force args =
      after (only_argument args >>= λ sid. via tt (λ net. Client.remove json net sid force))
        (λ done. prints [])

  -- cmdRun: --size and --name, and whether to print JSON.
  unfoldable pub cmd_run : Bytes → Bytes → Bool → List Bytes → Ran
  unfolding via
  cmd_run size name json_out args =
      after (run_params size name args >>= λ p. via zero_session (λ net. Client.run json net p))
        (λ info.
          if json_out || not shell.is_tty
          then emit_json (shell.session_text info)
          else prints (info.id ++ newline ∷ []))

  -- cmdView with png: an ANSI view, drawn by the command.
  view_png : Bytes → Bytes → Bytes → Ran
  unfolding via
  view_png path chrome sid =
      after (via zero_view (λ net. Client.view json net sid (codes "ansi"))) (λ v.
        after (open_output shell path (codes "png")) (λ to_file.
          write_picture to_file
            (chrome_frame chrome >>= λ framed. drawn (shell.draw framed v.cols v.screen))))

  -- cmdView with --format, --output, --chrome and --json.
  unfoldable pub cmd_view : Bytes → Bytes → Bytes → Bool → List Bytes → Ran
  unfolding via view_png open_output write_picture chrome_frame drawn
  cmd_view format path chrome json_out args = after (only_argument args) (λ sid.
      if bytes_eq format (codes "png")
      then view_png path chrome sid
      else after (via zero_view (λ net. Client.view json net sid format)) (λ v.
        if json_out
        then emit_json (shell.view_text v)
        else prints (write_screen v.screen v.cursor format)))
