-- ===== src/Cli/Main.antt =====
-- cmd/ht/main.go and cmd/ht/daemon.go: the program from its arguments on. `pflag`, the daemon that is served and
-- what comes of the child of `ht debug` are parameters.
pub mod FlagSets
pub mod Debug
pub mod Codes
use headless_terminal.Base.{
  ℕ, Bool, true, false, ◌||◌, Option, none, some, List, [], ◌∷◌, ◌++◌, Bytes, codes, Result, ok,
  err, map, flatten, bytes_eq, if◌then◌else◌,
}
use headless_terminal.Wire.{Json, newline}
use headless_terminal.Daemon.{lookup_entry}
use headless_terminal.Daemon.Requests.{SessionInfo}
use headless_terminal.Daemon.Serve.{ServeError}
use headless_terminal.Client
use headless_terminal.Client.{CallError}
use headless_terminal.Cli.Flags.{
  CommandError, bad_flags, call_failed, unknown_daemon_command, daemon_failed, WaitFlags, SendFlags,
}
use headless_terminal.Cli.Commands.{
  Shell, Ending, returned, exits, Ran, after, prints, cmd_send, cmd_wait, cmd_stop, cmd_kill,
  cmd_remove, cmd_run, cmd_view,
}
use headless_terminal.Cli.Recording.{CastHeader, CastEvent}
use headless_terminal.Cli.Watching.{cmd_watch, cmd_record}
use headless_terminal.Cli.Listing.{cmd_list}
use headless_terminal.Cli.Main.FlagSets.{
  FlagSet, Given, run_set, list_set, stop_set, no_flags, remove_set, send_set, view_set, record_set,
  wait_set, send_flags, wait_flags,
}
use headless_terminal.Cli.Main.Debug.{Debugged, cmd_debug}

-- The cases of the `switch` of main.
pub data Subcommand : Type 0 where
  run_name list_name stop_name kill_name remove_name send_name view_name watch_name record_name
        wait_name :
      Subcommand
  daemon_name debug_name help_name : Subcommand

abbrev pub spellings : List (Bytes × Subcommand)
spellings =
    (codes "run", run_name)
    ∷ (codes "list", list_name)
    ∷ (codes "stop", stop_name)
    ∷ (codes "kill", kill_name)
    ∷ (codes "remove", remove_name)
    ∷ (codes "send", send_name)
    ∷ (codes "view", view_name)
    ∷ (codes "watch", watch_name)
    ∷ (codes "record", record_name)
    ∷ (codes "wait", wait_name)
    ∷ (codes "daemon", daemon_name)
    ∷ (codes "debug", debug_name)
    ∷ (codes "-h", help_name)
    ∷ (codes "--help", help_name)
    ∷ (codes "help", help_name)
    ∷ []

unfoldable pub subcommand : Bytes → Option Subcommand
unfolding lookup_entry
subcommand sub = lookup_entry sub spellings

-- What main gets from elsewhere: the parser of flags, which is told whether flags may follow the
-- first argument; a connection behind EnsureDaemon, and one without it; how Run of the daemon ends; and whether errors.As
-- takes an error of a call for an *os.PathError.
pub record Machine : Type 0 where
  pub pflag : Bool → FlagSet → List Bytes → Option Given
  pub shell : Shell
  pub json : Json
  pub connect : Option (Bytes → Option Bytes)
  pub net : Bytes → Option Bytes
  pub served : Result ServeError (Unit {0})
  pub is_path_error : CallError → Bool
  pub list_text : List SessionInfo → Option Bytes
  pub age : SessionInfo → Bytes
  pub tabulate : Bytes → Bytes
  pub cast_text : CastHeader → Option Bytes
  pub event_text : CastEvent → Option Bytes
  pub clock : ℕ → ℕ
  pub tty : Option (ℕ × ℕ)
  pub debugged : ℕ × ℕ → List Bytes → Debugged

abbrev fails_with : CommandError → Ran
fails_with e = record { out = []; file = none; ending = returned (some e) }

abbrev pub exits_with : ℕ → Ran
exits_with n = record { out = []; file = none; ending = exits n }

-- `usage`, a line at a time.
abbrev usage_lines : List Bytes
usage_lines =
    codes "ht - headless terminal, puppeteer for TUIs"
    ∷ codes ""
    ∷ codes "Usage:"
    ∷ codes "  ht run <cmd...>              start a session (prints session ID)"
    ∷ codes "  ht list                      list sessions"
    ∷ codes "  ht stop <sid>                graceful shutdown (SIGTERM)"
    ∷ codes "  ht kill <sid>                immediate (SIGKILL)"
    ∷ codes "  ht remove <sid>              remove an exited session"
    ∷ codes "  ht send <sid> <keys...>      send keystrokes (vim-style notation)"
    ∷ codes "                               optional compound: --wait-* and --view"
    ∷ codes "  ht view <sid>                snapshot current screen"
    ∷ codes "  ht watch <sid>               live stream output (Ctrl-C to exit)"
    ∷ codes "  ht record <sid>              record session as asciicast (Ctrl-C to stop)"
    ∷ codes "  ht wait <sid> <conditions>   block until condition met"
    ∷ codes ""
    ∷ codes "  ht debug <cmd...>            foreground: run a command with libghostty"
    ∷ codes "                               in parallel, print final snapshot on exit."
    ∷ (codes "                               No daemon, no session "
        ++ 0xe2 ∷ 0x80 ∷ 0x94 ∷ codes " VT-stack diagnostic.")
    ∷ codes ""
    ∷ codes "  ht daemon [stop]             daemon admin (normally auto-started)"
    ∷ []

usage_text : Bytes
usage_text = flatten (map (λ l. l ++ newline ∷ []) usage_lines)

module _ (m : Machine) where
  -- fs.Parse, and the rest of a command.
  with_flags : Bool → FlagSet → List Bytes → (Given → Ran) → Ran
  with_flags interspersed set args run = elim (m.pflag interspersed set args) [
    | none ↦ fails_with bad_flags
    | some g ↦ run g
  ]

  -- daemonRun and daemonStop, which does not start a daemon.
  daemon_run : Ran
  daemon_run = elim m.served [ err e ↦ fails_with (daemon_failed e) | ok u ↦ prints [] ]

  daemon_stop : Ran
  daemon_stop = elim (Client.daemon_stop m.json m.net) [
    | ok r ↦ prints []
    | err e ↦ if m.is_path_error e then prints [] else fails_with (call_failed e)
  ]

  -- cmdDaemon.
  unfoldable pub cmd_daemon : List Bytes → Ran
  unfolding daemon_run daemon_stop
  cmd_daemon [] = daemon_run
  cmd_daemon (sub ∷ args) =
      if bytes_eq sub (codes "stop") then daemon_stop else fails_with (unknown_daemon_command sub)

  run_command : Given → Ran
  run_command g =
      cmd_run m.shell m.json m.connect (g.text (codes "size")) (g.text (codes "name"))
        (g.bool (codes "json")) g.args

  view_command : Given → Ran
  view_command g =
      cmd_view m.shell m.json m.connect (g.text (codes "format")) (g.text (codes "output"))
        (g.text (codes "chrome")) (g.bool (codes "json")) g.args

  list_command : Given → Ran
  list_command g =
      cmd_list m.shell m.json m.connect m.list_text m.age m.tabulate (g.bool (codes "json"))

  record_command : Given → Ran
  record_command g =
      cmd_record m.shell m.json m.connect m.cast_text m.event_text m.clock (g.text (codes "title"))
        (g.text (codes "output")) g.args

  stop_command : Given → Ran
  stop_command g = cmd_stop m.shell m.json m.connect (g.duration (codes "timeout")) g.args

  kill_command : Given → Ran
  kill_command g = cmd_kill m.shell m.json m.connect g.args

  remove_command : Given → Ran
  remove_command g = cmd_remove m.shell m.json m.connect (g.bool (codes "force")) g.args

  send_command : Given → Ran
  send_command g = cmd_send m.shell m.json m.connect (send_flags g) g.args

  watch_command : Given → Ran
  watch_command g = cmd_watch m.shell m.json m.connect g.args

  wait_command : Given → Ran
  wait_command g = cmd_wait m.shell m.json m.connect (wait_flags g) (g.bool (codes "json")) g.args

  -- The `switch` of main.
  unfoldable pub run_subcommand : Subcommand → List Bytes → Ran
  unfolding with_flags run_command list_command stop_command kill_command remove_command
      send_command view_command watch_command record_command wait_command usage_text
  run_subcommand run_name args = with_flags false run_set args run_command
  run_subcommand list_name args = with_flags true list_set args list_command
  run_subcommand stop_name args = with_flags true stop_set args stop_command
  run_subcommand kill_name args = with_flags true no_flags args kill_command
  run_subcommand remove_name args = with_flags true remove_set args remove_command
  run_subcommand send_name args = with_flags true send_set args send_command
  run_subcommand view_name args = with_flags true view_set args view_command
  run_subcommand watch_name args = with_flags true no_flags args watch_command
  run_subcommand record_name args = with_flags true record_set args record_command
  run_subcommand wait_name args = with_flags true wait_set args wait_command
  run_subcommand daemon_name args = cmd_daemon args
  run_subcommand debug_name args = cmd_debug m.tty m.debugged args
  run_subcommand help_name args = prints usage_text

  -- main, on the arguments behind the program's name.
  unfoldable pub main : List Bytes → Ran
  main [] = exits_with 2
  main (sub ∷ args) = elim (subcommand sub) [ none ↦ exits_with 2 | some c ↦ run_subcommand c args ]
