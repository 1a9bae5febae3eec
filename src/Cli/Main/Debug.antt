-- ===== src/Cli/Main/Debug.antt =====
-- cmd/ht/debug.go: a command in the foreground. What comes of its child is a parameter; the snapshot goes to the standard
-- error, which is not kept.
use headless_terminal.Base.{ℕ, ◌||◌, ◌==◌, Option, none, some, List, [], ◌∷◌, Bytes, if◌then◌else◌}
use headless_terminal.Cli.Flags.{usage, not_started, no_terminal, bad_exit}
use headless_terminal.Cli.Commands.{Ending, returned, exits, Ran}

-- How the child ended, by cmd.Wait: the exit status of an ExitError is not 0, or -1 after a signal.
pub data ChildEnd : Type 0 where
  succeeded : ChildEnd
  failed_with : ℕ → ChildEnd
  was_signalled wait_failed : ChildEnd

-- The child was not started, there is no terminal for it, or it wrote and ended.
pub data Debugged : Type 0 where
  not_run no_emulator : Debugged
  ran : Bytes → ChildEnd → Debugged

-- ttySize, on what pty.GetsizeFull gives.
unfoldable pub tty_size : Option (ℕ × ℕ) → ℕ × ℕ
tty_size none = (80, 24)
tty_size (some (cols, rows)) = if cols == 0 || rows == 0 then (80, 24) else (cols, rows)

-- os.Exit(-1) leaves a status of 8 bits.
abbrev child_ending : ChildEnd → Ending
child_ending succeeded = returned none
child_ending (failed_with n) = exits n
child_ending was_signalled = exits 255
child_ending wait_failed = returned (some bad_exit)

abbrev show_debugged : Debugged → Ran
show_debugged not_run = record { out = []; file = none; ending = returned (some not_started) }
show_debugged no_emulator = record { out = []; file = none; ending = returned (some no_terminal) }
show_debugged (ran b e) = record { out = b; file = none; ending = child_ending e }

-- cmdDebug.
unfoldable pub cmd_debug : Option (ℕ × ℕ) → (ℕ × ℕ → List Bytes → Debugged) → List Bytes → Ran
unfolding tty_size
cmd_debug tty debugged [] = record { out = []; file = none; ending = returned (some usage) }
cmd_debug tty debugged (name ∷ rest) = show_debugged (debugged (tty_size tty) (name ∷ rest))
