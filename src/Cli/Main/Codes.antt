-- ===== src/Cli/Main/Codes.antt =====
-- cmd/ht/main.go: the exit codes of usage errors.
use headless_terminal.Base.{◌&&◌, Bool, true, false, Option, none, some, List, [], ◌∷◌, Bytes}
use headless_terminal.Cli.Main.{Subcommand, list_name, daemon_name, debug_name, help_name}
use headless_terminal.Cli.Main.FlagSets.{Given}

-- Whether the subcommand hands its arguments to pflag, and whether it needs one behind the flags.
abbrev pub parses_flags : Subcommand → Bool
parses_flags daemon_name = false
parses_flags debug_name = false
parses_flags help_name = false
parses_flags _ = true

abbrev pub needs_argument : Subcommand → Bool
needs_argument list_name = false
needs_argument _ = true

abbrev is_empty : List Bytes → Bool
is_empty [] = true
is_empty (a ∷ args) = false

-- A usage error: pflag refuses the flags, or leaves no argument where one is needed.
abbrev pub is_misused : Subcommand → Option Given → Bool
is_misused c none = true
is_misused c (some g) = needs_argument c && is_empty g.args
