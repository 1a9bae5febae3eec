-- ===== src/Tests/Main.antt =====
-- Runs of main.
use headless_terminal.Base.{
  ◌≡◌, refl, Bool, false, Option, none, some, List, [], ◌∷◌, Bytes, codes, ok, pos, bytes_eq,
}
use headless_terminal.Daemon.{lookup_entry}
use headless_terminal.Cli.Commands.{exit_code}
use headless_terminal.Cli.Main.{Machine, subcommand, run_subcommand, main}
use headless_terminal.Cli.Main.FlagSets.{FlagSet, Given}
use headless_terminal.Cli.Main.Debug.{ran, succeeded}
use headless_terminal.Tests.Cli.{shell, send_json}

abbrev or_given {ℓ} : {A : Type ℓ} → A → Option A → A
or_given a none = a
or_given a (some b) = b

-- Arguments that are no flags leave each flag as it is by default.
abbrev defaults : Bool → FlagSet → List Bytes → Option Given
defaults interspersed set args = some (record {
  bool = λ k. or_given false (lookup_entry k set.bools);
  text = λ k. or_given [] (lookup_entry k set.texts);
  duration = λ k. or_given (pos 0) (lookup_entry k set.durations);
  args = args;
})

abbrev machine : Machine
machine = record {
  pflag = defaults;
  shell = shell;
  json = send_json;
  connect = none;
  net = λ b. none;
  served = ok tt;
  is_path_error = λ e. false;
  list_text = λ l. none;
  age = λ s. [];
  tabulate = λ b. b;
  cast_text = λ h. none;
  event_text = λ e. none;
  clock = λ k. 0;
  tty = none;
  debugged = λ size args. ran [] succeeded;
}

unknown_code : exit_code (main machine (codes "kil" ∷ codes "vim" ∷ [])) ≡ 2
unfolding main subcommand lookup_entry bytes_eq
unknown_code = refl

help_code : exit_code (main machine (codes "--help" ∷ [])) ≡ 0
unfolding main subcommand lookup_entry bytes_eq run_subcommand
help_code = refl
