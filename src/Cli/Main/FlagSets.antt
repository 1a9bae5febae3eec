-- ===== src/Cli/Main/FlagSets.antt =====
-- cmd/ht: the flags that each command declares, with their defaults. Durations are in nanoseconds.
use headless_terminal.Base.{ℕ, ◌*◌, Bool, false, String, map, List, [], ◌∷◌, Bytes, codes, ℤ, pos}
use headless_terminal.Cli.Flags.{WaitFlags, SendFlags}

-- The flags with a Boolean, a text or a duration and their defaults, and those that may be repeated.
pub record FlagSet : Type 0 where
  pub bools : List (Bytes × Bool)
  pub texts : List (Bytes × Bytes)
  pub durations : List (Bytes × ℤ)
  pub repeated : List Bytes

-- What the parser has set, and the arguments that are no flags.
pub record Given : Type 0 where
  pub bool : Bytes → Bool
  pub text : Bytes → Bytes
  pub duration : Bytes → ℤ
  pub args : List Bytes

abbrev seconds : ℕ → ℤ
seconds n = pos (n * 1000000000)

-- Flags that are off, or empty, by default.
abbrev offs : List String → List (Bytes × Bool)
offs names = map (λ n. (codes n, false)) names

abbrev empties : List String → List (Bytes × Bytes)
empties names = map (λ n. (codes n, [])) names

abbrev pub no_flags : FlagSet
no_flags = record { bools = []; texts = []; durations = []; repeated = [] }

abbrev pub run_set : FlagSet
run_set = record {
  bools = offs ("json" ∷ []);
  texts = empties ("size" ∷ "cwd" ∷ "name" ∷ []);
  durations = [];
  repeated = codes "env" ∷ [];
}

abbrev pub list_set : FlagSet
list_set = record no_flags { bools = offs ("json" ∷ []) }

abbrev pub stop_set : FlagSet
stop_set = record no_flags { durations = (codes "timeout", seconds 5) ∷ [] }

abbrev pub remove_set : FlagSet
remove_set = record no_flags { bools = offs ("force" ∷ []) }

abbrev pub record_set : FlagSet
record_set = record no_flags { texts = empties ("output" ∷ "title" ∷ []) }

abbrev pub view_set : FlagSet
view_set = record {
  bools = offs ("json" ∷ []);
  texts =
      (codes "format", codes "plain") ∷ (codes "chrome", codes "none") ∷ empties ("output" ∷ []);
  durations = [];
  repeated = [];
}

-- defaultKeyRate.
abbrev default_key_rate : ℤ
default_key_rate = pos 20000000

abbrev pub send_set : FlagSet
send_set = record {
  bools = offs ("raw" ∷ "wait-change" ∷ "regex" ∷ "wait-exit" ∷ "view" ∷ "json" ∷ []);
  texts = (codes "format", codes "plain") ∷ empties ("wait-text" ∷ "wait-cursor" ∷ []);
  durations =
      (codes "rate", default_key_rate)
      ∷ (codes "wait-duration", seconds 0)
      ∷ (codes "wait-idle", seconds 0)
      ∷ (codes "timeout", seconds 5)
      ∷ [];
  repeated = [];
}

abbrev pub wait_set : FlagSet
wait_set = record {
  bools = offs ("change" ∷ "regex" ∷ "exit" ∷ "json" ∷ []);
  texts = empties ("text" ∷ "cursor" ∷ []);
  durations = (codes "idle", seconds 0) ∷ (codes "timeout", seconds 5) ∷ [];
  repeated = [];
}

-- The variables of cmdWait.
unfoldable pub wait_flags : Given → WaitFlags
wait_flags g = record {
  idle = g.duration (codes "idle");
  change = g.bool (codes "change");
  text = g.text (codes "text");
  regex = g.bool (codes "regex");
  cursor = g.text (codes "cursor");
  exit = g.bool (codes "exit");
  timeout = g.duration (codes "timeout");
}

-- The variables of cmdSend.
unfoldable pub send_flags : Given → SendFlags
send_flags g = record {
  raw = g.bool (codes "raw");
  rate = g.duration (codes "rate");
  wait_duration = g.duration (codes "wait-duration");
  waits = record {
    idle = g.duration (codes "wait-idle");
    change = g.bool (codes "wait-change");
    text = g.text (codes "wait-text");
    regex = g.bool (codes "regex");
    cursor = g.text (codes "wait-cursor");
    exit = g.bool (codes "wait-exit");
    timeout = g.duration (codes "timeout");
  };
  view = g.bool (codes "view");
  format = g.text (codes "format");
  json_out = g.bool (codes "json");
}
