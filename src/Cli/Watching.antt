-- ===== src/Cli/Watching.antt =====
-- cmd/ht/watch.go and cmd/ht/record.go: the commands that watch, when no signal comes. `Signals` has
-- what a signal does to `ht watch`.
pub mod Signals
use headless_terminal.Base.{
  ℕ, Bool, true, false, Option, none, some, List, [], ◌∷◌, ◌++◌, Bytes, codes, Result, ok, err,
  ◌>>=◌, map, flatten, if◌then◌else◌,
}
use headless_terminal.Wire.{Json, line_of}
use headless_terminal.Client.{Streamed, WatchError, watch}
use headless_terminal.Server.Replay.{shown_data}
use headless_terminal.Cli.Flags.{CommandError, cannot_create, watch_failed, only_argument}
use headless_terminal.Cli.Commands.{
  Shell, Ending, returned, Ran, after, new_client, or_zero, zero_session,
}
use headless_terminal.Cli.Recording.{CastHeader, CastEvent, header, record_events}

abbrev escape : Bytes → Bytes
escape s = 0x1b ∷ s

-- altScreenEnter, altScreenExit and termModeReset.
abbrev pub alt_screen_enter : Bytes
alt_screen_enter = escape (codes "[?1049h")

abbrev pub alt_screen_exit : Bytes
alt_screen_exit = escape (codes "[?1049l")

abbrev pub term_mode_reset : Bytes
term_mode_reset = flatten (
    map escape (
      codes "[?1000l"
      ∷ codes "[?1002l"
      ∷ codes "[?1003l"
      ∷ codes "[?1006l"
      ∷ codes "[?1015l"
      ∷ codes "[?2004l"
      ∷ codes "[?25h"
      ∷ codes "[0m"
      ∷ []))

abbrev pub ending_of : Option WatchError → Ending
ending_of none = returned none
ending_of (some e) = returned (some (watch_failed e))

-- What cmdWatch writes to the standard output: nothing before OnReady. `use_alt` says that it is a terminal.
unfoldable pub watch_out : Bool → Streamed → Bytes
watch_out use_alt s = elim s.ready [
  | none ↦ []
  | some info ↦
      let shown = flatten (shown_data s.frames) in
      if use_alt then alt_screen_enter ++ (shown ++ (term_mode_reset ++ alt_screen_exit)) else shown
]

module _ (cast_text : CastHeader → Option Bytes) (event_text : CastEvent → Option Bytes)
    (clock : ℕ → ℕ) where
  -- The lines that cmdRecord writes, where the encoder takes every event.
  unfoldable pub cast_lines : Bytes → Streamed → Bytes
  cast_lines title s = elim s.ready [
    | none ↦ []
    | some info ↦
        line_of (cast_text (header title (or_zero zero_session info)))
        ++ flatten (map (λ e. line_of (event_text e)) (record_events clock 0 none s.frames))
  ]

module _ (shell : Shell) (json : Json) (connect : Option (Bytes → Option Bytes)) where
  -- cmdWatch, where the writes succeed.
  unfoldable pub cmd_watch : List Bytes → Ran
  cmd_watch args = after (only_argument args) (λ sid. after (new_client shell json connect) (λ net.
      let s = watch json net (λ f. none) sid in
      record { out = watch_out shell.is_tty s; file = none; ending = ending_of s.failed }))

  -- The file of --output, if there is one, is made before the client.
  create_output : Bytes → Result CommandError Bool
  create_output [] = ok false
  create_output (c ∷ path) = if shell.creates (c ∷ path) then ok true else err cannot_create

  recorded : Bool → Result CommandError (Bytes × Option WatchError) → Ran
  recorded true (err e) = record { out = []; file = some []; ending = returned (some e) }
  recorded true (ok (text, failed)) = record {
    out = [];
    file = some text;
    ending = ending_of failed;
  }
  recorded false (err e) = record { out = []; file = none; ending = returned (some e) }
  recorded false (ok (text, failed)) = record { out = text; file = none; ending = ending_of failed }

  -- cmdRecord with --title and --output, where the encoder takes every event and the writes succeed.
  unfoldable pub cmd_record :
      (CastHeader → Option Bytes)
      → (CastEvent → Option Bytes)
      → (ℕ → ℕ)
      → Bytes
      → Bytes
      → List Bytes
      → Ran
  unfolding create_output recorded
  cmd_record cast_text event_text clock title path args = after (only_argument args) (λ sid.
      after (create_output path) (λ to_file. recorded to_file (do
        net ← new_client shell json connect
        let s = watch json net (λ f. none) sid
        ok (cast_lines cast_text event_text clock title s, s.failed))))
