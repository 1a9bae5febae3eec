-- ===== src/Cli/Recording.antt =====
-- cmd/ht/record.go: the asciicast of a session. The clock is what each `time.Now` and `time.Since` reads, in
-- nanoseconds, call by call.
pub mod Casts
use headless_terminal.Base.{
  ℕ, ◌+◌, ◌-◌, Option, none, some, List, [], ◌∷◌, Bytes, codes, map, flatten,
}
use headless_terminal.Utf8.{runes, encode_rune}
use headless_terminal.Daemon.Requests.{SessionInfo}
use headless_terminal.Daemon.Handlers.Run.{Frame, data_frame, eof_frame}

-- asciicastV2Header, without its time stamp.
pub record CastHeader : Type 0 where
  pub version : ℕ
  pub width : ℕ
  pub height : ℕ
  pub env : List (Bytes × Bytes)
  pub title : Bytes

-- The header that OnReady writes.
abbrev pub header : Bytes → SessionInfo → CastHeader
header title info = record {
  version = 2;
  width = info.cols;
  height = info.rows;
  env = (codes "TERM", codes "xterm-256color") ∷ [];
  title = title;
}

-- An event: the time since the first one began, and the text.
pub record CastEvent : Type 0 where
  pub elapsed : ℕ
  pub text : Bytes

-- A Go string as `encoding/json` writes it and a reader gets it: what is no UTF-8 is U+FFFD.
unfoldable pub json_text : Bytes → Bytes
json_text s = flatten (map encode_rune (runes s))

-- The rounds of OnFrame: `calls` readings of the clock were taken, and `anchor` is `t0`.
unfoldable pub record_events : (ℕ → ℕ) → ℕ → Option ℕ → List Frame → List CastEvent
record_events clock calls anchor [] = []
record_events clock calls anchor (eof_frame ∷ fs) = record_events clock calls anchor fs
record_events clock calls anchor (data_frame [] ∷ fs) = record_events clock calls anchor fs
record_events clock calls none (data_frame (c ∷ s) ∷ fs) =
    record { elapsed = clock (calls + 1) - clock calls; text = json_text (c ∷ s) }
    ∷ record_events clock (calls + 2) (some (clock calls)) fs
record_events clock calls (some t0) (data_frame (c ∷ s) ∷ fs) =
    record { elapsed = clock calls - t0; text = json_text (c ∷ s) }
    ∷ record_events clock (calls + 1) (some t0) fs
