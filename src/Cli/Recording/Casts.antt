-- ===== src/Cli/Recording/Casts.antt =====
-- cmd/ht/record.go and cmd/ht/watch.go: a recording against what is shown.
use headless_terminal.Base.{
  ℕ, ◌+◌, ◌-◌, ◌≤◌, ◌≡◌, refl, ap, subst, true, Option, none, some, List, [], ◌∷◌, Bytes, map,
  flatten, All, arith,
}
use headless_terminal.Utf8.{runes, encode_rune, is_scalar}
use headless_terminal.Utf8.RoundTrip.{runes-flatten}
use headless_terminal.Daemon.Handlers.Run.{Frame, data_frame, eof_frame}
use headless_terminal.Server.Replay.{shown_data}
use headless_terminal.Cli.Recording.{json_text, record_events}

-- UTF-8 of scalar values.
abbrev pub IsText : Bytes → Type 0
IsText s = (rs : List ℕ) × All (λ r. is_scalar r ≡ true) rs × (flatten (map encode_rune rs) ≡ s)

json_text_lem : (s : Bytes) → IsText s → json_text s ≡ s
unfolding json_text
json_text_lem s (rs, a, e) =
    let same = ap (λ l. flatten (map encode_rune l)) (runes-flatten rs a) in
    subst (λ t. flatten (map encode_rune (runes t)) ≡ t) e same

-- Each time is at least the one before it, and the first at least the bound.
abbrev pub Ascends : ℕ → List ℕ → Type 0
Ascends b [] = Unit {0}
Ascends b (t ∷ ts) = (b ≤ t) × Ascends t ts

-- A clock that does not run backwards, as Go's monotonic readings.
abbrev pub IsSteady : (ℕ → ℕ) → Type 0
IsSteady clock = (i j : ℕ) → i ≤ j → clock i ≤ clock j

module _ (clock : ℕ → ℕ) where
  texts_kept :
      (calls : ℕ) (anchor : Option ℕ) (fs : List Frame)
      → All IsText (shown_data fs)
      → flatten (map (λ e. e.text) (record_events clock calls anchor fs)) ≡ flatten (shown_data fs)
  unfolding record_events
  texts_kept calls anchor [] a = refl
  texts_kept calls anchor (eof_frame ∷ fs) a = texts_kept calls anchor fs a
  texts_kept calls anchor (data_frame [] ∷ fs) (x, a) = texts_kept calls anchor fs a
  texts_kept calls none (data_frame (c ∷ s) ∷ fs) (x, a) =
      rw (json_text_lem (c ∷ s) x, texts_kept (calls + 2) (some (clock calls)) fs a) refl
  texts_kept calls (some t0) (data_frame (c ∷ s) ∷ fs) (x, a) =
      rw (json_text_lem (c ∷ s) x, texts_kept (calls + 1) (some t0) fs a) refl

  anchored_rise :
      (t0 last calls : ℕ) (fs : List Frame)
      → IsSteady clock
      → last ≤ calls
      → Ascends (clock last - t0) (map (λ e. e.elapsed) (record_events clock calls (some t0) fs))
  unfolding record_events
  anchored_rise t0 last calls [] steady h = tt
  anchored_rise t0 last calls (eof_frame ∷ fs) steady h = anchored_rise t0 last calls fs steady h
  anchored_rise t0 last calls (data_frame [] ∷ fs) steady h =
      anchored_rise t0 last calls fs steady h
  anchored_rise t0 last calls (data_frame (c ∷ s) ∷ fs) steady h = (
    omega (arith, steady last calls h),
    anchored_rise t0 calls (calls + 1) fs steady (omega arith),
  )

  times_rise :
      (calls : ℕ) (fs : List Frame)
      → IsSteady clock
      → Ascends 0 (map (λ e. e.elapsed) (record_events clock calls none fs))
  unfolding record_events
  times_rise calls [] steady = tt
  times_rise calls (eof_frame ∷ fs) steady = times_rise calls fs steady
  times_rise calls (data_frame [] ∷ fs) steady = times_rise calls fs steady
  times_rise calls (data_frame (c ∷ s) ∷ fs) steady =
      (omega arith, anchored_rise (clock calls) (calls + 1) (calls + 2) fs steady (omega arith))

  -- On a clock that does not run backwards, the texts of a recording's events are together what `ht watch` writes for
  -- the same frames, if the data of each frame is UTF-8 on its own, and the times do not fall.
  pub record_events-shown_data :
      (fs : List Frame)
      → IsSteady clock
      → All IsText (shown_data fs)
      → (flatten (map (λ e. e.text) (record_events clock 0 none fs)) ≡ flatten (shown_data fs))
        × Ascends 0 (map (λ e. e.elapsed) (record_events clock 0 none fs))
  record_events-shown_data fs steady a = (texts_kept 0 none fs a, times_rise 0 fs steady)
