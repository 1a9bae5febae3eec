-- ===== src/Tests/Recording.antt =====
-- Runs of cmd/ht/record.go.
use headless_terminal.Base.{
  ℕ, ◌*◌, ◌≡◌, refl, none, List, [], ◌∷◌, ◌++◌, codes, map, flatten, arith,
}
use headless_terminal.Utf8.{runes, encode_rune, decode_rune}
use headless_terminal.Daemon.Handlers.Run.{Frame, data_frame, eof_frame}
use headless_terminal.Cli.Recording.{json_text, record_events}
use headless_terminal.Cli.Recording.Casts.{Ascends, IsSteady, record_events-shown_data}

-- Two frames, the second with a rune of two bytes.
abbrev whole : List Frame
whole = data_frame (codes "caf") ∷ data_frame (0xc3 ∷ 0xa9 ∷ []) ∷ eof_frame ∷ []

abbrev ticks : ℕ → ℕ
ticks n = n * 10

ticks-IsSteady : IsSteady ticks
ticks-IsSteady i j h = omega (arith, h)

record_events-shown_data_example :
    (flatten (map (λ e. e.text) (record_events ticks 0 none whole))
      ≡ codes "caf" ++ (0xc3 ∷ 0xa9 ∷ []))
    × Ascends 0 (map (λ e. e.elapsed) (record_events ticks 0 none whole))
unfolding encode_rune
record_events-shown_data_example =
    record_events-shown_data ticks whole ticks-IsSteady
      ((codes "caf", (refl, (refl, (refl, tt))), refl), ((0xe9 ∷ [], (refl, tt), refl), tt))

-- A rune that comes in two frames is recorded as two replacement characters.
split_rune :
    map
      (λ e. e.text)
      (record_events ticks 0 none
        (data_frame (0xc3 ∷ []) ∷ data_frame (0xa9 ∷ []) ∷ eof_frame ∷ []))
    ≡ (0xef ∷ 0xbf ∷ 0xbd ∷ []) ∷ (0xef ∷ 0xbf ∷ 0xbd ∷ []) ∷ []
unfolding record_events json_text runes decode_rune encode_rune
split_rune = refl
