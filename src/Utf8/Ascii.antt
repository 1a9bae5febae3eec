-- ===== src/Utf8/Ascii.antt =====
-- ASCII bytes are runes of width one.
use headless_terminal.Base.{ℕ, ◌≡◌, true, ◌∷◌, [], Bytes, arith, ltb}
use headless_terminal.Utf8.{decode_rune, encode_rune, runes, runes_loop, lower_rune, to_lower}

pub decode_rune_ascii : (c : ℕ) (s : Bytes) → ltb c 0x80 ≡ true → decode_rune (c ∷ s) ≡ (c, 1)
unfolding decode_rune
decode_rune_ascii c s h = rw h

pub encode_rune_ascii : (c : ℕ) → ltb c 0x80 ≡ true → encode_rune c ≡ c ∷ []
unfolding encode_rune
encode_rune_ascii c h = rw h

pub runes_ascii : (c : ℕ) → ltb c 0x80 ≡ true → runes (c ∷ []) ≡ c ∷ []
unfolding runes runes_loop
runes_ascii c h = rw (decode_rune_ascii c [] h)

lower_rune_ascii : (c : ℕ) → ltb c 0x80 ≡ true → ltb (lower_rune c) 0x80 ≡ true
unfolding lower_rune
lower_rune_ascii c h = ground arith

-- The lower case of one ASCII byte is one byte.
pub to_lower_ascii : (c : ℕ) → ltb c 0x80 ≡ true → (d : ℕ) × (to_lower (c ∷ []) ≡ d ∷ [])
unfolding to_lower
to_lower_ascii c h = (
  lower_rune c,
  rw (runes_ascii c h) (rw (encode_rune_ascii (lower_rune c) (lower_rune_ascii c h))),
)
