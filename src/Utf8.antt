-- ===== src/Utf8.antt =====
-- What internal/keys and internal/session use of Go's UTF-8: `utf8.DecodeRune`, the conversions
-- `[]rune(s)` and `string(r)`, and `strings.ToLower`.
pub mod RoundTrip
pub mod Ascii
use headless_terminal.Base.{
  ℕ, zero, suc, ◌+◌, ◌-◌, ◌*◌, ◌/◌, ◌%◌, Bool, true, false, ◌&&◌, ◌||◌, List, [], ◌∷◌, ◌++◌, map,
  Bytes, length, drop, flatten, ltb, leb, ◌==◌, within, if◌then◌else◌,
}

-- utf8.RuneError, U+FFFD.
abbrev pub rune_error : ℕ
rune_error = 0xfffd

abbrev is_cont : ℕ → Bool
is_cont = within 0x80 0xbf

abbrev bad : ℕ × ℕ
bad = (rune_error, 1)

decode_two : ℕ → Bytes → ℕ × ℕ
decode_two a (b ∷ _) = if is_cont b then ((a - 0xc0) * 64 + (b - 0x80), 2) else bad
decode_two a [] = bad

decode_three : ℕ → ℕ → ℕ → Bytes → ℕ × ℕ
decode_three lo hi a (b ∷ c ∷ _) =
    if within lo hi b && is_cont c
    then ((a - 0xe0) * 4096 + (b - 0x80) * 64 + (c - 0x80), 3)
    else bad
decode_three lo hi a _ = bad

decode_four : ℕ → ℕ → ℕ → Bytes → ℕ × ℕ
decode_four lo hi a (b ∷ c ∷ d ∷ _) =
    if within lo hi b && (is_cont c && is_cont d)
    then ((a - 0xf0) * 262144 + (b - 0x80) * 4096 + (c - 0x80) * 64 + (d - 0x80), 4)
    else bad
decode_four lo hi a _ = bad

-- utf8.DecodeRune: the first rune and its width. An invalid encoding gives U+FFFD of width 1, and
-- no bytes give width 0. The ranges of the second byte keep out overlong forms and surrogates.
unfoldable pub decode_rune : Bytes → ℕ × ℕ
unfolding decode_two decode_three decode_four
decode_rune [] = (rune_error, 0)
decode_rune (a ∷ s) =
    if ltb a 0x80
    then (a, 1)
    else if within 0xc2 0xdf a
    then decode_two a s
    else if a == 0xe0
    then decode_three 0xa0 0xbf a s
    else if a == 0xed
    then decode_three 0x80 0x9f a s
    else if within 0xe1 0xef a
    then decode_three 0x80 0xbf a s
    else if a == 0xf0
    then decode_four 0x90 0xbf a s
    else if within 0xf1 0xf3 a
    then decode_four 0x80 0xbf a s
    else if a == 0xf4
    then decode_four 0x80 0x8f a s
    else bad

-- A Unicode scalar value: no surrogate, and at most U+10FFFF.
abbrev pub is_scalar : ℕ → Bool
is_scalar r = ltb r 0xd800 || within 0xe000 0x10ffff r

-- string(r): the UTF-8 encoding, that of U+FFFD for what is no scalar value.
unfoldable pub encode_rune : ℕ → Bytes
encode_rune r =
    if ltb r 0x80
    then r ∷ []
    else if ltb r 0x800
    then (0xc0 + r / 64) ∷ (0x80 + r % 64) ∷ []
    else if is_scalar r
    then if ltb r 0x10000
      then (0xe0 + r / 4096) ∷ (0x80 + r / 64 % 64) ∷ (0x80 + r % 64) ∷ []
      else (0xf0 + r / 262144)
        ∷ (0x80 + r / 4096 % 64)
        ∷ (0x80 + r / 64 % 64)
        ∷ (0x80 + r % 64)
        ∷ []
    else 0xef ∷ 0xbf ∷ 0xbd ∷ []

runes_loop : ℕ → Bytes → List ℕ
runes_loop zero s = []
runes_loop (suc f) [] = []
runes_loop (suc f) (a ∷ s) =
    let (r, size) = decode_rune (a ∷ s) in r ∷ runes_loop f (drop size (a ∷ s))

-- []rune(s). Each round takes a byte at least, so the length is fuel enough.
unfoldable pub runes : Bytes → List ℕ
unfolding runes_loop
runes s = runes_loop (length s) s

-- unicode.ToLower as far as an ASCII result goes: U+0130 and U+212A are the runes outside ASCII
-- that have an ASCII lower case, and any other such rune stays outside ASCII.
lower_rune : ℕ → ℕ
lower_rune r =
    if within b'A' b'Z' r
    then r + 32
    else if r == 0x130
    then b'i'
    else if r == 0x212a
    then b'k'
    else r

-- strings.ToLower(s), up to the choice of the runes outside ASCII.
unfoldable pub to_lower : Bytes → Bytes
unfolding lower_rune
to_lower s = flatten (map (λ r. encode_rune (lower_rune r)) (runes s))
