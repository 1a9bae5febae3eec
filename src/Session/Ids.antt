-- ===== src/Session/Ids.antt =====
-- internal/session/session.go: newID, with what it uses of `encoding/hex` and `fmt`.
use headless_terminal.Base.{
  ℕ, zero, suc, ◌+◌, ◌*◌, ◌/◌, ◌%◌, ◌^◌, ◌<◌, ◌≡◌, refl, true, Option, none, some, [], ◌∷◌, ◌++◌,
  Bytes, All, map, flatten, length, length-append, All-append, ltb, within, ◌||◌, if◌then◌else◌,
  arith,
}

-- A lowercase hexadecimal digit.
abbrev hex_digit : ℕ → ℕ
hex_digit d = if ltb d 10 then 0x30 + d else 0x57 + d

-- The last digits of a number, as many as are asked for.
hex : ℕ → ℕ → Bytes
hex zero n = []
hex (suc width) n = hex width (n / 16) ++ hex_digit (n % 16) ∷ []

-- newID, for the four bytes that were read, or none, and for the time in nanoseconds. The verb %08x shows all digits of
-- 32 bits, and no more.
unfoldable pub new_id : Option (ℕ × ℕ × ℕ × ℕ) → ℕ → Bytes
unfolding hex
new_id (some (a, b, c, d)) nanos = flatten (map (hex 2) (a ∷ b ∷ c ∷ d ∷ []))
new_id none nanos = hex 8 (nanos % 2 ^ 32)

abbrev IsHex : ℕ → Type 0
IsHex c = (within 0x30 0x39 c || within 0x61 0x66 c) ≡ true

hex_digit-IsHex : (d : ℕ) → d < 16 → IsHex (hex_digit d)
hex_digit-IsHex d h = ground arith

hex_digits : (width n : ℕ) → All IsHex (hex width n)
unfolding hex
hex_digits zero n = tt
hex_digits (suc width) n =
    All-append IsHex (hex width (n / 16)) (hex_digit (n % 16) ∷ []) (hex_digits width (n / 16))
      (hex_digit-IsHex (n % 16) (omega arith), tt)

length-hex : (width n : ℕ) → length (hex width n) ≡ width
unfolding hex
length-hex zero n = refl
length-hex (suc width) n =
    omega (
      arith,
      length-append (hex width (n / 16)) (hex_digit (n % 16) ∷ []),
      length-hex width (n / 16),
    )

every_digit : (bs : Bytes) → All IsHex (flatten (map (hex 2) bs))
every_digit [] = tt
every_digit (b ∷ bs) =
    All-append IsHex (hex 2 b) (flatten (map (hex 2) bs)) (hex_digits 2 b) (every_digit bs)

length_all : (bs : Bytes) → length (flatten (map (hex 2) bs)) ≡ 2 * length bs
length_all [] = refl
length_all (b ∷ bs) =
    omega (arith, length-append (hex 2 b) (flatten (map (hex 2) bs)), length-hex 2 b, length_all bs)

-- An id is eight lowercase hexadecimal digits, whether the random bytes were read or not.
new_id_lem :
    (random : Option (ℕ × ℕ × ℕ × ℕ)) (nanos : ℕ)
    → (length (new_id random nanos) ≡ 8) × All IsHex (new_id random nanos)
unfolding new_id
new_id_lem none nanos = (length-hex 8 (nanos % 2 ^ 32), hex_digits 8 (nanos % 2 ^ 32))
new_id_lem (some (a, b, c, d)) nanos =
    (length_all (a ∷ b ∷ c ∷ d ∷ []), every_digit (a ∷ b ∷ c ∷ d ∷ []))
