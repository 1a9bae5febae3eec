-- ===== src/Keys.antt =====
-- internal/keys/keys.go: the vim-style key notation and the bytes that it stands for. A Go string
-- is its bytes. Each error message is a constructor with the values that the message holds.
pub mod Named
pub mod Round
pub mod Loop
pub mod Special
pub mod Parsing
use headless_terminal.Base.{
  ℕ, zero, suc, ◌+◌, ◌-◌, Bool, true, false, ◌||◌, Option, none, some, List, [], ◌∷◌, ◌++◌, Bytes,
  Result, ok, err, ◌>>=◌, length, take, drop, ltb, leb, ◌==◌, within, if◌then◌else◌,
}
use headless_terminal.Utf8.{runes, encode_rune, to_lower}
use Named.{lookup, named, shifted}

-- What can be wrong with the text between `<` and `>`.
pub data SpecError : Type 0 where
  unknown_modifier : ℕ → SpecError
  modifier_without_key : SpecError
  shift_not_supported : Bytes → SpecError
  unknown_key_name : Bytes → SpecError
  ctrl_not_supported : Bytes → SpecError
  ctrl_requires_letter : Bytes → SpecError

-- An error of `Parse` holds the position of its `<`. `out_of_fuel` is no error of the program:
-- the model has it for a loop that is given too little fuel.
pub data KeyError : Type 0 where
  unterminated : ℕ → KeyError
  empty_spec : ℕ → KeyError
  at_position : ℕ → SpecError → KeyError
  out_of_fuel : KeyError

-- The variables `ctrl`, `meta` and `shift`.
pub record Modifiers : Type 0 where
  pub ctrl : Bool
  pub meta : Bool
  pub shift : Bool

abbrev pub no_modifiers : Modifiers
no_modifiers = record { ctrl = false; meta = false; shift = false }

-- The switch on the letter in front of a dash.
unfoldable pub add_modifier : ℕ → Modifiers → Result SpecError Modifiers
add_modifier c m =
    if c == b'C' || c == b'c'
    then ok (record m { ctrl = true })
    else if (c == b'M' || c == b'm') || (c == b'A' || c == b'a')
    then ok (record m { meta = true })
    else if c == b'S' || c == b's'
    then ok (record m { shift = true })
    else err (unknown_modifier c)

-- The loop that strips modifiers: the set ones, and the rest of the text.
unfoldable pub split_modifiers : Bytes → Modifiers → Result SpecError (Modifiers × Bytes)
unfolding add_modifier
split_modifiers [] m = ok (m, [])
split_modifiers (c ∷ []) m = ok (m, c ∷ [])
split_modifiers (c ∷ d ∷ rest) m =
    if d == b'-' then (add_modifier c m >>= split_modifiers rest) else ok (m, c ∷ d ∷ rest)

-- The literal character of `resolveBase`, with the shift applied to a letter.
unfoldable pub shift_rune : ℕ → Result SpecError ℕ
shift_rune r =
    if within b'a' b'z' r
    then ok (r - b'a' + b'A')
    else if within b'A' b'Z' r
    then ok r
    else err (shift_not_supported (encode_rune r))

resolve_literal : Bytes → Bool → List ℕ → Result SpecError Bytes
unfolding shift_rune
resolve_literal name shift (r ∷ []) =
    if shift then (shift_rune r >>= λ r'. ok (encode_rune r')) else ok (encode_rune r)
resolve_literal name shift _ = err (unknown_key_name name)

resolve_shifted : Bytes → Option Bytes → Result SpecError Bytes
resolve_shifted name (some seq) = ok seq
resolve_shifted name none = err (shift_not_supported name)

resolve_named : Bytes → Bool → Option Bytes → Result SpecError Bytes
unfolding resolve_literal resolve_shifted
resolve_named name shift (some seq) =
    if shift then resolve_shifted name (lookup (to_lower name) shifted) else ok seq
resolve_named name shift none = resolve_literal name shift (runes name)

-- resolveBase.
unfoldable pub resolve_base : Bytes → Bool → Result SpecError Bytes
unfolding resolve_named
resolve_base name shift = resolve_named name shift (lookup (to_lower name) named)

-- applyCtrl.
unfoldable pub apply_ctrl : Bytes → Bytes → Result SpecError Bytes
apply_ctrl (b ∷ []) name =
    if within b'a' b'z' b
    then ok ((b - b'a' + 1) ∷ [])
    else if within b'A' b'Z' b
    then ok ((b - b'A' + 1) ∷ [])
    else err (ctrl_requires_letter name)
apply_ctrl _ name = err (ctrl_not_supported name)

-- The part of `parseSpecial` behind the loop.
unfoldable pub apply_modifiers : Modifiers → Bytes → Result SpecError Bytes
apply_modifiers m [] = err modifier_without_key
apply_modifiers m (c ∷ cs) = do
  base ← resolve_base (c ∷ cs) m.shift
  controlled ← if m.ctrl then apply_ctrl base (c ∷ cs) else ok base
  ok (if m.meta then 0x1b ∷ controlled else controlled)

-- parseSpecial.
unfoldable pub parse_special : Bytes → Result SpecError Bytes
parse_special spec = do (m, rest) ← split_modifiers spec no_modifiers; apply_modifiers m rest

-- strings.IndexByte.
unfoldable pub index_byte : Bytes → ℕ → Option ℕ
index_byte [] c = none
index_byte (x ∷ xs) c =
    if x == c then some 0 else elim (index_byte xs c) [ none ↦ none | some i ↦ some (suc i) ]

-- The error of `parseSpecial`, wrapped with the position.
abbrev pub locate : ℕ → Result SpecError Bytes → Result KeyError Bytes
locate i (ok bytes) = ok bytes
locate i (err e) = err (at_position i e)

-- The text between `<` at position `i` and its `>`.
unfoldable pub parse_spec : ℕ → Bytes → Result KeyError Bytes
parse_spec i [] = err (empty_spec i)
parse_spec i (c ∷ cs) = locate i (parse_special (c ∷ cs))

-- A round of the loop of `Parse` at position `i`, on the byte `c` and what follows it: the bytes
-- that it appends, and how far it moves.
unfoldable pub round : ℕ → ℕ → Bytes → Result KeyError (Bytes × ℕ)
round i c s =
    if c == b'<'
    then elim (index_byte s b'>') [
      | none ↦ err (unterminated i)
      | some end ↦ parse_spec i (take end s) >>= λ bytes. ok (bytes, 1 + end + 1)
    ]
    else ok (c ∷ [], 1)

-- The loop of `Parse`, where `s` is what is left of the text from position `i` on.
unfoldable pub parse_loop : ℕ → ℕ → Bytes → Bytes → Result KeyError Bytes
parse_loop fuel i [] out = ok out
parse_loop zero i (c ∷ s) out = err out_of_fuel
parse_loop (suc fuel) i (c ∷ s) out = do
  (bytes, n) ← round i c s
  parse_loop fuel (i + n) (drop n (c ∷ s)) (out ++ bytes)

-- Parse. Each round takes a byte at least, so the length is fuel enough.
unfoldable pub parse : Bytes → Result KeyError Bytes
parse s = parse_loop (length s) 0 s []

parse_all_loop : List Bytes → Bytes → Result KeyError Bytes
parse_all_loop [] out = ok out
parse_all_loop (s ∷ ss) out = parse s >>= λ b. parse_all_loop ss (out ++ b)

-- ParseAll.
unfoldable pub parse_all : List Bytes → Result KeyError Bytes
unfolding parse_all_loop
parse_all ss = parse_all_loop ss []
