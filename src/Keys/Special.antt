-- ===== src/Keys/Special.antt =====
-- internal/keys/keys.go: parseSpecial, its modifiers as a set and its control bytes.
use headless_terminal.Base.{
  ℕ, ◌+◌, ◌-◌, ◌%◌, ◌≤◌, ◌≡◌, refl, ap, ◌∙◌, ◌≢◌, none, Bool, true, false, ◌||◌, List, [], ◌∷◌,
  ◌++◌, Bytes, ok, err, length, All, arith, ltb, within, ◌==◌, if◌then◌else◌, bytes_eq_iff,
}
use headless_terminal.Utf8.{encode_rune}
use headless_terminal.Utf8.Ascii.{to_lower_ascii, runes_ascii}
use headless_terminal.Keys.Named.{lookup, named}
use headless_terminal.Keys.{
  Modifiers, no_modifiers, unknown_modifier, add_modifier, split_modifiers, resolve_literal,
  resolve_base, apply_ctrl, apply_modifiers, parse_special,
}

abbrev pub is_ctrl : ℕ → Bool
is_ctrl c = c == b'C' || c == b'c'

abbrev pub is_meta : ℕ → Bool
is_meta c = (c == b'M' || c == b'm') || (c == b'A' || c == b'a')

abbrev pub is_shift : ℕ → Bool
is_shift c = c == b'S' || c == b's'

abbrev pub is_modifier : ℕ → Bool
is_modifier c = is_ctrl c || is_meta c || is_shift c

abbrev pub any : (ℕ → Bool) → List ℕ → Bool
any p [] = false
any p (x ∷ xs) = p x || any p xs

-- The set of modifiers that a list of letters stands for.
abbrev pub modifiers : List ℕ → Modifiers
modifiers ms = record { ctrl = any is_ctrl ms; meta = any is_meta ms; shift = any is_shift ms }

-- A key behind its modifiers, each with its dash.
abbrev pub spell : List ℕ → Bytes → Bytes
spell [] key = key
spell (c ∷ ms) key = c ∷ b'-' ∷ spell ms key

-- The text is no modifier with something behind it.
abbrev pub IsKey : Bytes → Type 0
IsKey [] = Unit
IsKey (c ∷ []) = Unit
IsKey (c ∷ d ∷ rest) = (d == b'-') ≡ false

abbrev join : Modifiers → List ℕ → Modifiers
join m ms = record {
  ctrl = any is_ctrl ms || m.ctrl;
  meta = any is_meta ms || m.meta;
  shift = any is_shift ms || m.shift;
}

add_modifier-ok :
    (c : ℕ) (m : Modifiers)
    → is_modifier c ≡ true
    → add_modifier c m
      ≡ ok (record {
        ctrl = is_ctrl c || m.ctrl;
        meta = is_meta c || m.meta;
        shift = is_shift c || m.shift;
      })
unfolding add_modifier
add_modifier-ok c m h = ground arith

split_modifiers-spell :
    (ms : List ℕ) (key : Bytes) (m : Modifiers)
    → All (λ c. is_modifier c ≡ true) ms
    → IsKey key
    → split_modifiers (spell ms key) m ≡ ok (join m ms, key)
unfolding split_modifiers
split_modifiers-spell [] [] m h k = refl
split_modifiers-spell [] (c ∷ []) m h k = refl
split_modifiers-spell [] (c ∷ d ∷ rest) m h k = rw k
split_modifiers-spell (c ∷ ms) key m h k =
    rw (add_modifier-ok c m h.0) (split_modifiers-spell ms key _ h.1 k ∙ ground arith)

split_modifiers_unknown :
    (ms : List ℕ) (c : ℕ) (rest : Bytes) (m : Modifiers)
    → All (λ c. is_modifier c ≡ true) ms
    → is_modifier c ≡ false
    → split_modifiers (spell ms (c ∷ b'-' ∷ rest)) m ≡ err (unknown_modifier c)
unfolding split_modifiers
split_modifiers_unknown [] c rest m h u = unfold add_modifier in ground arith
split_modifiers_unknown (x ∷ ms) c rest m h u =
    rw (add_modifier-ok x m h.0) (split_modifiers_unknown ms c rest _ h.1 u)

-- The modifiers in front of a key act as a set: their order, their case and how often each stands
-- do not matter, and `A` is `M`.
pub parse_special-spell :
    (ms : List ℕ) (key : Bytes)
    → All (λ c. is_modifier c ≡ true) ms
    → IsKey key
    → parse_special (spell ms key) ≡ apply_modifiers (modifiers ms) key
unfolding parse_special
parse_special-spell ms key h k =
    rw (split_modifiers-spell ms key no_modifiers h k)
      (ap (λ m. apply_modifiers m key) (ground arith))

-- The first letter in front of a dash that is no modifier is the error, whatever comes behind it.
pub parse_special_unknown :
    (ms : List ℕ) (c : ℕ) (rest : Bytes)
    → All (λ c. is_modifier c ≡ true) ms
    → is_modifier c ≡ false
    → parse_special (spell ms (c ∷ b'-' ∷ rest)) ≡ err (unknown_modifier c)
unfolding parse_special
parse_special_unknown ms c rest h u = rw (split_modifiers_unknown ms c rest no_modifiers h u)

abbrev pub is_letter : ℕ → Bool
is_letter c = within b'a' b'z' c || within b'A' b'Z' c

lookup-length :
    (k : Bytes) (m : List (Bytes × Bytes)) → All (λ e. length e.0 ≢ length k) m → lookup k m ≡ none
unfolding lookup
lookup-length k [] h = refl
lookup-length k (e ∷ m) h = ground (arith, lookup-length k m h.1, bytes_eq_iff e.0 k)

named_letter : (d : ℕ) → lookup (d ∷ []) named ≡ none
named_letter d = lookup-length (d ∷ []) named (omega arith)

resolve_literal_letter :
    (c : ℕ) (shift : Bool) (name : Bytes)
    → is_letter c ≡ true
    → (d : ℕ) × (resolve_literal name shift (c ∷ []) ≡ ok (d ∷ []))
      × (is_letter d ≡ true)
      × (d % 32 ≡ c % 32)
unfolding resolve_literal
resolve_literal_letter c shift name h = (
  (if shift then (if within b'a' b'z' c then c - b'a' + b'A' else c) else c),
  unfold encode_rune in ground arith,
  ground arith,
  ground arith,
)

resolve_base_letter :
    (c : ℕ) (shift : Bool)
    → is_letter c ≡ true
    → (d : ℕ) × (resolve_base (c ∷ []) shift ≡ ok (d ∷ []))
      × (is_letter d ≡ true)
      × (d % 32 ≡ c % 32)
unfolding resolve_base
resolve_base_letter c shift h =
    let ascii : ltb c 0x80 ≡ true = ground arith in
    rw ((to_lower_ascii c ascii).1, named_letter (to_lower_ascii c ascii).0, runes_ascii c ascii)
      (resolve_literal_letter c shift (c ∷ []) h)

apply_ctrl_letter :
    (d : ℕ) (name : Bytes) → is_letter d ≡ true → apply_ctrl (d ∷ []) name ≡ ok ((d % 32) ∷ [])
unfolding apply_ctrl
apply_ctrl_letter d name h = ground arith

-- A letter behind modifiers with a ctrl among them gives its control byte, the letter's number in
-- the alphabet, behind an ESC if there is a meta too. Shift and the letter's case do not matter.
pub parse_special_ctrl :
    (ms : List ℕ) (c : ℕ)
    → All (λ c. is_modifier c ≡ true) ms
    → any is_ctrl ms ≡ true
    → is_letter c ≡ true
    → (parse_special (spell ms (c ∷ []))
        ≡ ok ((if any is_meta ms then 0x1b ∷ [] else []) ++ (c % 32) ∷ []))
      × (1 ≤ c % 32)
      × (c % 32 ≤ 26)
unfolding apply_modifiers
parse_special_ctrl ms c h k l =
    let (d, base, letter, same) = resolve_base_letter c (any is_shift ms) l in
    (
      parse_special-spell ms (c ∷ []) h tt
          ∙ rw base (rw k (rw (apply_ctrl_letter d (c ∷ []) letter) (ground arith))),
      ground arith,
      ground arith,
    )
