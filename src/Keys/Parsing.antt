-- ===== src/Keys/Parsing.antt =====
-- internal/keys/keys.go: Parse and ParseAll on whole texts: their end, their pieces, a notation
-- for any bytes, and their errors.
use headless_terminal.Base.{
  ℕ, zero, suc, ◌+◌, ◌≤◌, ◌≡◌, refl, sym, ap, ◌∙◌, ◌≢◌, inl, inr, some, List, [], ◌∷◌, ◌++◌,
  append_assoc, append-nil, Bytes, codes, ok, err, length, drop, flatten, arith, ◌==◌,
  if◌then◌else◌, Bool-cases, Option-cases, Result-cases, >>=-eq-ok, ==_iff, false, take,
  length-drop, get_elem?, get_elem?-drop,
}
use headless_terminal.Utf8.{to_lower, runes, encode_rune, decode_rune}
use headless_terminal.Keys.Named.{lookup}
use headless_terminal.Keys.{
  resolve_base, KeyError, out_of_fuel, unterminated, empty_spec, at_position, index_byte,
  parse_special, split_modifiers, apply_modifiers, parse_spec, round, parse_loop, parse, parse_all,
  parse_all_loop,
}
use headless_terminal.Keys.Round.{round_width}
use headless_terminal.Keys.Loop.{parse_loop_fuel, parse_loop-append, parse_loop-behind, behind}

-- `Parse` ends on every text within the rounds that the text has bytes: its fuel never runs out.
pub parse-ne-out_of_fuel : (s : Bytes) → parse s ≢ err out_of_fuel
unfolding parse
parse-ne-out_of_fuel s =
    (parse_loop_fuel (length s) (length s) 0 s [] (omega arith) (omega arith)).1

-- Behind a text that `Parse` accepts, a second text gives what it gives alone: the bytes of the
-- first come before its bytes, and an error moves on by the length of the first.
pub parse-append :
    (a b : Bytes) {x : Bytes} → parse a ≡ ok x → parse (a ++ b) ≡ behind (length a) x (parse b)
unfolding parse
parse-append a b {x} e =
    parse_loop-append (length a) (length (a ++ b)) 0 a b [] (omega arith) (omega arith) e
    ∙ ground (arith, parse_loop-behind (length b) (length a) 0 b x [], append-nil x)

parse_all_loop-parse :
    (ss : List Bytes) (a out : Bytes) {r : Bytes}
    → parse a ≡ ok out
    → parse_all_loop ss out ≡ ok r
    → parse (a ++ flatten ss) ≡ ok r
unfolding parse_all_loop
parse_all_loop-parse [] a out p e = rw append-nil (p ∙ e)
parse_all_loop-parse (s ∷ ss) a out p e =
    let (b, q, later) = >>=-eq-ok (parse s) (λ b. parse_all_loop ss (out ++ b)) e in
    rw (← append_assoc a s (flatten ss))
      (parse_all_loop-parse ss (a ++ s) (out ++ b) (ground (arith, parse-append a s p)) later)

-- When `ParseAll` accepts its texts, `Parse` gives the same bytes for the texts joined together.
pub parse_all-parse :
    (ss : List Bytes) {r : Bytes} → parse_all ss ≡ ok r → parse (flatten ss) ≡ ok r
unfolding parse_all
parse_all-parse ss e = parse_all_loop-parse ss [] [] (unfold parse parse_loop in refl) e

-- The notation of a byte sequence: `<lt>` for the byte of `<`, and any other byte for itself.
abbrev pub quote : Bytes → Bytes
quote [] = []
quote (c ∷ cs) = (if c == b'<' then codes "<lt>" else c ∷ []) ++ quote cs

parse_lt : parse (codes "<lt>") ≡ ok (b'<' ∷ [])
unfolding parse parse_loop round index_byte parse_spec parse_special split_modifiers apply_modifiers
    resolve_base lookup to_lower runes encode_rune decode_rune
parse_lt = refl

parse_literal : (c : ℕ) → (c == b'<') ≡ false → parse (c ∷ []) ≡ ok (c ∷ [])
unfolding parse parse_loop round
parse_literal c h = rw h

parse-quote_byte : (c : ℕ) → parse (if c == b'<' then codes "<lt>" else c ∷ []) ≡ ok (c ∷ [])
parse-quote_byte c = elim (Bool-cases (c == b'<')) [
  | inl h ↦ rw h (parse_lt ∙ ap (λ x. ok (x ∷ [])) (sym ((==_iff c b'<').0 h)))
  | inr h ↦ rw h (parse_literal c h)
]

-- Every byte sequence can be sent: `Parse` gives it back from its notation.
pub parse-quote : (bytes : Bytes) → parse (quote bytes) ≡ ok bytes
parse-quote [] = unfold parse parse_loop in refl
parse-quote (c ∷ cs) =
    parse-append (if c == b'<' then codes "<lt>" else c ∷ []) (quote cs) (parse-quote_byte c)
    ∙ rw (parse-quote cs)

-- The position that an error holds.
abbrev pub position : KeyError → ℕ
position (unterminated i) = i
position (empty_spec i) = i
position (at_position i e) = i
position out_of_fuel = 0

parse_spec_located :
    (i : ℕ) (spec : Bytes) {e : KeyError} → parse_spec i spec ≡ err e → position e ≡ i
unfolding parse_spec
parse_spec_located i [] h = ground arith
parse_spec_located i (c ∷ cs) h = ground arith

round_located :
    (i c : ℕ) (s : Bytes) {e : KeyError} → round i c s ≡ err e → (position e ≡ i) × (c ≡ b'<')
unfolding round parse_spec
round_located i c s {e} h = elim (Option-cases (index_byte s b'>')) [
  | inl q ↦ ground arith
  | inr (end, q) ↦ ground (arith, parse_spec_located i (take end s))
]

loop_located :
    (f i : ℕ) (s out : Bytes) {e : KeyError}
    → length s ≤ f
    → parse_loop f i s out ≡ err e
    → (k : ℕ) × (position e ≡ i + k) × (get_elem? s k ≡ some b'<')
unfolding parse_loop
loop_located f i [] out h e = cc
loop_located zero i (c ∷ s) out h e = elim h [ ]
loop_located (suc f) i (c ∷ s) out h e = elim (Result-cases (round i c s)) [
  | inr (x, q) ↦ (0, ground (arith, round_located i c s q), ground (arith, round_located i c s q))
  | inl ((b, n), q) ↦
      let fits = round_width i c s q in
      let left = length-drop n (c ∷ s) in
      let (k, p, g) =
        loop_located f (i + n) (drop n (c ∷ s)) (out ++ b) (omega (arith, fits, left))
          (rw q at e) in
      (n + k, omega (arith, p), get_elem?-drop n k (c ∷ s) ∙ g)
]

-- An error of `Parse` holds the position of a `<` of the text.
pub parse_located :
    (s : Bytes) {e : KeyError} → parse s ≡ err e → get_elem? s (position e) ≡ some b'<'
unfolding parse
parse_located s {e} h =
    let (k, p, g) = loop_located (length s) 0 s [] (omega arith) h in
    let same : position e ≡ k = omega arith in rw same g
