-- ===== src/Keys/Round.antt =====
-- One round of `Parse`: how far it moves, and what it does not depend on.
use headless_terminal.Base.{
  ℕ, zero, suc, ◌≤◌, ◌<◌, ◌≡◌, refl, ap, ◌≢◌, inl, inr, some, [], ◌∷◌, ◌++◌, Bytes, ok, err, length,
  take, drop, arith, Option-cases, Result-cases,
}
use headless_terminal.Keys.{out_of_fuel, index_byte, parse_spec, round}

pub index_byte-lt : (s : Bytes) (c : ℕ) {n : ℕ} → index_byte s c ≡ some n → n < length s
unfolding index_byte
index_byte-lt [] c e = cc
index_byte-lt (x ∷ s) c e = elim (Option-cases (index_byte s c)) [
  | inl q ↦ ground arith
  | inr (i, q) ↦ ground (arith, index_byte-lt s c q)
]

pub index_byte-append :
    (s t : Bytes) (c : ℕ) {n : ℕ} → index_byte s c ≡ some n → index_byte (s ++ t) c ≡ some n
unfolding index_byte
index_byte-append [] t c e = cc
index_byte-append (x ∷ s) t c e = elim (Option-cases (index_byte s c)) [
  | inl q ↦ ground arith
  | inr (i, q) ↦ ground (arith, index_byte-append s t c q)
]

pub take-append_le : (n : ℕ) (s t : Bytes) → n ≤ length s → take n (s ++ t) ≡ take n s
take-append_le zero s t h = refl
take-append_le (suc n) [] t h = elim h [ ]
take-append_le (suc n) (x ∷ s) t h = ap (◌∷◌ x) (take-append_le n s t (omega arith))

pub drop-append_le : (n : ℕ) (s t : Bytes) → n ≤ length s → drop n (s ++ t) ≡ drop n s ++ t
drop-append_le zero s t h = refl
drop-append_le (suc n) [] t h = elim h [ ]
drop-append_le (suc n) (x ∷ s) t h = drop-append_le n s t (omega arith)

parse_spec-ok_move :
    (i j : ℕ) (spec : Bytes) {b : Bytes} → parse_spec i spec ≡ ok b → parse_spec j spec ≡ ok b
unfolding parse_spec
parse_spec-ok_move i j [] e = cc
parse_spec-ok_move i j (c ∷ cs) e = ground arith

pub parse_spec-ne-fuel : (i : ℕ) (spec : Bytes) → parse_spec i spec ≢ err out_of_fuel
unfolding parse_spec
parse_spec-ne-fuel i [] e = cc
parse_spec-ne-fuel i (c ∷ cs) e = ground arith

-- A round takes a byte at least, and none that is not there.
pub round_width :
    (i c : ℕ) (s : Bytes) {b : Bytes} {n : ℕ}
    → round i c s ≡ ok (b, n)
    → (1 ≤ n) × (n ≤ length (c ∷ s))
unfolding round
round_width i c s {b} {n} e = elim (Option-cases (index_byte s b'>')) [
  | inl q ↦ ground arith
  | inr (end, q) ↦ ground (arith, index_byte-lt s b'>' q)
]

pub round-ne-fuel : (i c : ℕ) (s : Bytes) → round i c s ≢ err out_of_fuel
unfolding round
round-ne-fuel i c s e = elim (Option-cases (index_byte s b'>')) [
  | inl q ↦ ground arith
  | inr (end, q) ↦ ground (arith, parse_spec-ne-fuel i (take end s))
]

-- A round that succeeds reads neither its position nor what comes after its `>`.
pub round-append :
    (i j c : ℕ) (s t : Bytes) {b : Bytes} {n : ℕ}
    → round i c s ≡ ok (b, n)
    → round j c (s ++ t) ≡ ok (b, n)
unfolding round
round-append i j c s t {b} {n} e = elim (Option-cases (index_byte s b'>')) [
  | inl q ↦ ground arith
  | inr (end, q) ↦ elim (Result-cases (parse_spec i (take end s))) [
    | inr (x, p) ↦ ground arith
    | inl (bytes, p) ↦
        let short : end ≤ length s = omega (arith, index_byte-lt s b'>' q) in
        ground (
          arith,
          index_byte-append s t b'>' q,
          take-append_le end s t short,
          parse_spec-ok_move i j (take end s) p,
        )
  ]
]
