-- ===== src/Keys/Loop.antt =====
-- The loop of `Parse`: its fuel, its accumulator and its positions.
use native.Mathlib.Nat.{add_assoc, add-zero}
use headless_terminal.Base.{
  ℕ, zero, suc, ◌+◌, ◌≤◌, ◌≡◌, refl, sym, ap, ◌∙◌, ◌≢◌, inl, inr, [], ◌∷◌, ◌++◌, append_assoc,
  Bytes, Result, ok, err, length, length-append, length-drop, take, drop, arith, Option-cases,
  Result-cases,
}
use headless_terminal.Keys.{
  KeyError, out_of_fuel, unterminated, empty_spec, at_position, index_byte, parse_spec, round,
  parse_loop,
}
use headless_terminal.Keys.Round.{round_width, round-ne-fuel, round-append, drop-append_le}

-- With fuel for every byte left, more fuel changes nothing, and the fuel does not run out.
pub parse_loop_fuel :
    (f g i : ℕ) (s out : Bytes)
    → length s ≤ f
    → length s ≤ g
    → (parse_loop f i s out ≡ parse_loop g i s out) × (parse_loop f i s out ≢ err out_of_fuel)
unfolding parse_loop
parse_loop_fuel f g i [] out hf hg = (refl, λ e. cc)
parse_loop_fuel zero g i (c ∷ s) out hf hg = elim hf [ ]
parse_loop_fuel (suc f) zero i (c ∷ s) out hf hg = elim hg [ ]
parse_loop_fuel (suc f) (suc g) i (c ∷ s) out hf hg = elim (Result-cases (round i c s)) [
  | inr (e, q) ↦ rw q (refl, λ x. ground (arith, round-ne-fuel i c s))
  | inl ((b, n), q) ↦
      let fits = round_width i c s q in
      let left = length-drop n (c ∷ s) in
      rw q (
        parse_loop_fuel f g (i + n) (drop n (c ∷ s)) (out ++ b) (omega (arith, fits, left))
          (omega (arith, fits, left)))
]

parse_loop-round :
    (f i c : ℕ) (s out : Bytes) {b : Bytes} {n : ℕ}
    → round i c s ≡ ok (b, n)
    → parse_loop (suc f) i (c ∷ s) out ≡ parse_loop f (i + n) (drop n (c ∷ s)) (out ++ b)
unfolding parse_loop
parse_loop-round f i c s out q = rw q

-- The loop runs through a text that it accepts, and goes on with what follows.
pub parse_loop-append :
    (f g i : ℕ) (s t out : Bytes) {r : Bytes}
    → length s ≤ f
    → length (s ++ t) ≤ g
    → parse_loop f i s out ≡ ok r
    → parse_loop g i (s ++ t) out ≡ parse_loop (length t) (i + length s) t r
unfolding parse_loop
parse_loop-append f g i [] t out {r} hf hg e =
    let same : out ≡ r = ground arith in
    rw (same, add-zero i) (parse_loop_fuel g (length t) i t r hg (omega arith)).0
parse_loop-append zero g i (c ∷ s) t out hf hg e = elim hf [ ]
parse_loop-append (suc f) zero i (c ∷ s) t out hf hg e = elim hg [ ]
parse_loop-append (suc f) (suc g) i (c ∷ s) t out {r} hf hg e = elim (Result-cases (round i c s)) [
  | inr (x, q) ↦ ground arith
  | inl ((b, n), q) ↦
      let fits = round_width i c s q in
      let left = length-drop n (c ∷ s) in
      let both = length-append (drop n (c ∷ s)) t in
      let all = length-append s t in
      let end : i + n + length (drop n (c ∷ s)) ≡ i + suc (length s) = omega (arith, fits, left) in
      let dropped : drop n (c ∷ (s ++ t)) ≡ drop n (c ∷ s) ++ t =
        drop-append_le n (c ∷ s) t fits.1 in
      parse_loop-round g i c (s ++ t) out (round-append i i c s t q)
      ∙ ap (λ u. parse_loop g (i + n) u (out ++ b)) dropped
      ∙ parse_loop-append f g (i + n) (drop n (c ∷ s)) t (out ++ b) (omega (arith, fits, left))
          (omega (arith, fits, left, both, all)) (sym (parse_loop-round f i c s out q) ∙ e)
      ∙ ap (λ k. parse_loop (length t) k t r) end
]

-- An error `n` bytes further on.
abbrev pub move : ℕ → KeyError → KeyError
move n (unterminated i) = unterminated (n + i)
move n (empty_spec i) = empty_spec (n + i)
move n (at_position i e) = at_position (n + i) e
move n out_of_fuel = out_of_fuel

-- The outcome of a text that stands behind `n` bytes which gave `pre`.
abbrev pub behind : ℕ → Bytes → Result KeyError Bytes → Result KeyError Bytes
behind n pre (ok out) = ok (pre ++ out)
behind n pre (err e) = err (move n e)

abbrev moved {ℓ} : {A : Type ℓ} → ℕ → Result KeyError A → Result KeyError A
moved n (ok a) = ok a
moved n (err e) = err (move n e)

parse_spec_move : (n i : ℕ) (s : Bytes) → parse_spec (n + i) s ≡ moved n (parse_spec i s)
unfolding parse_spec
parse_spec_move n i [] = refl
parse_spec_move n i (c ∷ cs) = ground arith

round_move : (n i c : ℕ) (s : Bytes) → round (n + i) c s ≡ moved n (round i c s)
unfolding round
round_move n i c s = elim (Option-cases (index_byte s b'>')) [
  | inl q ↦ ground arith
  | inr (end, q) ↦ ground (arith, parse_spec_move n i (take end s))
]

-- What stands in front only moves the errors, and comes first in the output.
pub parse_loop-behind :
    (f n i : ℕ) (s pre out : Bytes)
    → parse_loop f (n + i) s (pre ++ out) ≡ behind n pre (parse_loop f i s out)
unfolding parse_loop
parse_loop-behind f n i [] pre out = refl
parse_loop-behind zero n i (c ∷ s) pre out = refl
parse_loop-behind (suc f) n i (c ∷ s) pre out = elim (Result-cases (round i c s)) [
  | inr (e, q) ↦ rw (round_move n i c s, q)
  | inl ((b, k), q) ↦
      rw (round_move n i c s, q)
        (simp (add_assoc, append_assoc)
          (parse_loop-behind f n (i + k) (drop k (c ∷ s)) pre (out ++ b)))
]
