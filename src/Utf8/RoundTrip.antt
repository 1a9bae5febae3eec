-- ===== src/Utf8/RoundTrip.antt =====
-- Decoding what was encoded.
use headless_terminal.Base.{
  ℕ, zero, suc, ◌≤◌, ◌≡◌, refl, sym, ap, ◌∙◌, subst, true, List, [], ◌∷◌, ◌++◌, Bytes, map, flatten,
  length, drop, length-append, drop-append, All, arith,
}
use headless_terminal.Utf8.{decode_rune, encode_rune, is_scalar, runes_loop, runes}

-- The decoder gives back an encoded scalar value with its width, whatever follows.
pub decode_rune-encode_rune :
    (r : ℕ) (rest : Bytes)
    → is_scalar r ≡ true
    → decode_rune (encode_rune r ++ rest) ≡ (r, length (encode_rune r))
unfolding decode_rune encode_rune
decode_rune-encode_rune r rest h = ground arith

-- A rune takes one byte at least, and no byte that is not there.
pub decode_rune_width :
    (a : ℕ) (s : Bytes) → (1 ≤ (decode_rune (a ∷ s)).1) × ((decode_rune (a ∷ s)).1 ≤ length (a ∷ s))
unfolding decode_rune
decode_rune_width a [] = ground arith
decode_rune_width a (b ∷ []) = ground arith
decode_rune_width a (b ∷ c ∷ []) = ground arith
decode_rune_width a (b ∷ c ∷ d ∷ s) = ground arith

nonempty_cons : (s : Bytes) → 1 ≤ length s → (a : ℕ) × (t : Bytes) × (s ≡ a ∷ t)
nonempty_cons [] h = absurd (ground arith)
nonempty_cons (a ∷ t) h = (a, t, refl)

encode_rune_width : (r : ℕ) → 1 ≤ length (encode_rune r)
unfolding encode_rune
encode_rune_width r = ground arith

runes_loop-encode_rune :
    (fuel r a : ℕ) (t rest : Bytes)
    → is_scalar r ≡ true
    → encode_rune r ++ rest ≡ a ∷ t
    → runes_loop (suc fuel) (a ∷ t) ≡ r ∷ runes_loop fuel rest
unfolding runes_loop
runes_loop-encode_rune fuel r a t rest h e =
    let first =
      subst (λ s. decode_rune s ≡ (r, length (encode_rune r))) e
        (decode_rune-encode_rune r rest h) in
    let gone =
      subst (λ s. drop (length (encode_rune r)) s ≡ rest) e (drop-append (encode_rune r) rest) in
    rw (first, gone) refl

runes_loop-flatten :
    (fuel : ℕ) (rs : List ℕ)
    → All (λ r. is_scalar r ≡ true) rs
    → length (flatten (map encode_rune rs)) ≤ fuel
    → runes_loop fuel (flatten (map encode_rune rs)) ≡ rs
unfolding runes_loop
runes_loop-flatten zero [] a h = refl
runes_loop-flatten (suc fuel) [] a h = refl
runes_loop-flatten zero (r ∷ rs) (x, a) h = absurd (
    omega
      (arith, length-append (encode_rune r) (flatten (map encode_rune rs)), encode_rune_width r, h))
runes_loop-flatten (suc fuel) (r ∷ rs) (x, a) h =
    let rest = flatten (map encode_rune rs) in
    let (c, t, e) = nonempty_cons (encode_rune r) (encode_rune_width r) in
    let whole : encode_rune r ++ rest ≡ c ∷ (t ++ rest) = ap (λ s. s ++ rest) e in
    let fits : length rest ≤ fuel =
      omega (arith, length-append (encode_rune r) rest, encode_rune_width r, h) in
    subst (λ s. runes_loop (suc fuel) s ≡ r ∷ rs) (sym whole)
      (runes_loop-encode_rune fuel r c (t ++ rest) rest x whole
        ∙ ap (◌∷◌ r) (runes_loop-flatten fuel rs a fits))

-- The runes of UTF-8 are those that were encoded.
pub runes-flatten :
    (rs : List ℕ) → All (λ r. is_scalar r ≡ true) rs → runes (flatten (map encode_rune rs)) ≡ rs
unfolding runes
runes-flatten rs a = runes_loop-flatten _ rs a (omega arith)
