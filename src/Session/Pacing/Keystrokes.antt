-- ===== src/Session/Pacing/Keystrokes.antt =====
-- How SendPaced cuts a text into keystrokes.
use headless_terminal.Base.{
  ℕ, zero, suc, ◌≤◌, ◌≡◌, refl, ap, ◌∙◌, ◌≢◌, true, false, inl, inr, List, [], ◌∷◌, ◌++◌, Bytes,
  length, length-drop, take, drop, take-append, drop-append, arith, ltb, ◌==◌, within,
  if◌then◌else◌, Bool-cases, leb, Bool, some, not, bytes_eq, bytes_eq_iff, ◌||◌, ◌&&◌,
}
use headless_terminal.Utf8.{decode_rune, encode_rune, is_scalar}
use headless_terminal.Utf8.RoundTrip.{decode_rune-encode_rune, decode_rune_width}
use headless_terminal.Utf8.Ascii.{decode_rune_ascii}
use headless_terminal.Keys.Named.{lookup, named, shifted}
use headless_terminal.Session.Pacing.{
  csi_len, osc_len, escape_seq_end, keystroke_len, keystrokes, keystrokes_loop,
}

csi_len-le : (s : Bytes) → csi_len s ≤ length s
unfolding csi_len
csi_len-le [] = omega arith
csi_len-le (c ∷ s) = ground (arith, csi_len-le s)

osc_len-le : (s : Bytes) → osc_len s ≤ length s
unfolding osc_len
osc_len-le [] = omega arith
osc_len-le (b ∷ []) = omega arith
osc_len-le (b ∷ c ∷ s) = ground (arith, osc_len-le (c ∷ s))

escape_seq_end_bounds : (s : Bytes) → (1 ≤ escape_seq_end s) × (escape_seq_end s ≤ suc (length s))
unfolding escape_seq_end
escape_seq_end_bounds [] = omega arith
escape_seq_end_bounds (c ∷ []) = ground (arith, csi_len-le [], osc_len-le [])
escape_seq_end_bounds (c ∷ d ∷ s) = ground (arith, csi_len-le (d ∷ s), osc_len-le (d ∷ s))

-- A keystroke has a byte at least, and ends within the text.
pub keystroke_len_bounds :
    (c : ℕ) (s : Bytes) → (1 ≤ keystroke_len c s) × (keystroke_len c s ≤ suc (length s))
unfolding keystroke_len
keystroke_len_bounds c s = ground (arith, escape_seq_end_bounds s, decode_rune_width c s)

keystrokes_loop_fuel :
    (f g : ℕ) (s : Bytes) → length s ≤ f → length s ≤ g → keystrokes_loop f s ≡ keystrokes_loop g s
unfolding keystrokes_loop
keystrokes_loop_fuel f g [] hf hg = refl
keystrokes_loop_fuel zero g (c ∷ s) hf hg = elim hf [ ]
keystrokes_loop_fuel (suc f) zero (c ∷ s) hf hg = elim hg [ ]
keystrokes_loop_fuel (suc f) (suc g) (c ∷ s) hf hg =
    let fits = keystroke_len_bounds c s in
    let n = keystroke_len c s in
    let left = length-drop n (c ∷ s) in
    ap (◌∷◌ (take n (c ∷ s))) (
      keystrokes_loop_fuel f g (drop n (c ∷ s)) (omega (arith, fits, left))
        (omega (arith, fits, left)))

-- The first keystroke, and those of the rest.
pub keystrokes-cons :
    (c : ℕ) (s : Bytes)
    → keystrokes (c ∷ s)
      ≡ take (keystroke_len c s) (c ∷ s) ∷ keystrokes (drop (keystroke_len c s) (c ∷ s))
unfolding keystrokes keystrokes_loop
keystrokes-cons c s =
    let fits = keystroke_len_bounds c s in
    let n = keystroke_len c s in
    let left = length-drop n (c ∷ s) in
    ap (◌∷◌ (take n (c ∷ s))) (
      keystrokes_loop_fuel (length s) (length (drop n (c ∷ s))) (drop n (c ∷ s))
        (omega (arith, fits, left)) (omega arith))

-- A text whose first bytes are one keystroke.
keystrokes_first :
    (c : ℕ) (s rest : Bytes)
    → keystroke_len c (s ++ rest) ≡ length (c ∷ s)
    → keystrokes (c ∷ (s ++ rest)) ≡ (c ∷ s) ∷ keystrokes rest
keystrokes_first c s rest h =
    keystrokes-cons c (s ++ rest) ∙ rw (h, take-append s rest, drop-append s rest)

keystroke_len_rune :
    (c : ℕ) (s : Bytes)
    → (c == 0x1b) ≡ false
    → 1 ≤ (decode_rune (c ∷ s)).1
    → keystroke_len c s ≡ (decode_rune (c ∷ s)).1
unfolding keystroke_len
keystroke_len_rune c s h p = ground arith

-- The first byte of an encoding, and the others.
lead : ℕ → ℕ
unfolding encode_rune
lead r = elim (encode_rune r) [ [] ↦ 0 | a ∷ s ↦ a ]

trail : ℕ → Bytes
unfolding encode_rune
trail r = elim (encode_rune r) [ [] ↦ [] | a ∷ s ↦ s ]

encode_rune-cons :
    (r : ℕ)
    → (a : ℕ) × (s : Bytes) × (encode_rune r ≡ a ∷ s)
      × ((r == 0x1b) ≡ false → (a == 0x1b) ≡ false)
      × (0x80 ≤ r → (0xc0 ≤ a) × (s ≢ []))
unfolding encode_rune lead trail
encode_rune-cons r = (lead r, trail r, ground arith, ground arith, ground arith)

-- Where the bytes that are left begin with the encoding of a rune other than ESC, that encoding is
-- the next keystroke, whatever follows it.
pub keystrokes-encode_rune :
    (r : ℕ) (rest : Bytes)
    → is_scalar r ≡ true
    → (r == 0x1b) ≡ false
    → keystrokes (encode_rune r ++ rest) ≡ encode_rune r ∷ keystrokes rest
keystrokes-encode_rune r rest h e =
    let (a, s, q, ne, _) = encode_rune-cons r in
    let width = decode_rune-encode_rune r rest h in
    let two = keystroke_len_rune a (s ++ rest) (ne e) (decode_rune_width a (s ++ rest)).0 in
    rw q (keystrokes_first a s rest (two ∙ ap (λ x. x.1) (rw q at width)))

-- What follows `ESC [` in a CSI sequence: parameters, and one final byte at the end.
abbrev is_csi_body : Bytes → Bool
is_csi_body [] = false
is_csi_body (c ∷ []) = within 0x40 0x7e c
is_csi_body (c ∷ d ∷ s) = not (within 0x40 0x7e c) && is_csi_body (d ∷ s)

abbrev is_sequence : Bytes → Bool
is_sequence [] = false
is_sequence (c ∷ []) = false
is_sequence (c ∷ d ∷ s) = if c == b'[' then is_csi_body (d ∷ s) else c == b'O' && leb (length s) 0

-- A whole CSI or SS3 sequence, or one ASCII byte other than ESC.
abbrev pub is_closed : Bytes → Bool
is_closed [] = false
is_closed (c ∷ s) = if c == 0x1b then is_sequence s else ltb c 0x80 && leb (length s) 0

csi_len_closed : (s rest : Bytes) → is_csi_body s ≡ true → csi_len (s ++ rest) ≡ length s
unfolding csi_len
csi_len_closed [] rest h = cc
csi_len_closed (c ∷ []) rest h = ground arith
csi_len_closed (c ∷ d ∷ s) rest h = ground (arith, csi_len_closed (d ∷ s) rest)

escape_seq_end_closed :
    (s rest : Bytes) → is_sequence s ≡ true → escape_seq_end (s ++ rest) ≡ suc (length s)
unfolding escape_seq_end
escape_seq_end_closed [] rest h = cc
escape_seq_end_closed (c ∷ []) rest h = cc
escape_seq_end_closed (c ∷ d ∷ []) rest h = ground (arith, csi_len_closed (d ∷ []) rest)
escape_seq_end_closed (c ∷ d ∷ e ∷ s) rest h = ground (arith, csi_len_closed (d ∷ e ∷ s) rest)

keystroke_len_closed :
    (c : ℕ) (s rest : Bytes)
    → is_closed (c ∷ s) ≡ true
    → keystroke_len c (s ++ rest) ≡ length (c ∷ s)
unfolding keystroke_len
keystroke_len_closed c s rest h =
    ground (arith, escape_seq_end_closed s rest, decode_rune_ascii c (s ++ rest))

-- Whole sequences and ASCII bytes are keystrokes, whatever follows: none is split or joined.
keystrokes_closed :
    (seq rest : Bytes) → is_closed seq ≡ true → keystrokes (seq ++ rest) ≡ seq ∷ keystrokes rest
keystrokes_closed [] rest h = cc
keystrokes_closed (c ∷ s) rest h = keystrokes_first c s rest (keystroke_len_closed c s rest h)

abbrev all_values : (Bytes → Bool) → List (Bytes × Bytes) → Bool
all_values p [] = true
all_values p (e ∷ m) = p e.1 && all_values p m

lookup-all_values :
    (p : Bytes → Bool) (k : Bytes) (m : List (Bytes × Bytes)) {v : Bytes}
    → all_values p m ≡ true
    → lookup k m ≡ some v
    → p v ≡ true
unfolding lookup
lookup-all_values p k [] h e = cc
lookup-all_values p k (x ∷ m) h e = elim (Bool-cases (bytes_eq x.0 k)) [
  | inl hit ↦ ground arith
  | inr miss ↦ lookup-all_values p k m (ground arith) (ground arith)
]

abbrev is_esc_or_closed : Bytes → Bool
is_esc_or_closed v = bytes_eq v (0x1b ∷ []) || is_closed v

table_closed : all_values is_esc_or_closed (named ++ shifted) ≡ true
unfolding bytes_eq
table_closed = refl

-- What a name of the key tables stands for is one keystroke, whatever follows, unless it is a bare
-- ESC.
pub keystrokes_named :
    (name rest : Bytes) {seq : Bytes}
    → lookup name (named ++ shifted) ≡ some seq
    → seq ≢ 0x1b ∷ []
    → keystrokes (seq ++ rest) ≡ seq ∷ keystrokes rest
keystrokes_named name rest {seq} e ne = keystrokes_closed seq rest (
    ground (
      arith,
      bytes_eq_iff seq (0x1b ∷ []),
      lookup-all_values is_esc_or_closed name (named ++ shifted) table_closed e,
    ))

keystroke_len_escaped : (a : ℕ) (s : Bytes) → 0xc0 ≤ a → keystroke_len 0x1b (a ∷ s) ≡ 2
unfolding keystroke_len escape_seq_end
keystroke_len_escaped a s h = ground arith

-- An ESC takes the byte behind it into its keystroke, also where that begins a rune of several
-- bytes: ESC and the first byte are written together, and the rest of the rune on its own.
pub keystrokes_escaped_rune :
    (r : ℕ) (rest : Bytes)
    → is_scalar r ≡ true
    → 0x80 ≤ r
    → (a : ℕ) × (s : Bytes) × (encode_rune r ≡ a ∷ s)
      × (s ≢ [])
      × (keystrokes (0x1b ∷ (encode_rune r ++ rest)) ≡ (0x1b ∷ a ∷ []) ∷ keystrokes (s ++ rest))
keystrokes_escaped_rune r rest h big =
    let (a, s, q, _, beyond) = encode_rune-cons r in
    let pair : keystroke_len 0x1b (a ∷ (s ++ rest)) ≡ 2 =
      keystroke_len_escaped a (s ++ rest) (beyond big).0 in
    (a, s, q, (beyond big).1, rw q (keystrokes_first 0x1b (a ∷ []) (s ++ rest) pair))
