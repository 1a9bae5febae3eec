-- ===== src/Cli/Numbers/RoundTrip.antt =====
-- cmd/ht/wait.go and cmd/ht/run.go: numbers that are printed and parsed, and their sizes.
use headless_terminal.Base.{
  ℕ, zero, suc, ◌+◌, ◌-◌, ◌*◌, ◌/◌, ◌%◌, ◌≤◌, ◌<◌, ◌≡◌, refl, sym, ap, ◌∙◌, subst, true, false,
  some, [], ◌∷◌, ◌++◌, Bytes, length, Result, ok, ◌>>=◌, >>=-eq-ok, ltb, ◌==◌, within, arith, All,
  All-append, append-nil, append_assoc, Bool-cases, Result-cases, Option-cases, inl, inr, ◌⊎◌,
}
use headless_terminal.Utf8.{decode_rune}
use headless_terminal.Cli.Numbers.{
  NumError, is_space, parse_digits, parse_uint16, decimal_fuel, decimal, trim_left, trim_right,
  trim_space, split_pair, PairError, or_wrong, bad_first, bad_second, parse_cursor, parse_size,
  comma,
}

parse_digits-digit :
    (n d : ℕ) (s : Bytes)
    → d < 10
    → n * 10 + d < 65536
    → parse_digits n ((0x30 + d) ∷ s) ≡ parse_digits (n * 10 + d) s
unfolding parse_digits
parse_digits-digit n d s h b =
    let is_digit : within 0x30 0x39 (0x30 + d) ≡ true = ground arith in
    let m : n * 10 + (0x30 + d - 0x30) ≡ n * 10 + d = omega arith in
    let fits : ltb 65535 (n * 10 + d) ≡ false = ground arith in rw (is_digit, m, fits) refl

-- The digits of a number read it back, and what is behind them goes on from it.
parse_digits-decimal_fuel :
    (fuel n : ℕ) (s : Bytes)
    → n ≤ fuel
    → n < 65536
    → parse_digits 0 (decimal_fuel fuel n ++ s) ≡ parse_digits n s
unfolding decimal_fuel
parse_digits-decimal_fuel zero n s h b =
    let none_left : n ≡ 0 = omega arith in
    rw none_left (parse_digits-digit 0 0 s (omega arith) (omega arith))
parse_digits-decimal_fuel (suc fuel) n s h b = elim (Bool-cases (ltb n 10)) [
  | inl one ↦
      let itself : 0 * 10 + n ≡ n = omega arith in
      rw one
        (parse_digits-digit 0 n s (ground arith) (ground arith) ∙ ap (λ m. parse_digits m s) itself)
  | inr more ↦
      let split = append_assoc (decimal_fuel fuel (n / 10)) ((0x30 + n % 10) ∷ []) s in
      let front =
        parse_digits-decimal_fuel fuel (n / 10) ((0x30 + n % 10) ∷ s) (ground arith)
          (omega arith) in
      let last = parse_digits-digit (n / 10) (n % 10) s (omega arith) (omega arith) in
      let whole : n / 10 * 10 + n % 10 ≡ n = omega arith in
      rw more (ap (parse_digits 0) split ∙ front ∙ last ∙ ap (λ m. parse_digits m s) whole)
]

abbrev pub IsDigit : ℕ → Type 0
IsDigit c = (0x30 ≤ c) × (c ≤ 0x39)

decimal_fuel_digits : (fuel n : ℕ) → All IsDigit (decimal_fuel fuel n)
unfolding decimal_fuel
decimal_fuel_digits zero n = ((omega arith, omega arith), tt)
decimal_fuel_digits (suc fuel) n = elim (Bool-cases (ltb n 10)) [
  | inl one ↦ rw one ((omega arith, ground arith), tt)
  | inr more ↦ rw more (
      All-append IsDigit (decimal_fuel fuel (n / 10)) _ (decimal_fuel_digits fuel (n / 10))
        ((omega arith, omega arith), tt))
]

decimal_fuel_cons : (fuel n : ℕ) → (c : ℕ) × (s : Bytes) × (decimal_fuel fuel n ≡ c ∷ s)
unfolding decimal_fuel
decimal_fuel_cons zero n = (0x30 + n % 10, [], refl)
decimal_fuel_cons (suc fuel) n = elim (Bool-cases (ltb n 10)) [
  | inl one ↦ (0x30 + n, [], rw one refl)
  | inr more ↦
      let (c, s, e) = decimal_fuel_cons fuel (n / 10) in
      (c, s ++ (0x30 + n % 10) ∷ [], rw (more, e) refl)
]

decode_rune-digit : (c : ℕ) (s : Bytes) → IsDigit c → decode_rune (c ∷ s) ≡ (c, 1)
unfolding decode_rune
decode_rune-digit c s (lo, hi) = let one : ltb c 0x80 ≡ true = ground arith in rw one refl

trim_right-digits : (fuel : ℕ) (s : Bytes) → All IsDigit s → trim_right fuel s ≡ s
unfolding trim_right
trim_right-digits zero s a = refl
trim_right-digits (suc fuel) [] a = refl
trim_right-digits (suc fuel) (c ∷ []) (d, a) =
    let solid : is_space c ≡ false = ground arith in
    rw (decode_rune-digit c [] d, trim_right-digits fuel [] a, decode_rune-digit c [] d, solid) refl
trim_right-digits (suc fuel) (c ∷ b ∷ s) (d, a) =
    rw
      (
        decode_rune-digit c (b ∷ s) d,
        trim_right-digits fuel (b ∷ s) a,
        decode_rune-digit c (b ∷ s) d,
      )
      refl

trim_left-digits : (fuel : ℕ) (s : Bytes) → All IsDigit s → trim_left fuel s ≡ s
unfolding trim_left
trim_left-digits zero s a = refl
trim_left-digits (suc fuel) [] a = refl
trim_left-digits (suc fuel) (c ∷ s) (d, a) =
    let solid : is_space c ≡ false = ground arith in rw (decode_rune-digit c s d, solid) refl

trim_space-digits : (s : Bytes) → All IsDigit s → trim_space s ≡ s
unfolding trim_space
trim_space-digits s a = rw (trim_left-digits (length s) s a) (trim_right-digits (length s) s a)

-- What %d prints is parsed, with the spaces trimmed or not.
pub parse_uint16-decimal : (n : ℕ) → n < 65536 → parse_uint16 (decimal n) ≡ ok n
unfolding parse_uint16 decimal parse_digits
parse_uint16-decimal n b =
    let (c, s, e) = decimal_fuel_cons n n in
    let whole : parse_digits 0 (decimal_fuel n n) ≡ ok n =
      ap (parse_digits 0) (sym (append-nil (decimal_fuel n n)))
      ∙ parse_digits-decimal_fuel n n [] (omega arith) b in
    rw e (subst (λ t. parse_digits 0 t ≡ ok n) e whole)

trim_space-decimal : (n : ℕ) → trim_space (decimal n) ≡ decimal n
unfolding decimal
trim_space-decimal n = trim_space-digits (decimal n) (decimal_fuel_digits n n)

split_pair-digits :
    (sep : ℕ) (a b : Bytes)
    → (0x39 < sep) ⊎ (sep < 0x30)
    → All IsDigit a
    → split_pair sep (a ++ sep ∷ b) ≡ some (a, b)
unfolding split_pair
split_pair-digits sep [] b n t = let same : (sep == sep) ≡ true = ground arith in rw same refl
split_pair-digits sep (c ∷ a) b n ((lo, hi), t) =
    let other : (c == sep) ≡ false = ground arith in rw (other, split_pair-digits sep a b n t) refl

pub decimal_digits : (n : ℕ) → All IsDigit (decimal n)
unfolding decimal
decimal_digits n = decimal_fuel_digits n n

-- A row and a column below 2 ^ 16 that are printed with a comma between them are parsed.
pub parse_cursor-decimal :
    (row col : ℕ)
    → row < 65536
    → col < 65536
    → parse_cursor (decimal row ++ comma ∷ decimal col) ≡ ok (row, col)
unfolding parse_cursor or_wrong
parse_cursor-decimal row col r c =
    rw
      (
        parse_cursor,
        split_pair-digits comma (decimal row) (decimal col) (inr (omega arith))
            (decimal_digits row),
        trim_space-decimal row,
        trim_space-decimal col,
        parse_uint16-decimal row r,
        parse_uint16-decimal col c,
      )
      refl

parse_digits-fits : (n : ℕ) (s : Bytes) (m : ℕ) → n < 65536 → parse_digits n s ≡ ok m → m < 65536
unfolding parse_digits
parse_digits-fits n [] m b e = ground arith
parse_digits-fits n (c ∷ s) m b e = elim (Bool-cases (within 0x30 0x39 c)) [
  | inr other ↦ absurd (ground arith)
  | inl digit ↦ elim (Bool-cases (ltb 65535 (n * 10 + (c - 0x30)))) [
    | inl large ↦ absurd (ground arith)
    | inr small ↦
        let rest : parse_digits (n * 10 + (c - 0x30)) s ≡ ok m = rw (digit, small) at e in
        parse_digits-fits (n * 10 + (c - 0x30)) s m (ground arith) rest
  ]
]

parse_uint16-fits : (s : Bytes) (n : ℕ) → parse_uint16 s ≡ ok n → n < 65536
unfolding parse_uint16
parse_uint16-fits [] n e = cc
parse_uint16-fits (c ∷ s) n e = parse_digits-fits 0 (c ∷ s) n (omega arith) e

or_wrong-fits :
    (wrap : NumError → PairError) (s : Bytes) (n : ℕ)
    → or_wrong wrap (parse_uint16 s) ≡ ok n
    → n < 65536
unfolding or_wrong
or_wrong-fits wrap s n e = elim (Result-cases (parse_uint16 s)) [
  | inl (m, parsed) ↦ parse_uint16-fits s n (ground arith)
  | inr (wrong, failed) ↦ absurd (ground arith)
]

abbrev both : ℕ → ℕ → Result PairError (ℕ × ℕ)
both m n = ok (m, n)

-- Two numbers that are parsed one after the other fit.
pair_fits :
    (a b : Bytes) (m n : ℕ)
    → (or_wrong bad_first (parse_uint16 a) >>= λ x. or_wrong bad_second (parse_uint16 b) >>= both x)
      ≡ ok (m, n)
    → (m < 65536) × (n < 65536)
pair_fits a b m n e =
    let (x, first, more) = >>=-eq-ok (or_wrong bad_first (parse_uint16 a)) _ e in
    let (y, second, last) = >>=-eq-ok (or_wrong bad_second (parse_uint16 b)) _ more in
    let left : x ≡ m = ground arith in
    let right : y ≡ n = ground arith in
    (
      subst (λ z. z < 65536) left (or_wrong-fits bad_first a x first),
      subst (λ z. z < 65536) right (or_wrong-fits bad_second b y second),
    )

-- What parseSize and parseCursor give for a text fits 16 bits: no larger number is cut down to them.
pub pair_bounds :
    (s : Bytes) (m n : ℕ)
    → (parse_size s ≡ ok (m, n)) ⊎ (parse_cursor s ≡ ok (m, n))
    → (m < 65536) × (n < 65536)
unfolding parse_size parse_cursor
pair_bounds [] m n (inl e) = (ground arith, ground arith)
pair_bounds (c ∷ s) m n (inl e) = elim (Option-cases (split_pair 0x78 (c ∷ s))) [
  | inl alone ↦ absurd (ground arith)
  | inr ((a, b), two) ↦ pair_fits a b m n (rw (parse_size, two) at e)
]
pair_bounds s m n (inr e) = elim (Option-cases (split_pair comma s)) [
  | inl alone ↦ absurd (ground arith)
  | inr ((a, b), two) ↦ pair_fits (trim_space a) (trim_space b) m n (rw (parse_cursor, two) at e)
]
