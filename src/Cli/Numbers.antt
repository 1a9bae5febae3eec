-- ===== src/Cli/Numbers.antt =====
-- cmd/ht/wait.go and cmd/ht/run.go: parseCursor and parseSize, and what they use of `strconv`,
-- `strings` and `fmt`.
pub mod RoundTrip
pub mod Digits
use headless_terminal.Base.{
  ℕ, zero, suc, ◌+◌, ◌-◌, ◌*◌, ◌/◌, ◌%◌, Bool, true, false, ◌&&◌, ◌||◌, Option, none, some, List,
  [], ◌∷◌, ◌++◌, Bytes, length, take, drop, Result, ok, err, ◌>>=◌, ltb, leb, ◌==◌, within,
  if◌then◌else◌,
}
use headless_terminal.Utf8.{decode_rune}

-- Why strconv.ParseUint fails.
pub data NumError : Type 0 where
  bad_syntax out_of_range : NumError

parse_digits : ℕ → Bytes → Result NumError ℕ
parse_digits n [] = ok n
parse_digits n (c ∷ s) =
    let m = n * 10 + (c - 0x30) in
    let rest = parse_digits m s in
    if within 0x30 0x39 c then if ltb 65535 m then err out_of_range else rest else err bad_syntax

-- strconv.ParseUint(s, 10, 16).
unfoldable pub parse_uint16 : Bytes → Result NumError ℕ
unfolding parse_digits
parse_uint16 [] = err bad_syntax
parse_uint16 (c ∷ s) = parse_digits 0 (c ∷ s)

-- The verb %d on an unsigned integer. The fuel is the number, which is at least its digits but one.
decimal_fuel : ℕ → ℕ → Bytes
decimal_fuel zero n = (0x30 + n % 10) ∷ []
decimal_fuel (suc fuel) n =
    let front = decimal_fuel fuel (n / 10) in
    if ltb n 10 then (0x30 + n) ∷ [] else front ++ (0x30 + n % 10) ∷ []

unfoldable pub decimal : ℕ → Bytes
unfolding decimal_fuel
decimal n = decimal_fuel n n

-- unicode.IsSpace.
abbrev pub is_space : ℕ → Bool
is_space r =
    within 0x09 0x0d r
    || r == 0x20
    || r == 0x85
    || r == 0xa0
    || r == 0x1680
    || within 0x2000 0x200a r
    || within 0x2028 0x2029 r
    || r == 0x202f
    || r == 0x205f
    || r == 0x3000

-- The spaces at the front.
trim_left : ℕ → Bytes → Bytes
trim_left zero s = s
trim_left (suc fuel) [] = []
trim_left (suc fuel) (c ∷ s) =
    let (r, width) = decode_rune (c ∷ s) in
    let rest = trim_left fuel (drop width (c ∷ s)) in if is_space r then rest else c ∷ s

-- The spaces at the end. What is kept behind a space keeps the space.
trim_right : ℕ → Bytes → Bytes
trim_right zero s = s
trim_right (suc fuel) [] = []
trim_right (suc fuel) (c ∷ s) =
    let (r, width) = decode_rune (c ∷ s) in
    let rest = trim_right fuel (drop width (c ∷ s)) in
    elim rest [
      | [] ↦ if is_space r then [] else take width (c ∷ s)
      | d ∷ t ↦ take width (c ∷ s) ++ d ∷ t
    ]

-- strings.TrimSpace. Each rune takes a byte at least, so the length is fuel enough.
unfoldable pub trim_space : Bytes → Bytes
unfolding trim_left trim_right
trim_space s = let t = trim_left (length s) s in trim_right (length t) t

-- strings.SplitN(s, sep, 2) at a separator of one byte: the parts around the first one, if there is one.
unfoldable pub split_pair : ℕ → Bytes → Option (Bytes × Bytes)
split_pair sep [] = none
split_pair sep (c ∷ s) =
    let rest = split_pair sep s in
    if c == sep then some ([], s) else elim rest [ none ↦ none | some (a, b) ↦ some (c ∷ a, b) ]

-- The errors of parseCursor and parseSize: no separator, or the first or the second number.
pub data PairError : Type 0 where
  no_separator : PairError
  bad_first bad_second : NumError → PairError

unfoldable pub or_wrong : (NumError → PairError) → Result NumError ℕ → Result PairError ℕ
or_wrong wrap (ok n) = ok n
or_wrong wrap (err e) = err (wrap e)

abbrev pub comma : ℕ
comma = 0x2c

-- parseCursor.
unfoldable pub parse_cursor : Bytes → Result PairError (ℕ × ℕ)
unfolding or_wrong
parse_cursor s = elim (split_pair comma s) [
  | none ↦ err no_separator
  | some (a, b) ↦ do
    row ← or_wrong bad_first (parse_uint16 (trim_space a))
    col ← or_wrong bad_second (parse_uint16 (trim_space b))
    ok (row, col)
]

-- parseSize.
unfoldable pub parse_size : Bytes → Result PairError (ℕ × ℕ)
unfolding or_wrong
parse_size [] = ok (0, 0)
parse_size (c ∷ s) = elim (split_pair 0x78 (c ∷ s)) [
  | none ↦ err no_separator
  | some (a, b) ↦ do
    cols ← or_wrong bad_first (parse_uint16 a)
    rows ← or_wrong bad_second (parse_uint16 b)
    ok (cols, rows)
]
