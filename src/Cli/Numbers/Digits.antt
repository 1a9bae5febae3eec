-- ===== src/Cli/Numbers/Digits.antt =====
-- cmd/ht/wait.go and internal/daemon/daemon.go: the digits of the numbers that are printed.
use headless_terminal.Base.{
  ℕ, zero, suc, ◌+◌, ◌-◌, ◌*◌, ◌/◌, ◌%◌, ◌≤◌, ◌≡◌, refl, ap, ◌∙◌, [], ◌∷◌, ◌++◌, Bytes, ltb, arith,
  append_assoc, Bool-cases, inl, inr,
}
use headless_terminal.Cli.Numbers.{decimal_fuel, decimal}

-- The number that digits stand for, behind those of another. There is no bound to it.
unfoldable pub value : ℕ → Bytes → ℕ
value n [] = n
value n (c ∷ s) = value (n * 10 + (c - 0x30)) s

value-decimal_fuel :
    (fuel n : ℕ) (s : Bytes) → n ≤ fuel → value 0 (decimal_fuel fuel n ++ s) ≡ value n s
unfolding decimal_fuel value
value-decimal_fuel zero n s h = let none_left : n ≡ 0 = omega arith in rw none_left refl
value-decimal_fuel (suc fuel) n s h = elim (Bool-cases (ltb n 10)) [
  | inl one ↦
      let itself : 0 * 10 + (0x30 + n - 0x30) ≡ n = omega arith in
      rw one (ap (λ m. value m s) itself)
  | inr more ↦
      let split = append_assoc (decimal_fuel fuel (n / 10)) ((0x30 + n % 10) ∷ []) s in
      let front = value-decimal_fuel fuel (n / 10) ((0x30 + n % 10) ∷ s) (ground arith) in
      let whole : n / 10 * 10 + (0x30 + n % 10 - 0x30) ≡ n = omega arith in
      rw more (ap (value 0) split ∙ front ∙ ap (λ m. value m s) whole)
]

-- The digits of a number stand for it.
pub value-decimal : (n : ℕ) (s : Bytes) → value 0 (decimal n ++ s) ≡ value n s
unfolding decimal
value-decimal n s = value-decimal_fuel n n s (omega arith)
