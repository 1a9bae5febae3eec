-- ===== src/Cli/Flags/Durations.antt =====
-- cmd/ht and internal/daemon/daemon.go: a duration goes over the wire in milliseconds.
use headless_terminal.Base.{
  ℕ, zero, suc, ◌+◌, ◌-◌, ◌*◌, ◌/◌, ◌%◌, ◌^◌, ◌≤◌, ◌<◌, ◌≡◌, refl, ltb, arith, ℤ, pos, negsuc, true,
  false,
}
use headless_terminal.Daemon.Requests.{milliseconds}
use headless_terminal.Cli.Flags.{to_ms, negate}

-- A time.Duration.
abbrev pub IsInt64 : ℤ → Type 0
IsInt64 (pos n) = n < 2 ^ 63
IsInt64 (negsuc n) = n < 2 ^ 63

-- The duration without its part below a millisecond.
abbrev pub whole_ms : ℤ → ℤ
whole_ms (pos n) = pos (n / 1000000 * 1000000)
whole_ms (negsuc n) = negate ((n + 1) / 1000000 * 1000000)

milliseconds-pos : (k : ℕ) → k * 1000000 < 2 ^ 63 → milliseconds (pos k) ≡ pos (k * 1000000)
unfolding milliseconds
milliseconds-pos k b =
    let kept : k * 1000000 % 2 ^ 64 ≡ k * 1000000 = omega arith in
    let small : ltb (k * 1000000) (2 ^ 63) ≡ true = ground arith in rw (kept, small) refl

milliseconds-negate :
    (k : ℕ) → k * 1000000 ≤ 2 ^ 63 → milliseconds (negate k) ≡ negate (k * 1000000)
unfolding milliseconds
milliseconds-negate zero b = refl
milliseconds-negate (suc k) b =
    let j = k * 1000000 + 999999 in
    let size : suc k * 1000000 ≡ suc j = omega arith in
    let bits : (2 ^ 64 - (k + 1) * 1000000 % 2 ^ 64) % 2 ^ 64 ≡ 2 ^ 64 - 1 - j = omega arith in
    let large : ltb (2 ^ 64 - 1 - j) (2 ^ 63) ≡ false = ground arith in
    let back : 2 ^ 64 - 1 - (2 ^ 64 - 1 - j) ≡ j = omega arith in rw (size, bits, large, back) refl

-- A duration that a command cuts to milliseconds and the daemon multiplies back is the same duration, less
-- its part below a millisecond, and nothing wraps.
pub milliseconds-to_ms : (d : ℤ) → IsInt64 d → milliseconds (to_ms d) ≡ whole_ms d
unfolding to_ms
milliseconds-to_ms (pos n) b = milliseconds-pos (n / 1000000) (omega arith)
milliseconds-to_ms (negsuc n) b = milliseconds-negate ((n + 1) / 1000000) (omega arith)
