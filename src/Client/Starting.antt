-- ===== src/Client/Starting.antt =====
-- internal/client/client.go: EnsureDaemon. Durations are in nanoseconds.
use headless_terminal.Base.{
  ℕ, zero, suc, ◌+◌, ◌*◌, ◌≤◌, ◌<◌, ◌≡◌, ◌↔◌, refl, Bool, true, false, ◌&&◌, Option, none, some,
  Result, ok, err, ltb, if◌then◌else◌, ◌-◌, ◌==◌, ap, arith, Bool-cases, inl, inr, ◌⊎◌,
}

-- Why EnsureDaemon fails.
pub data StartError : Type 0 where
  cannot_locate cannot_discard cannot_spawn unreachable : StartError

-- What it gets from elsewhere: whether os.Executable, the opening of the null device and the start of the process
-- succeed, whether each dial does, and the readings of the clock.
pub record Machine : Type 0 where
  pub locates : Bool
  pub discards : Bool
  pub spawns : Bool
  pub dials : ℕ → Bool
  pub clock : ℕ → ℕ

abbrev pub patience : ℕ
patience = 3000000000

abbrev pub pause : ℕ
pause = 25000000

-- The loop: `calls` readings of the clock were taken, and as many dials. `none` means that the fuel ran out.
poll : Machine → ℕ → ℕ → ℕ → Option (Result StartError (Unit {0}))
poll m deadline zero calls = none
poll m deadline (suc fuel) calls =
    let rest = poll m deadline fuel (calls + 1) in
    if ltb (m.clock calls) deadline
    then if m.dials calls then some (ok tt) else rest
    else some (err unreachable)

-- EnsureDaemon.
unfoldable pub ensure_daemon : Machine → ℕ → Option (Result StartError (Unit {0}))
unfolding poll
ensure_daemon m fuel =
    let waited = poll m (m.clock 0 + patience) fuel 1 in
    if m.dials 0
    then some (ok tt)
    else if m.locates
    then if m.discards
      then if m.spawns then waited else some (err cannot_spawn)
      else some (err cannot_discard)
    else some (err cannot_locate)

-- Each pass of the loop sleeps, for its time at least.
pub record IsPaced (m : Machine) : Type 0 where
  pub begins : m.clock 0 ≤ m.clock 1
  pub sleeps : (k : ℕ) → 1 ≤ k → m.clock k + pause ≤ m.clock (k + 1)

-- A dial of the loop, from the given one on, that succeeds before the deadline.
abbrev pub Answers : Machine → ℕ → Type 0
Answers m k = (j : ℕ) × (k ≤ j) × (m.clock j < m.clock 0 + patience) × (m.dials j ≡ true)

later_answer : (m : Machine) (k : ℕ) → Answers m (k + 1) → Answers m k
later_answer m k (j, le, early, up) = (j, omega arith, early, up)

-- The clock of a later pass is not behind.
later_clock : (m : Machine) (k d : ℕ) → IsPaced m → 1 ≤ k → m.clock k ≤ m.clock (d + k)
later_clock m k zero v h =
    let index : 0 + k ≡ k = omega arith in let same = ap m.clock index in omega arith
later_clock m k (suc d) v h =
    let before = later_clock m k d v h in
    let step = v.sleeps (d + k) (omega arith) in
    let index : d + k + 1 ≡ suc d + k = omega arith in let same = ap m.clock index in omega arith

no_later :
    (m : Machine) (k : ℕ) → IsPaced m → 1 ≤ k → m.clock 0 + patience ≤ m.clock k → ¬ Answers m k
no_later m k v h late (j, le, early, up) =
    let clock = later_clock m k (j - k) v h in
    let index : j - k + k ≡ j = omega arith in let same = ap m.clock index in omega arith

not_this : (m : Machine) (k : ℕ) → m.dials k ≡ false → Answers m k → Answers m (k + 1)
not_this m k down (j, le, early, up) = elim (Bool-cases (j == k)) [
  | inl same ↦ absurd (ground arith)
  | inr other ↦ (j, ground arith, early, up)
]

poll_lem :
    (m : Machine) (fuel k : ℕ)
    → IsPaced m
    → 1 ≤ k
    → 1 ≤ fuel
    → m.clock 0 + patience + pause ≤ m.clock k + fuel * pause
    → (r : Result StartError (Unit {0})) × (poll m (m.clock 0 + patience) fuel k ≡ some r)
      × ((r ≡ ok tt) ↔ Answers m k)
unfolding poll
poll_lem m zero k v h f c = absurd (omega arith)
poll_lem m (suc fuel) k v h f c = elim (Bool-cases (ltb (m.clock k) (m.clock 0 + patience))) [
  | inr late ↦
      let never = no_later m k v h (ground arith) in
      (err unreachable, rw late refl, (λ e. cc, λ a. absurd (never a)))
  | inl early ↦ elim (Bool-cases (m.dials k)) [
    | inl up ↦ (ok tt, rw (early, up) refl, (λ e. (k, omega arith, ground arith, up), λ a. refl))
    | inr down ↦
        let paced = v.sleeps k h in
        let before : m.clock k < m.clock 0 + patience = ground arith in
        let (r, e, iff) = poll_lem m fuel (k + 1) v (omega arith) (omega arith) (omega arith) in
        (r, rw (early, down) e, (λ q. later_answer m k (iff.0 q), λ a. iff.1 (not_this m k down a)))
  ]
]

-- The error if no process is started.
abbrev refusal : Machine → StartError
refusal m = if m.locates then if m.discards then cannot_spawn else cannot_discard else cannot_locate

not_started :
    (m : Machine) (fuel : ℕ)
    → m.dials 0 ≡ false
    → (m.locates && m.discards && m.spawns) ≡ false
    → ensure_daemon m fuel ≡ some (err (refusal m))
unfolding ensure_daemon
not_started m fuel down failed = ground arith

-- EnsureDaemon returns, whatever dials do, if it sleeps for its time on each pass of its loop: the loop tests the
-- clock 121 times at most, behind the reading that the deadline is made of. It returns no error exactly if its first
-- dial succeeds, or the daemon's process was started and a dial of the loop succeeds whose pass began within three
-- seconds.
pub ensure_daemon_lem :
    (m : Machine)
    → IsPaced m
    → (r : Result StartError (Unit {0})) × (ensure_daemon m 121 ≡ some r)
      × ((r ≡ ok tt)
          ↔ ((m.dials 0 ≡ true) ⊎ (((m.locates && m.discards && m.spawns) ≡ true) × Answers m 1)))
unfolding ensure_daemon
ensure_daemon_lem m v =
    let begins = v.begins in
    let (r, e, iff) = poll_lem m 121 1 v (omega arith) (omega arith) (omega arith) in
    elim (Bool-cases (m.dials 0)) [
      | inl up ↦ (ok tt, rw up refl, (λ q. inl up, λ q. refl))
      | inr down ↦ elim (Bool-cases (m.locates && m.discards && m.spawns)) [
        | inl started ↦ (
          r,
          ground arith,
          (λ q. inr (started, iff.0 q), λ a. elim a [ inl up ↦ cc | inr b ↦ iff.1 b.1 ]),
        )
        | inr failed ↦ (
          err (refusal m),
          not_started m 121 down failed,
          (λ q. cc, λ a. elim a [ inl up ↦ cc | inr b ↦ cc ]),
        )
      ]
    ]
