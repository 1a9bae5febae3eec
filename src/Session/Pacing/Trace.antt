-- ===== src/Session/Pacing/Trace.antt =====
-- internal/session/session.go: what SendPaced writes and how it waits.
use headless_terminal.Base.{
  ℕ, zero, suc, ◌+◌, ◌≤◌, ◌≡◌, refl, true, false, Bool, ◌||◌, inl, inr, some, none, List, [], ◌∷◌,
  ◌++◌, append_assoc, append-nil, Bytes, length, length-drop, drop, take-append-drop, arith, leb,
  if◌then◌else◌, Bool-cases,
}
use headless_terminal.Session.Pacing.{
  keystroke_len, Action, write, sleep, exited, gap, pace_loop, send, send_paced, keystrokes,
  keystrokes_loop,
}
use headless_terminal.Session.Pacing.Keystrokes.{keystroke_len_bounds}

-- The bytes that reach the PTY, a refused write counted.
abbrev pub written : List Action → Bytes
written [] = []
written (write b ∷ acts) = b ++ written acts
written (sleep d ∷ acts) = written acts

-- Each keystroke, and a gap behind it.
abbrev pub spaced : ℕ → List Bytes → List Action
spaced delay [] = []
spaced delay (k ∷ ks) = write k ∷ sleep delay ∷ spaced delay ks

written-gap :
    (first : Bool) (delay : ℕ) (acts : List Action)
    → written (gap first delay ++ acts) ≡ written acts
written-gap true delay acts = refl
written-gap false delay acts = refl

module _ (fails : ℕ → Bool) (delay : ℕ) where
  pace_loop-written :
      (f k : ℕ) (first : Bool) (s : Bytes)
      → length s ≤ f
      → (rest : Bytes) × (written (pace_loop f fails delay k first s).0 ++ rest ≡ s)
        × ((pace_loop f fails delay k first s).1 ≡ none → rest ≡ [])
  unfolding pace_loop
  pace_loop-written f k true [] h = ([], refl, λ _. refl)
  pace_loop-written f k false [] h = ([], refl, λ _. refl)
  pace_loop-written zero k first (c ∷ s) h = elim h [ ]
  pace_loop-written (suc f) k first (c ∷ s) h =
      let n = keystroke_len c s in
      let fits = keystroke_len_bounds c s in
      let left = length-drop n (c ∷ s) in
      let (rest, all, done) =
        pace_loop-written f (k + 1) false (drop n (c ∷ s)) (omega (arith, fits, left)) in
      elim (Bool-cases (fails k)) [
        | inl bad ↦ (
          drop n (c ∷ s),
          rw (bad, written-gap first delay, append_assoc) (take-append-drop n (c ∷ s)),
          rw bad (λ e. cc),
        )
        | inr good ↦ (
          rest,
          rw (good, written-gap first delay, append_assoc, all) (take-append-drop n (c ∷ s)),
          rw good done,
        )
      ]

  pace_loop-spaced :
      (f k : ℕ) (s : Bytes)
      → length s ≤ f
      → ((i : ℕ) → fails i ≡ false)
      → pace_loop f fails delay k false s ≡ (sleep delay ∷ spaced delay (keystrokes_loop f s), none)
  unfolding pace_loop keystrokes_loop
  pace_loop-spaced f k [] h good = refl
  pace_loop-spaced zero k (c ∷ s) h good = elim h [ ]
  pace_loop-spaced (suc f) k (c ∷ s) h good =
      let n = keystroke_len c s in
      let fits = keystroke_len_bounds c s in
      let left = length-drop n (c ∷ s) in
      rw (good k, pace_loop-spaced f (k + 1) (drop n (c ∷ s)) (omega (arith, fits, left)) good)

  pace_loop_start :
      (b : Bytes)
      → 1 ≤ length b
      → ((i : ℕ) → fails i ≡ false)
      → pace_loop (length b) fails delay 0 true b ≡ (spaced delay (keystrokes b), none)
  unfolding pace_loop keystrokes keystrokes_loop
  pace_loop_start [] h good = elim h [ ]
  pace_loop_start (c ∷ s) h good =
      let n = keystroke_len c s in
      let fits = keystroke_len_bounds c s in
      let left = length-drop n (c ∷ s) in
      rw (good 0, pace_loop-spaced (length s) 1 (drop n (c ∷ s)) (omega (arith, fits, left)) good)

send-written :
    (fails : ℕ → Bool) (is_exited : Bool) (b : Bytes)
    → (rest : Bytes) × (written (send fails is_exited b).0 ++ rest ≡ b)
      × ((send fails is_exited b).1 ≡ none → rest ≡ [])
unfolding send
send-written fails true b = (b, refl, λ e. cc)
send-written fails false b = ([], simp append-nil, λ e. refl)

loop_written :
    (fails : ℕ → Bool) (is_exited : Bool) (b : Bytes) (delay : ℕ)
    → (rest : Bytes) × (written
            (if is_exited then ([], some exited) else pace_loop (length b) fails delay 0 true b).0
          ++ rest
        ≡ b)
      × ((if is_exited then ([], some exited) else pace_loop (length b) fails delay 0 true b).1
            ≡ none
          → rest ≡ [])
loop_written fails true b delay = (b, refl, λ e. cc)
loop_written fails false b delay = pace_loop-written fails delay (length b) 0 true b (omega arith)

-- What SendPaced writes is a front part of the text, in order, and all of it unless it reports an
-- error: no byte is lost, doubled or moved, whatever writes the PTY refuses.
pub send_paced-written :
    (fails : ℕ → Bool) (is_exited : Bool) (b : Bytes) (delay : ℕ)
    → (rest : Bytes) × (written (send_paced fails is_exited b delay).0 ++ rest ≡ b)
      × ((send_paced fails is_exited b delay).1 ≡ none → rest ≡ [])
unfolding send_paced
send_paced-written fails is_exited b delay = elim (Bool-cases (leb delay 0 || leb (length b) 1)) [
  | inl plain ↦ rw plain (send-written fails is_exited b)
  | inr paced ↦ rw paced (loop_written fails is_exited b delay)
]

-- A paced send of two bytes or more, with a positive gap, to a live session whose PTY takes every
-- write is the keystrokes of the text one after the other, each with a gap behind it, the last one
-- too.
pub send_paced-spaced :
    (fails : ℕ → Bool) (b : Bytes) (delay : ℕ)
    → ((i : ℕ) → fails i ≡ false)
    → 1 ≤ delay
    → 2 ≤ length b
    → send_paced fails false b delay ≡ (spaced delay (keystrokes b), none)
unfolding send_paced
send_paced-spaced fails b delay good d l =
    let paced : (leb delay 0 || leb (length b) 1) ≡ false = ground arith in
    rw paced (pace_loop_start fails delay b (omega arith) good)
