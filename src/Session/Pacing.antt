-- ===== src/Session/Pacing.antt =====
-- internal/session/session.go: SendPaced and escapeSeqEnd. What the loop does to the PTY and the
-- clock is a list of actions. An index into `b` is the part of `b` from there on.
pub mod Keystrokes
pub mod Trace
use headless_terminal.Base.{
  ℕ, zero, suc, ◌+◌, ◌≤◌, Bool, true, false, ◌&&◌, ◌||◌, Option, none, some, List, [], ◌∷◌, ◌++◌,
  Bytes, length, take, drop, ltb, leb, ◌==◌, within, if◌then◌else◌,
}
use headless_terminal.Utf8.{decode_rune}

-- The loop over a CSI sequence, on what follows `ESC [`: up to the final byte.
unfoldable pub csi_len : Bytes → ℕ
csi_len [] = 0
csi_len (c ∷ s) = if within 0x40 0x7e c then 1 else suc (csi_len s)

-- The loop over an OSC sequence, on what follows `ESC ]`: up to BEL, or ESC and a backslash.
unfoldable pub osc_len : Bytes → ℕ
osc_len [] = 0
osc_len (b ∷ []) = 1
osc_len (b ∷ c ∷ s) =
    if b == 0x07 then 1 else if b == 0x1b && c == b'\\' then 2 else suc (osc_len (c ∷ s))

ss3_len : Bytes → ℕ
ss3_len [] = 0
ss3_len (x ∷ s) = 1

-- escapeSeqEnd, on what follows the ESC: the length of the sequence, the ESC counted.
unfoldable pub escape_seq_end : Bytes → ℕ
unfolding ss3_len
escape_seq_end [] = 1
escape_seq_end (c ∷ s) =
    if c == b'['
    then 2 + csi_len s
    else if c == b'O'
    then 2 + ss3_len s
    else if c == b']'
    then 2 + osc_len s
    else 2

-- How far a round of SendPaced moves `i`.
unfoldable pub keystroke_len : ℕ → Bytes → ℕ
keystroke_len c s =
    if c == 0x1b
    then escape_seq_end s
    else let size = (decode_rune (c ∷ s)).1 in if ltb size 1 then 1 else size

pub data Action : Type 0 where
  write : Bytes → Action
  sleep : ℕ → Action

pub data SendError : Type 0 where
  exited write_failed : SendError

-- The gap in front of every keystroke but the first, and behind the last.
abbrev pub gap : Bool → ℕ → List Action
gap first delay = if first then [] else sleep delay ∷ []

-- The loop of SendPaced. `fails k` says that the PTY refuses the write number `k`.
unfoldable pub pace_loop : ℕ → (ℕ → Bool) → ℕ → ℕ → Bool → Bytes → List Action × Option SendError
pace_loop fuel fails delay k first [] = (gap first delay, none)
pace_loop zero fails delay k first (c ∷ s) = ([], none)
pace_loop (suc fuel) fails delay k first (c ∷ s) =
    let n = keystroke_len c s in
    let chunk = take n (c ∷ s) in
    let rest = pace_loop fuel fails delay (k + 1) false (drop n (c ∷ s)) in
    if fails k
    then (gap first delay ++ write chunk ∷ [], some write_failed)
    else (gap first delay ++ write chunk ∷ rest.0, rest.1)

-- Send, where the flag is `s.state == StateExited`.
unfoldable pub send : (ℕ → Bool) → Bool → Bytes → List Action × Option SendError
send fails is_exited b =
    if is_exited
    then ([], some exited)
    else (write b ∷ [], if fails 0 then some write_failed else none)

-- SendPaced. Each round takes a byte at least, so the length is fuel enough. A delay that is not
-- positive is 0 here.
unfoldable pub send_paced : (ℕ → Bool) → Bool → Bytes → ℕ → List Action × Option SendError
unfolding send
send_paced fails is_exited b delay =
    if leb delay 0 || leb (length b) 1
    then send fails is_exited b
    else if is_exited
    then ([], some exited)
    else pace_loop (length b) fails delay 0 true b

-- The keystrokes of a text: what the rounds write one after the other.
keystrokes_loop : ℕ → Bytes → List Bytes
keystrokes_loop fuel [] = []
keystrokes_loop zero (c ∷ s) = []
keystrokes_loop (suc fuel) (c ∷ s) =
    let n = keystroke_len c s in take n (c ∷ s) ∷ keystrokes_loop fuel (drop n (c ∷ s))

unfoldable pub keystrokes : Bytes → List Bytes
unfolding keystrokes_loop
keystrokes s = keystrokes_loop (length s) s
