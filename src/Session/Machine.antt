-- ===== src/Session/Machine.antt =====
-- The goroutines of a session as steps: clients that subscribe, unsubscribe, receive and resize,
-- readLoop, waitLoop and the end of Close. A step that wants the lock waits while readLoop holds it.
use headless_terminal.Base.{ℕ, ◌≡◌, Bool, true, false, some, ok, List, [], Bytes, ℤ, update}
use headless_terminal.Session.Chan.{has_room, receive}
use headless_terminal.Session.{
  Emulator, Session, Reader, reading, fanning, ended, is_exited, has_sub, subscribe, unsubscribe,
  mark_exited, take_output, deliver, resize, tear_down,
}

-- The lock is free: readLoop holds it while it hands out a chunk.
abbrev pub is_free : Reader → Bool
is_free reading = true
is_free ended = true
is_free (fanning chunk left) = false

module _ (em : Emulator) where
  open em use {Term}

  -- The steps that leave the size and the terminal object alone.
  pub data Flow (s t : Session Term) : Type 0 where
    subscribes : is_free s.reader ≡ true → t ≡ (subscribe em s).0 → Flow s t
    unsubscribes : (id : ℕ) → is_free s.reader ≡ true → unsubscribe em id s ≡ some t → Flow s t
    receives :
        (id : ℕ) → t ≡ record s { chans = update s.chans id (receive (s.chans id)) } → Flow s t
    outputs : (chunk : Bytes) → s.reader ≡ reading → t ≡ take_output em chunk s → Flow s t
    delivers :
        (chunk : Bytes) (left : List ℕ) (id : ℕ)
        → s.reader ≡ fanning chunk left
        → has_sub id left ≡ true
        → has_room (s.chans id) ≡ true
        → deliver em chunk left id s ≡ some t
        → Flow s t
    unlocks :
        (chunk : Bytes) → s.reader ≡ fanning chunk [] → t ≡ record s { reader = reading } → Flow s t
    read_ends : s.reader ≡ reading → t ≡ record s { reader = ended } → Flow s t
    exits :
        (code : ℤ)
        → is_free s.reader ≡ true
        → is_exited s.state ≡ false
        → mark_exited em code s ≡ some t
        → Flow s t
    finishes : is_exited s.state ≡ true → t ≡ record s { done = true } → Flow s t

  pub data Step (s t : Session Term) : Type 0 where
    flows : Flow s t → Step s t
    resizes :
        (pty_takes : Bool) (cols rows : ℕ)
        → is_free s.reader ≡ true
        → resize em pty_takes cols rows s ≡ ok t
        → Step s t
    tears_down : is_exited s.state ≡ true → s.reader ≡ ended → t ≡ tear_down em s → Step s t

  pub data Reach (s : Session Term) : Session Term → Type 0 where
    here : Reach s s
    next : {t u : Session Term} → Reach s t → Step t u → Reach s u
