-- ===== src/Session/Deadlock.antt =====
-- internal/session/session.go: readLoop's send with the lock held. A client that wants the lock
-- while its own channel is full is `wait.Wait` in its call of `s.View`, and any client in its
-- unsubscribe.
use headless_terminal.Base.{
  ℕ, ◌≡◌, ◌≢◌, refl, sym, ap, ◌∙◌, true, false, some, List, [], ◌∷◌, Bytes, ◌==◌, Bool-cases,
  update, arith, subst, inl, inr,
}
use headless_terminal.Session.Chan.{push, receive, has_room}
use headless_terminal.Session.Subs.{Distinct, has_sub-delete_sub, delete_sub-Distinct}
use headless_terminal.Session.Machine.{
  Step, subscribes, unsubscribes, receives, outputs, delivers, unlocks, read_ends, exits, finishes,
  flows, resizes, tears_down, is_free,
}
use headless_terminal.Session.{
  Emulator, Session, Reader, reading, fanning, ended, has_sub, delete_sub, deliver,
}

-- readLoop has this chunk left for the subscriber, whose channel is full.
abbrev pub Waits : ℕ → Reader → Type 0
Waits id reading = ⊥
Waits id ended = ⊥
Waits id (fanning chunk left) = Distinct left × (has_sub id left ≡ true)

pub record IsStuck {Term : Type 0} (id : ℕ) (s : Session Term) : Type 0 where
  pub waits : Waits id s.reader
  pub full : has_room (s.chans id) ≡ false

Waits-not_free : (id : ℕ) (r : Reader) → Waits id r → is_free r ≡ false
Waits-not_free id reading w = absurd w
Waits-not_free id ended w = absurd w
Waits-not_free id (fanning chunk left) w = refl

Waits-not_reading : (id : ℕ) (r : Reader) → Waits id r → r ≢ reading
Waits-not_reading id reading w e = w
Waits-not_reading id ended w e = w
Waits-not_reading id (fanning chunk left) w e = cc

Waits-not_ended : (id : ℕ) (r : Reader) → Waits id r → r ≢ ended
Waits-not_ended id reading w e = w
Waits-not_ended id ended w e = w
Waits-not_ended id (fanning chunk left) w e = cc

Waits-not_done : (id : ℕ) (chunk : Bytes) (r : Reader) → Waits id r → r ≢ fanning chunk []
unfolding has_sub
Waits-not_done id chunk reading w e = w
Waits-not_done id chunk ended w e = w
Waits-not_done id chunk (fanning c []) w e = cc
Waits-not_done id chunk (fanning c (i ∷ is)) w e = cc

Waits-left :
    (id : ℕ) (r : Reader) (chunk : Bytes) (left : List ℕ)
    → Waits id r
    → r ≡ fanning chunk left
    → Distinct left × (has_sub id left ≡ true)
Waits-left id r chunk left w e = subst (Waits id) e w

-- The step is no receive from channel `id`.
abbrev pub NotReceive : {em : Emulator} {s t : Session em.Term} → ℕ → Step em s t → Type 0
NotReceive id (flows (receives i e)) = (i == id) ≡ false
NotReceive id _ = Unit

module _ (em : Emulator) where
  open em use {Term}

  -- Steps in which the client `id` receives nothing.
  pub data Starved (id : ℕ) (s : Session Term) : Session Term → Type 0 where
    starved_start : Starved id s s
    starved_next :
        {t u : Session Term}
        → Starved id s t
        → (st : Step em t u) → NotReceive id st
        → Starved id s u

  deliver-IsStuck :
      (id i : ℕ) (chunk : Bytes) (left : List ℕ) (s : Session Term) {t : Session Term}
      → s.reader ≡ fanning chunk left
      → has_room (s.chans i) ≡ true
      → deliver em chunk left i s ≡ some t
      → IsStuck id s
      → IsStuck id t
  unfolding deliver push update
  deliver-IsStuck id i chunk left s {t} r room e k = elim (Bool-cases (i == id)) [
    | inl same ↦ absurd (ground (arith, k.full))
    | inr other ↦
        let (d, m) = Waits-left id s.reader chunk left k.waits r in
        let gone = has_sub-delete_sub id i left d in
        let reader : t.reader ≡ fanning chunk (delete_sub i left) = ground arith in
        let chan : t.chans id ≡ s.chans id = ground arith in
        record {
          waits =
              subst (Waits id) (sym reader) (delete_sub-Distinct i left d, ground (arith, gone));
          full = ap (λ ch. has_room ch) chan ∙ k.full;
        }
  ]

  locked :
      (id : ℕ) (s : Session Term) {t : Session Term}
      → IsStuck id s
      → is_free s.reader ≡ true
      → IsStuck id t
  locked id s k f = absurd (ground (arith, Waits-not_free id s.reader k.waits))

  receive-IsStuck :
      (id i : ℕ) (s : Session Term)
      → (i == id) ≡ false
      → IsStuck id s
      → IsStuck id (record s { chans = update s.chans i (receive (s.chans i)) })
  unfolding update
  receive-IsStuck id i s n k =
      let chan : update s.chans i (receive (s.chans i)) id ≡ s.chans id = ground arith in
      record { waits = k.waits; full = ap (λ ch. has_room ch) chan ∙ k.full }

  Step-IsStuck :
      (id : ℕ) {s t : Session Term} (st : Step em s t)
      → NotReceive id st
      → IsStuck id s
      → IsStuck id t
  Step-IsStuck id {s} (flows (subscribes f e)) n k = locked id s k f
  Step-IsStuck id {s} (flows (unsubscribes i f e)) n k = locked id s k f
  Step-IsStuck id {s} (flows (receives i e)) n k =
      subst (IsStuck id) (sym e) (receive-IsStuck id i s n k)
  Step-IsStuck id {s} (flows (outputs chunk r e)) n k =
      absurd (Waits-not_reading id s.reader k.waits r)
  Step-IsStuck id {s} (flows (delivers chunk left i r m room e)) n k =
      deliver-IsStuck id i chunk left s r room e k
  Step-IsStuck id {s} (flows (unlocks chunk r e)) n k =
      absurd (Waits-not_done id chunk s.reader k.waits r)
  Step-IsStuck id {s} (flows (read_ends r e)) n k = absurd (Waits-not_reading id s.reader k.waits r)
  Step-IsStuck id {s} (flows (exits code f live e)) n k = locked id s k f
  Step-IsStuck id {s} (flows (finishes x e)) n k =
      subst (IsStuck id) (sym e) (record { waits = k.waits; full = k.full })
  Step-IsStuck id {s} (resizes p c r f e) n k = locked id s k f
  Step-IsStuck id {s} (tears_down d r e) n k = absurd (Waits-not_ended id s.reader k.waits r)

  Starved-IsStuck : (id : ℕ) {s t : Session Term} → Starved id s t → IsStuck id s → IsStuck id t
  Starved-IsStuck id starved_start k = k
  Starved-IsStuck id (starved_next w st n) k = Step-IsStuck id st n (Starved-IsStuck id w k)

  -- Once readLoop waits at the full channel of a client that receives nothing more, the lock is
  -- never free again and the channel stays full, whatever all the others do. So a client that
  -- has stopped receiving to take the lock, for a snapshot or to unsubscribe, waits for ever,
  -- and so does every other client.
  pub full_channel_deadlock :
      (id : ℕ) {s t : Session Term}
      → IsStuck id s
      → Starved id s t
      → (is_free t.reader ≡ false) × (has_room (t.chans id) ≡ false)
  full_channel_deadlock id {s} {t} k w =
      let stuck = Starved-IsStuck id w k in (Waits-not_free id t.reader stuck.waits, stuck.full)
