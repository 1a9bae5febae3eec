-- ===== src/Session/Stream.antt =====
-- internal/session/session.go: Subscribe, and what a subscriber is sent, as against what the
-- terminal is fed.
use mathlib.Core.List.{foldl, foldl-append}
use headless_terminal.Base.{
  ℕ, ◌<◌, ◌≡◌, refl, sym, ap, ◌∙◌, true, false, some, List, [], ◌∷◌, ◌++◌, inl, inr, Bytes, ℤ, ◌==◌,
  if◌then◌else◌, Bool-cases, Option-cases, update, arith, append-nil, append_assoc, subst,
}
use headless_terminal.Session.Chan.{Channel, push, receive, close_all, take_first, history}
use headless_terminal.Session.Subs.{Distinct, has_sub-delete_sub, close_at_lem}
use headless_terminal.Session.Machine.{
  Flow, subscribes, unsubscribes, receives, outputs, delivers, unlocks, read_ends, exits, finishes,
  is_free,
}
use headless_terminal.Session.Invariant.{Inv, LeftIn, Flow-Inv, subscribe-Inv}
use headless_terminal.Session.{
  Emulator, Session, Reader, reading, fanning, ended, is_exited, has_sub, subscribe, unsubscribe,
  mark_exited, take_output, deliver,
}

-- The chunk that the terminal has taken and the subscriber has yet to get.
abbrev pub pending : ℕ → Reader → List Bytes
pending id reading = []
pending id ended = []
pending id (fanning chunk left) = if has_sub id left then chunk ∷ [] else []

pub pending-free : (id : ℕ) (r : Reader) → is_free r ≡ true → pending id r ≡ []
pending-free id reading h = refl
pending-free id ended h = refl
pending-free id (fanning chunk left) h = cc

unlock-pending : (id : ℕ) (chunk : Bytes) (r : Reader) → r ≡ fanning chunk [] → [] ≡ pending id r
unfolding has_sub
unlock-pending id chunk r e = sym (ap (pending id) e)

receive-history : (ch : Channel) → history (receive ch) ≡ history ch
unfolding receive
receive-history ch = go ch ch.queue refl
  where
    go : (c : Channel) (q : List Bytes) → c.queue ≡ q → history (take_first c q) ≡ history c
    go c [] e = refl
    go c (b ∷ q) e = rw e (append_assoc c.received (b ∷ []) q)

-- All that the subscriber was sent, and what it is about to be sent.
abbrev pub stream : {Term : Type 0} → ℕ → Session Term → List Bytes
stream id s = history (s.chans id) ++ pending id s.reader

module _ (em : Emulator) where
  open em use {Term, feed}

  -- A terminal that starts as `base` and is fed the stream of the subscriber is the session's.
  abbrev pub Tracks : Term → ℕ → Session Term → Type 0
  Tracks base id s = s.term ≡ some (foldl feed base (stream id s))

  same-Tracks :
      (base : Term) (id : ℕ) (s t : Session Term)
      → t.term ≡ s.term
      → stream id t ≡ stream id s
      → Tracks base id s
      → Tracks base id t
  same-Tracks base id s t e q h = e ∙ h ∙ ap (λ l. some (foldl feed base l)) (sym q)

  subscribe-stream :
      (id : ℕ) (s : Session Term)
      → id < s.next_sub
      → ((subscribe em s).0.term ≡ s.term) × (stream id (subscribe em s).0 ≡ stream id s)
  unfolding subscribe update
  subscribe-stream id s h = (ground arith, ground arith)

  unsubscribe-stream :
      (id i : ℕ) (s : Session Term) {t : Session Term}
      → Inv s
      → has_sub id t.subs ≡ true
      → unsubscribe em i s ≡ some t
      → (t.term ≡ s.term) × (stream id t ≡ stream id s)
  unfolding unsubscribe update
  unsubscribe-stream id i s {t} v m e = elim (Bool-cases (has_sub i s.subs)) [
    | inr out ↦ (ground arith, ground arith)
    | inl held ↦
        let gone = has_sub-delete_sub id i s.subs v.distinct in
        let closed = close_at_lem i s.chans (v.all_open i held) in (ground arith, ground arith)
  ]

  outputs-Tracks :
      (base : Term) (id : ℕ) (chunk : Bytes) (s : Session Term)
      → s.reader ≡ reading
      → has_sub id s.subs ≡ true
      → Tracks base id s
      → Tracks base id (take_output em chunk s)
  unfolding take_output
  outputs-Tracks base id chunk s r m h =
      let before : stream id s ≡ history (s.chans id) = rw r (append-nil (history (s.chans id))) in
      let term : s.term ≡ some (foldl feed base (history (s.chans id))) = rw before at h in
      let fed : Term = feed (foldl feed base (history (s.chans id))) chunk in
      let after = record s { term = some fed; reader = fanning chunk s.subs } in
      let out : take_output em chunk s ≡ after = ground arith in
      let more : foldl feed base (history (s.chans id) ++ chunk ∷ []) ≡ fed =
        foldl-append feed base (history (s.chans id)) (chunk ∷ []) in
      subst (Tracks base id) (sym out) (rw m (ap some (sym more)))

  deliver-stream :
      (id i : ℕ) (chunk : Bytes) (left : List ℕ) (s : Session Term) {t : Session Term}
      → s.reader ≡ fanning chunk left
      → Distinct left
      → has_sub i left ≡ true
      → deliver em chunk left i s ≡ some t
      → (t.term ≡ s.term) × (stream id t ≡ stream id s)
  unfolding deliver update push
  deliver-stream id i chunk left s {t} r d m e = elim (Bool-cases (i == id)) [
    | inl same ↦
        let gone = has_sub-delete_sub id i left d in
        let ch = s.chans id in
        let here_now = append_assoc ch.received ch.queue (chunk ∷ []) in
        let nothing = append-nil (ch.received ++ (ch.queue ++ chunk ∷ [])) in
        (ground arith, ground (arith, gone, here_now, nothing))
    | inr other ↦ let gone = has_sub-delete_sub id i left d in (ground arith, ground (arith, gone))
  ]

  receive-stream :
      (id i : ℕ) (s : Session Term)
      → stream id (record s { chans = update s.chans i (receive (s.chans i)) }) ≡ stream id s
  unfolding update
  receive-stream id i s = ground (arith, receive-history (s.chans i))

  no_subs :
      (code : ℤ) (id : ℕ) (s : Session Term) {t : Session Term}
      → mark_exited em code s ≡ some t
      → has_sub id t.subs ≡ false
  unfolding mark_exited has_sub
  no_subs code id s {t} e = elim (Option-cases (close_all s.subs s.chans)) [
    | inl panic ↦ ground arith
    | inr (chans, fine) ↦ ground arith
  ]

  Flow-Tracks :
      (base : Term) (id : ℕ) {s t : Session Term}
      → Flow em s t
      → Inv s
      → has_sub id s.subs ≡ true
      → has_sub id t.subs ≡ true
      → Tracks base id s
      → Tracks base id t
  Flow-Tracks base id {s} (subscribes f e) v m m' h =
      let (x, y) = subscribe-stream id s (v.fresh id m) in
      subst (Tracks base id) (sym e) (same-Tracks base id s (subscribe em s).0 x y h)
  Flow-Tracks base id {s} {t} (unsubscribes i f e) v m m' h =
      let (x, y) = unsubscribe-stream id i s v m' e in same-Tracks base id s t x y h
  Flow-Tracks base id {s} (receives i e) v m m' h = subst (Tracks base id) (sym e) (
      same-Tracks base id s (record s { chans = update s.chans i (receive (s.chans i)) }) refl
        (receive-stream id i s) h)
  Flow-Tracks base id {s} (outputs chunk r e) v m m' h =
      subst (Tracks base id) (sym e) (outputs-Tracks base id chunk s r m h)
  Flow-Tracks base id {s} {t} (delivers chunk left i r ml _ e) v m m' h =
      let (d, _) = subst (LeftIn s.subs) r v.left_in in
      let (x, y) = deliver-stream id i chunk left s r d ml e in same-Tracks base id s t x y h
  Flow-Tracks base id {s} (unlocks chunk r e) v m m' h = subst (Tracks base id) (sym e) (
      same-Tracks base id s (record s { reader = reading }) refl
        (ap (λ p. history (s.chans id) ++ p) (unlock-pending id chunk s.reader r)) h)
  Flow-Tracks base id {s} (read_ends r e) v m m' h = subst (Tracks base id) (sym e) (
      same-Tracks base id s (record s { reader = ended }) refl
        (ap (λ p. history (s.chans id) ++ p) (sym (ap (pending id) r))) h)
  Flow-Tracks base id {s} {t} (exits code f live e) v m m' h =
      absurd (ground (arith, no_subs code id s e))
  Flow-Tracks base id {s} (finishes x e) v m m' h = subst (Tracks base id) (sym e) h

  -- Steps of the goroutines, none of them a resize or the end of Close, through which the
  -- subscription `id` lasts.
  pub data Watched (id : ℕ) (s : Session Term) : Session Term → Type 0 where
    watch_start : Watched id s s
    watch_next :
        {t u : Session Term}
        → Watched id s t
        → Flow em t u
        → has_sub id u.subs ≡ true
        → Watched id s u

  Watched-kept :
      (base : Term) (id : ℕ) {s t : Session Term}
      → Inv s
      → has_sub id s.subs ≡ true
      → Tracks base id s
      → Watched id s t
      → Inv t × (has_sub id t.subs ≡ true) × Tracks base id t
  Watched-kept base id v m h watch_start = (v, m, h)
  Watched-kept base id v m h (watch_next w f m') =
      let (v', m'', h') = Watched-kept base id v m h w in
      (Flow-Inv em f v', m', Flow-Tracks base id f v' m'' m' h')

  subscribe-live :
      (s : Session Term)
      → is_exited s.state ≡ false
      → (has_sub (subscribe em s).1 (subscribe em s).0.subs ≡ true)
        × (history ((subscribe em s).0.chans (subscribe em s).1) ≡ [])
        × ((subscribe em s).0.term ≡ s.term)
        × ((subscribe em s).0.reader ≡ s.reader)
  unfolding subscribe update has_sub
  subscribe-live s live = (ground arith, ground arith, ground arith, ground arith)

  -- A watcher that attaches to a live session with the invariant, while the lock is free, misses
  -- nothing and gets nothing twice: as long as it stays subscribed and nobody resizes or closes
  -- the session, the terminal that it started from, fed the chunks that it has taken, those in
  -- its channel and the one on its way to it, is the session's terminal.
  pub subscribe-Tracks :
      (base : Term) (s : Session Term) {t : Session Term}
      → Inv s
      → s.term ≡ some base
      → is_free s.reader ≡ true
      → is_exited s.state ≡ false
      → Watched (subscribe em s).1 (subscribe em s).0 t
      → t.term ≡ some (foldl feed base (stream (subscribe em s).1 t))
  subscribe-Tracks base s v e f live w =
      let (m, empty, same, reader) = subscribe-live s live in
      let id = (subscribe em s).1 in
      let none_left : pending id (subscribe em s).0.reader ≡ [] =
        ap (pending id) reader ∙ pending-free id s.reader f in
      let at_start : Tracks base id (subscribe em s).0 = rw (empty, none_left) (same ∙ e) in
      (Watched-kept base id (subscribe-Inv em s f v) m at_start w).2
