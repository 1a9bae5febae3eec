-- ===== src/Daemon/Handlers/Shutdown.antt =====
-- internal/daemon/daemon.go: closeAllSessions, when Run returns.
use headless_terminal.Base.{
  ℕ, ◌≡◌, refl, sym, ap, ◌∙◌, subst, true, Option, none, some, List, [], ◌∷◌, map, Bytes, ℤ, All,
  inl, inr, ◌⊎◌, Bool-cases, update, ◌==◌,
}
use headless_terminal.Session.{Emulator, Session, is_exited, tear_down}
use headless_terminal.Session.Machine.{is_free}
use headless_terminal.Session.Invariant.{Inv, mark_exited-Inv}
use headless_terminal.Daemon.{Handle, close_all_sessions, range, nil_map}
use headless_terminal.Daemon.Entries.{Every, EveryEntry}
use headless_terminal.Daemon.Handlers.{World, object_of, put, close_session, shut_down, exit_object}
use headless_terminal.Daemon.Handlers.Lifecycle.{mark_exited_lem}
use headless_terminal.Daemon.Handlers.Safety.{update_self}
use headless_terminal.Daemon.Handlers.Safety.Ending.{shut_down-Inv}

module _ (em : Emulator) where
  open em use {Term}

  -- The calls of Close, one after the other. `none` is a panic.
  unfoldable pub close_every : ℤ → World Term → List Handle → Option (World Term)
  close_every code w [] = some w
  close_every code w (s ∷ hs) = elim (close_session em code w s) [
    | none ↦ none
    | some w' ↦ close_every code w' hs
  ]

  -- closeAllSessions.
  unfoldable pub shut_daemon : ℤ → World Term → Option (World Term)
  unfolding close_every
  shut_daemon code w =
      let (d, hs) = close_all_sessions w.registry in close_every code (record w { registry = d }) hs

  -- A session that can be closed: it has its invariant, and the lock is free.
  pub record IsReady (t : Session Term) : Type 0 where
    pub sound : Inv t
    pub free : is_free t.reader ≡ true

  -- One whose child has exited, and whose terminal is freed.
  pub record IsClosed (t : Session Term) : Type 0 where
    pub over : is_exited t.state ≡ true
    pub freed : t.term ≡ none

  shut_down_closes :
      (t : Session Term)
      → Inv t
      → is_exited t.state ≡ true
      → IsClosed (shut_down em t) × IsReady (shut_down em t)
  unfolding shut_down tear_down
  shut_down_closes t v over =
      (record { over = over; freed = refl }, record { sound = shut_down-Inv em t v; free = refl })

  -- Close leaves every object as it is, or closed.
  abbrev Changed : World Term → World Term → Type 0
  Changed w w' =
      (i : ℕ) → (IsClosed (w'.objects i) × IsReady (w'.objects i)) ⊎ (w'.objects i ≡ w.objects i)

  put-Changed :
      (w : World Term) (s : Handle) (t : Session Term)
      → IsClosed t × IsReady t
      → Changed w (put em w s t)
  unfolding update
  put-Changed w s t c i = elim (Bool-cases (i == s.object)) [
    | inl hit ↦ inl (rw hit c)
    | inr miss ↦ inr (rw miss refl)
  ]

  put-put-Changed :
      (w : World Term) (s : Handle) (a t : Session Term)
      → IsClosed t × IsReady t
      → Changed w (put em (put em w s a) s t)
  unfolding update
  put-put-Changed w s a t c i = elim (Bool-cases (i == s.object)) [
    | inl hit ↦ inl (rw hit c)
    | inr miss ↦ inr (rw miss refl)
  ]

  close_session_closes :
      (code : ℤ) (w : World Term) (s : Handle)
      → IsReady (object_of em w s)
      → (w' : World Term) × (close_session em code w s ≡ some w')
        × (w'.registry ≡ w.registry)
        × IsClosed (object_of em w' s)
        × Changed w w'
  unfolding close_session exit_object
  close_session_closes code w s r = elim (Bool-cases (is_exited (object_of em w s).state)) [
    | inl over ↦
        let c = shut_down_closes (object_of em w s) r.sound over in
        let t = shut_down em (object_of em w s) in
        (
          put em w s t,
          rw (close_session, over) refl,
          refl,
          subst IsClosed (sym (update_self em w.objects s.object t)) c.0,
          put-Changed w s t c,
        )
    | inr live ↦
        let (t, p, i) = mark_exited-Inv em code (object_of em w s) r.free r.sound in
        let ended = record t { done = true } in
        let kept : Inv ended = record {
          distinct = i.distinct;
          fresh = i.fresh;
          all_open = i.all_open;
          gone = i.gone;
          left_in = i.left_in;
        } in
        let (state, _, _) = mark_exited_lem em code (object_of em w s) t p in
        let over : is_exited ended.state ≡ true = rw state refl in
        let w1 = put em w s ended in
        let same = update_self em w.objects s.object ended in
        let c =
          subst (λ o. IsClosed (shut_down em o) × IsReady (shut_down em o)) (sym same)
            (shut_down_closes ended kept over) in
        let last = shut_down em (object_of em w1 s) in
        (
          put em w1 s last,
          rw (close_session, live, exit_object, p) refl,
          refl,
          subst IsClosed (sym (update_self em w1.objects s.object last)) c.0,
          put-put-Changed w s ended last c,
        )
  ]

  objects-IsReady :
      (w w' : World Term) (hs : List Handle)
      → Changed w w'
      → All (λ h. IsReady (object_of em w h)) hs
      → All (λ h. IsReady (object_of em w' h)) hs
  objects-IsReady w w' [] c a = tt
  objects-IsReady w w' (h ∷ hs) c (r, a) = elim (c h.object) [
    | inl closed ↦ (closed.1, objects-IsReady w w' hs c a)
    | inr same ↦ (subst IsReady (sym same) r, objects-IsReady w w' hs c a)
  ]

  object_of-IsClosed :
      (w w' : World Term) (h : Handle)
      → Changed w w'
      → IsClosed (object_of em w h)
      → IsClosed (object_of em w' h)
  object_of-IsClosed w w' h c r = elim (c h.object) [
    | inl closed ↦ closed.0
    | inr same ↦ subst IsClosed (sym same) r
  ]

  Changed-trans : (w w1 w2 : World Term) → Changed w w1 → Changed w1 w2 → Changed w w2
  Changed-trans w w1 w2 c d i = elim (d i) [
    | inl closed ↦ inl closed
    | inr same ↦ elim (c i) [
      | inl closed ↦ inl (subst (λ t. IsClosed t × IsReady t) (sym same) closed)
      | inr before ↦ inr (same ∙ before)
    ]
  ]

  close_every_closes :
      (code : ℤ) (w : World Term) (hs : List Handle)
      → All (λ h. IsReady (object_of em w h)) hs
      → (w' : World Term) × (close_every code w hs ≡ some w')
        × (w'.registry ≡ w.registry)
        × All (λ h. IsClosed (object_of em w' h)) hs
        × Changed w w'
  unfolding close_every
  close_every_closes code w [] a = (w, refl, refl, tt, λ i. inr refl)
  close_every_closes code w (s ∷ hs) (r, a) =
      let (w1, e, same, closed, c) = close_session_closes code w s r in
      let (w2, e', same', all, d) = close_every_closes code w1 hs (objects-IsReady w w1 hs c a) in
      (
        w2,
        rw (close_every, e) e',
        same' ∙ same,
        (object_of-IsClosed w1 w2 s d closed, all),
        Changed-trans w w1 w2 c d,
      )

  EveryEntry-All :
      (P : Handle → Type 0) (m : List (Bytes × Handle)) → EveryEntry P m → All P (map (λ e. e.1) m)
  EveryEntry-All P [] a = tt
  EveryEntry-All P ((k, h) ∷ m) (x, a) = (x, EveryEntry-All P m a)

  All-EveryEntry :
      (P : Handle → Type 0) (m : List (Bytes × Handle)) → All P (map (λ e. e.1) m) → EveryEntry P m
  All-EveryEntry P [] a = tt
  All-EveryEntry P ((k, h) ∷ m) (x, a) = (x, All-EveryEntry P m a)

  -- When every registered session has its invariant and a free lock, closeAllSessions runs to its end
  -- without a panic: the child of every session that was registered has exited, and its terminal is freed. The
  -- maps of sessions and names are nil.
  pub shut_daemon_closes :
      (code : ℤ) (w : World Term)
      → Every (λ h. IsReady (object_of em w h)) w.registry
      → (w' : World Term) × (shut_daemon code w ≡ some w')
        × Every (λ h. IsClosed (object_of em w' h)) w.registry
        × (w'.registry.sessions ≡ nil_map)
        × (w'.registry.names ≡ nil_map)
  unfolding shut_daemon close_all_sessions
  shut_daemon_closes code w a =
      let m = range w.registry.sessions in
      let (w', e, same, all, _) =
        close_every_closes code (record w { registry = (close_all_sessions w.registry).0 })
          (map (λ e. e.1) m) (EveryEntry-All (λ h. IsReady (object_of em w h)) m a) in
      (
        w',
        e,
        All-EveryEntry (λ h. IsClosed (object_of em w' h)) m all,
        ap (λ d. d.sessions) same,
        ap (λ d. d.names) same,
      )
