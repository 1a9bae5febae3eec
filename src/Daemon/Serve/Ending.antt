-- ===== src/Daemon/Serve/Ending.antt =====
-- internal/daemon/daemon.go: how Run returns, and stop.
use headless_terminal.Base.{
  ℕ, ◌≡◌, ◌≢◌, refl, sym, ap, ◌∙◌, subst, Bool, true, false, not, ◌||◌, Option, none, some, Result,
  ok, err, update, ◌==◌, ==_iff, arith, Bool-cases, inl, inr,
}
use headless_terminal.Daemon.Serve.{
  ServeError, Phase, unstarted, cleaned, accepting, leaving, unlinked, ended, Server, Host,
  put_server, dial, remove_stale, listen, stop, close_listener, accept_failed, to_phase, unlink,
  Turn, cleans, listens, is_cancelled, is_stopped, stops_accepting, fails, unlinks, ends, Turns,
  none_yet, then_turn, new_server,
}

abbrev pub is_told : Server → Bool
is_told s = s.ctx_done || s.shutdown_closed

-- A nil error was asked for by the context or by stop.
abbrev pub IsAnswered : Result ServeError (Unit {0}) → Server → Type 0
IsAnswered (ok u) s = is_told s ≡ true
IsAnswered (err e) s = Unit {0}

-- In each phase: the listener is open in the loop only, but for the time up to the first deferred call; it is closed
-- in the loop only if the daemon was told to stop; and so was one whose Run returns no error.
abbrev pub IsInPhase : Phase → Server → Type 0
IsInPhase unstarted s = s.is_open ≡ false
IsInPhase cleaned s = s.is_open ≡ false
IsInPhase accepting s = (s.is_open || is_told s) ≡ true
IsInPhase (leaving r) s = IsAnswered r s
IsInPhase (unlinked r) s = (s.is_open ≡ false) × IsAnswered r s
IsInPhase (ended r) s = (s.is_open ≡ false) × IsAnswered r s

-- `once` has run exactly if `shutdown` is closed, so stop does not panic.
pub record IsServed (s : Server) : Type 0 where
  pub once : s.once_done ≡ s.shutdown_closed
  pub in_phase : IsInPhase s.phase s

pub IsServed-stop : (s : Server) → IsServed s → stop s ≢ none
unfolding stop
IsServed-stop s v = ground arith

Turn-IsServed : {i : ℕ} {h h' : Host} → Turn i h h' → IsServed (h.server i) → IsServed (h'.server i)
unfolding remove_stale listen stop close_listener unlink accept_failed update
Turn-IsServed {i} {h} (cleans prepares removes p) v = ground arith
Turn-IsServed {i} {h} (listens binds p) v = ground arith
Turn-IsServed {i} {h} is_cancelled v = ground arith
Turn-IsServed {i} {h} (is_stopped s e) v = ground arith
Turn-IsServed {i} {h} (stops_accepting e) v = ground arith
Turn-IsServed {i} {h} (fails p) v = ground arith
Turn-IsServed {i} {h} (unlinks removes r p) v = ground arith
Turn-IsServed {i} {h} (ends r p) v = ground arith

Turn-server : {i j : ℕ} {h h' : Host} → Turn j h h' → i ≢ j → h'.server i ≡ h.server i
unfolding remove_stale listen close_listener unlink update
Turn-server {i} {j} {h} (cleans prepares removes p) ne = ground arith
Turn-server {i} {j} {h} (listens binds p) ne = ground arith
Turn-server {i} {j} {h} is_cancelled ne = ground arith
Turn-server {i} {j} {h} (is_stopped s e) ne = ground arith
Turn-server {i} {j} {h} (stops_accepting e) ne = ground arith
Turn-server {i} {j} {h} (fails p) ne = ground arith
Turn-server {i} {j} {h} (unlinks removes r p) ne = ground arith
Turn-server {i} {j} {h} (ends r p) ne = ground arith

-- A property of a daemon that its own steps keep is kept by every step.
every_turn :
    (P : Server → Type 0) (i : ℕ) {h h' : Host}
    → ((g g' : Host) → Turn i g g' → P (g.server i) → P (g'.server i))
    → Turns h h'
    → P (h.server i)
    → P (h'.server i)
every_turn P i own none_yet p = p
every_turn P i own (then_turn {h' = g} {h'' = g'} j ts t) p =
    let q = every_turn P i own ts p in
    elim (Bool-cases (i == j)) [
      | inl same ↦ own g g' (subst (λ k. Turn k g g') (sym ((==_iff i j).0 same)) t) q
      | inr other ↦ subst P (sym (Turn-server t (ground arith))) q
    ]

-- Daemons that New has made, and what an earlier run has left at the path.
abbrev pub new_host : Option ℕ → Host
new_host socket = record { socket = socket; server = λ i. new_server }

-- Whatever daemons on one path do since New: stop does not panic in any of them, also when it is
-- called again, and each of them is as its phase says.
pub Turns-IsServed :
    {socket : Option ℕ} {h : Host} (i : ℕ)
    → Turns (new_host socket) h
    → (stop (h.server i) ≢ none) × IsServed (h.server i)
Turns-IsServed {h} i ts =
    let v =
      every_turn IsServed i (λ g g' t v. Turn-IsServed t v) ts
        (record { once = refl; in_phase = refl }) in
    (IsServed-stop (h.server i) v, v)

Turn-told :
    {i : ℕ} {h h' : Host}
    → Turn i h h'
    → (h.server i).shutdown_closed ≡ true
    → (h'.server i).shutdown_closed ≡ true
unfolding remove_stale listen stop close_listener unlink update
Turn-told {i} {h} (cleans prepares removes p) e = ground arith
Turn-told {i} {h} (listens binds p) e = ground arith
Turn-told {i} {h} is_cancelled e = ground arith
Turn-told {i} {h} (is_stopped s q) e = ground arith
Turn-told {i} {h} (stops_accepting q) e = ground arith
Turn-told {i} {h} (fails p) e = ground arith
Turn-told {i} {h} (unlinks removes r p) e = ground arith
Turn-told {i} {h} (ends r p) e = ground arith

-- A step that Run itself makes: neither the context's end nor another goroutine's stop.
abbrev pub is_own : {i : ℕ} {h h' : Host} → Turn i h h' → Bool
is_own (cleans prepares removes p) = true
is_own (listens binds p) = true
is_own is_cancelled = false
is_own (is_stopped s e) = false
is_own (stops_accepting e) = true
is_own (fails p) = true
is_own (unlinks removes r p) = true
is_own (ends r p) = true

-- Steps of the Run of one daemon only.
abbrev pub AreOwn : (i : ℕ) {h h' : Host} → Turns h h' → Type 0
AreOwn i none_yet = Unit {0}
AreOwn i (then_turn j ts t) = AreOwn i ts × (j ≡ i) × (is_own t ≡ true)

-- The host when Run has left its loop, with each deferred call made.
module _ (i : ℕ) (h : Host) where
  abbrev done : Result ServeError (Unit {0})
  done = ok tt

  abbrev left : Host
  left = to_phase i (leaving done) (close_listener i h)

  accept_failed_told : (c : Bool) (s : Server) → s.shutdown_closed ≡ true → accept_failed c s ≡ done
  unfolding accept_failed
  accept_failed_told c s e = ground arith

  closed_server : ((close_listener i h).server i) ≡ record (h.server i) { is_open = false }
  unfolding close_listener update
  closed_server = ground arith

  left_phase : (left.server i).phase ≡ leaving done
  unfolding update
  left_phase = ground arith

  unlinked_phase : ((unlink true i done left).server i).phase ≡ unlinked done
  unfolding unlink update
  unlinked_phase = ground arith

  -- From the loop to the end, when `shutdown` is closed.
  finishes :
      (h.server i).phase ≡ accepting
      → (h.server i).shutdown_closed ≡ true
      → (ts : Turns h (to_phase i (ended done) (unlink true i done left))) × AreOwn i ts
  finishes p told =
      let g = close_listener i h in
      let flag : ((h.server i).ctx_done || (h.server i).shutdown_closed) ≡ true = ground arith in
      let looping : (g.server i).phase ≡ accepting = ap (λ s. s.phase) closed_server ∙ p in
      let still : (g.server i).shutdown_closed ≡ true =
        ap (λ s. s.shutdown_closed) closed_server ∙ told in
      let fine = accept_failed_told (not (g.server i).is_open) (g.server i) still in
      let (leaves, own) =
        subst (λ r. (t : Turn i g (to_phase i (leaving r) g)) × (is_own t ≡ true)) fine
          (fails looping, refl) in
      (
        then_turn i
            (then_turn i (then_turn i (then_turn i none_yet (stops_accepting flag)) leaves)
              (unlinks true done left_phase))
            (ends done unlinked_phase),
        ((((tt, refl, refl), refl, own), refl, refl), refl, refl),
      )

-- Whatever daemons on one path did since New and do once stop was called in one of them: as long
-- as its Run is in its loop, there are steps of that Run alone, none of them an end of the context
-- or another stop, with which it ends with no error, and dials do not reach that daemon when it
-- has.
pub stop_ends_run :
    {socket : Option ℕ} {h : Host} (i : ℕ) {s : Server} {h' : Host}
    → Turns (new_host socket) h
    → stop (h.server i) ≡ some s
    → Turns (put_server h i s) h'
    → (h'.server i).phase ≡ accepting
    → (h'' : Host) × (after : Turns h' h'') × AreOwn i after
      × ((h''.server i).phase ≡ ended (ok tt))
      × (dial h'' ≢ some i)
unfolding stop unlink update
stop_ends_run {socket} {h} i {s} {h'} before e ts p =
    let v : IsServed (h.server i) = (Turns-IsServed i before).1 in
    let told : (h'.server i).shutdown_closed ≡ true =
      every_turn (λ t. t.shutdown_closed ≡ true) i (λ g g' t q. Turn-told t q) ts (ground arith) in
    let (own_steps, own) = finishes i h' p told in
    (
      to_phase i (ended (ok tt)) (unlink true i (ok tt) (left i h')),
      own_steps,
      own,
      ground arith,
      ground arith,
    )
