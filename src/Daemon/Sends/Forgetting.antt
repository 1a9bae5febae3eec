-- ===== src/Daemon/Sends/Forgetting.antt =====
-- internal/daemon/daemon.go: opWatch when its client goes away before a session comes.
use headless_terminal.Base.{
  ℕ, ◌+◌, ◌≤◌, ◌≡◌, refl, true, some, List, [], ◌∷◌, Bytes, arith, Bool-cases, Option-cases, inl,
  inr,
}
use headless_terminal.Session.{has_sub}
use headless_terminal.Daemon.{lookup, Registry, park, unpark, range, is_nil, drop_chan, or_empty}
use headless_terminal.Daemon.Waiting.{
  Meanwhile, nothing, parks, leaves, comes, goes, Meanwhile-IsQueued, park-IsQueued,
}
use headless_terminal.Daemon.Handlers.{World}
use headless_terminal.Daemon.Handlers.Run.{loses_client, resume}
use headless_terminal.Daemon.Sends
use headless_terminal.Daemon.Sends.{
  times_in, times_queued, times_sent, times, Sections, then_section, Sections-IsOnce,
  times_queued-delete, Section,
}

Meanwhile-Sections :
    {ch : ℕ} {ref : Bytes} {d e : Registry} → Meanwhile ch ref d e → Sections d → Sections e
Meanwhile-Sections (nothing d) r = r
Meanwhile-Sections (parks d e f ref c m p) r =
    then_section (Meanwhile-Sections m r) (Sends.parks ref p)
Meanwhile-Sections (leaves d e ref c m ne) r =
    then_section (Meanwhile-Sections m r) (Sends.unparks ref c)
Meanwhile-Sections (comes d e f s m ne p) r =
    then_section (Meanwhile-Sections m r) (Sends.registers s p)
Meanwhile-Sections (goes d e s m) r = then_section (Meanwhile-Sections m r) (Sends.unregisters s)

-- A channel of the queue is taken out of it once.
times_in-drop_chan_self :
    (ch : ℕ) (q : List ℕ) → has_sub ch q ≡ true → times_in ch (drop_chan ch q) + 1 ≡ times_in ch q
unfolding drop_chan has_sub
times_in-drop_chan_self ch [] h = absurd (ground arith)
times_in-drop_chan_self ch (x ∷ q) h = ground (arith, times_in-drop_chan_self ch q)

unpark_forgets :
    (ref : Bytes) (ch : ℕ) (d : Registry)
    → times ch d ≤ 1
    → has_sub ch (or_empty (lookup ref d.pending)) ≡ true
    → times ch (unpark ref ch d) ≡ 0
unfolding unpark has_sub
unpark_forgets ref ch d once here = elim (Option-cases (lookup ref d.pending)) [
  | inl absent ↦ absurd (ground arith)
  | inr (q, there) ↦
      let mine : has_sub ch q ≡ true = ground arith in
      let gone = times_queued-delete ch ref d.pending in
      let was : times_in ch (or_empty (lookup ref d.pending)) ≡ times_in ch q = rw there refl in
      let fewer = times_in-drop_chan_self ch q mine in
      elim (Bool-cases (is_nil (drop_chan ch q))) [
        | inl empty ↦ rw (there, unpark, empty) (omega arith)
        | inr full ↦ rw (there, unpark, full) (omega arith)
      ]
]

-- A watcher that parks under a name and whose client goes away, before a session with that name is registered, is
-- forgotten: its channel is in no queue and no session was sent to it, whatever other watchers, other sessions and
-- removals came before and between.
pub parked_is_forgotten :
    {T : Type 0} (ref : Bytes) (d e : Registry) (w : World T) (ch : ℕ)
    → Sections d
    → park ref d ≡ some (e, ch)
    → Meanwhile ch ref e w.registry
    → (times_queued ch (range (resume w ref ch loses_client).0.registry.pending) ≡ 0)
      × (times_sent ch (resume w ref ch loses_client).0.registry.sent ≡ 0)
unfolding resume
parked_is_forgotten ref d e w ch r parked m =
    let now = Sections-IsOnce (Meanwhile-Sections m (then_section r (Sends.parks ref parked))) in
    let here = Meanwhile-IsQueued m (park-IsQueued ref d parked) in
    let none_left = unpark_forgets ref ch w.registry (now.once ch) here in
    (omega arith, omega arith)
