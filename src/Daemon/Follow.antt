-- ===== src/Daemon/Follow.antt =====
-- internal/daemon/daemon.go: opWatch on a name that no session has yet. The watcher's channel
-- waits in a queue, that opRun empties when it registers a session with the name.
use headless_terminal.Base.{
  ℕ, ◌≡◌, ◌≢◌, refl, sym, ◌∙◌, subst, true, none, some, List, [], ◌∷◌, ◌++◌, Bytes, arith,
  Bool-cases, inl, inr, bytes_eq_iff, Option-cases, ◌==◌, ==_iff,
}
use headless_terminal.Session.{has_sub}
use headless_terminal.Daemon.{
  lookup, insert, Handle, Registry, register, send_all, register_name, park, or_empty,
}
use headless_terminal.Daemon.Names.{lookup-delete}
use headless_terminal.Daemon.Waiting.{Meanwhile, Meanwhile-IsQueued, park-IsQueued}

-- What was sent stays sent.
send_all-keeps :
    (s : Handle) (q : List ℕ) (x : ℕ × Handle) (older newer : List (ℕ × Handle))
    → (front : List (ℕ × Handle)) × (back : List (ℕ × Handle)) × (send_all s q (newer ++ x ∷ older)
        ≡ front ++ x ∷ back)
send_all-keeps s [] x older newer = (newer, older, refl)
send_all-keeps s (ch ∷ chs) x older newer = send_all-keeps s chs x older ((ch, s) ∷ newer)

send_all-serves :
    (s : Handle) (ch : ℕ) (q : List ℕ) (sent : List (ℕ × Handle))
    → has_sub ch q ≡ true
    → (front : List (ℕ × Handle)) × (back : List (ℕ × Handle)) × (send_all s q sent
        ≡ front ++ (ch, s) ∷ back)
unfolding has_sub
send_all-serves s ch [] sent h = absurd (ground arith)
send_all-serves s ch (x ∷ q) sent h = elim (Bool-cases (x == ch)) [
  | inl hit ↦
      let same : x ≡ ch = ground (arith, ==_iff x ch) in
      subst
        (λ i.
          (front : List (ℕ × Handle)) × (back : List (ℕ × Handle)) × (send_all s q ((x, s) ∷ sent)
            ≡ front ++ (i, s) ∷ back))
        same (send_all-keeps s q (x, s) sent [])
  | inr other ↦ send_all-serves s ch q ((x, s) ∷ sent) (ground arith)
]

register_name-sent :
    (s : Handle) (n : Bytes) (d : Registry) {f : Registry}
    → n ≢ []
    → register_name s n d ≡ some f
    → (f.sent ≡ send_all s (or_empty (lookup n d.pending)) d.sent) × (lookup n f.pending ≡ none)
unfolding register_name
register_name-sent s [] d ne e = absurd (ne refl)
register_name-sent s (c ∷ cs) d {f} ne e = elim (Option-cases (insert (c ∷ cs) s.id d.names)) [
  | inl panic ↦ absurd (ground arith)
  | inr (names, p) ↦ (
    ground arith,
    ground (arith, lookup-delete (c ∷ cs) (c ∷ cs) d.pending, bytes_eq_iff (c ∷ cs) (c ∷ cs)),
  )
]

register-sent :
    (s : Handle) (d : Registry) {f : Registry}
    → s.name ≢ []
    → register s d ≡ some f
    → (f.sent ≡ send_all s (or_empty (lookup s.name d.pending)) d.sent)
      × (lookup s.name f.pending ≡ none)
unfolding register
register-sent s d {f} ne e = elim (Option-cases (insert s.id s d.sessions)) [
  | inl panic ↦ absurd (ground arith)
  | inr (sessions, p) ↦
      let went : register_name s s.name (record d { sessions = sessions }) ≡ some f =
        ground arith in
      register_name-sent s s.name (record d { sessions = sessions }) ne went
]

-- A watcher that parks under a name and stays gets the session that is registered with that name,
-- whatever other watchers, other sessions and removals come between; and the queue of the name is
-- gone then, so that no channel is sent to twice.
pub parked_is_served :
    (ref : Bytes) (d e f g : Registry) (ch : ℕ) (s : Handle)
    → park ref d ≡ some (e, ch)
    → Meanwhile ch ref e f
    → s.name ≡ ref
    → ref ≢ []
    → register s f ≡ some g
    → ((front : List (ℕ × Handle)) × (back : List (ℕ × Handle)) × (g.sent
          ≡ front ++ (ch, s) ∷ back))
      × (lookup ref g.pending ≡ none)
parked_is_served ref d e f g ch s parked m same ne r =
    let here = Meanwhile-IsQueued m (park-IsQueued ref d parked) in
    let full : s.name ≢ [] = λ x. ne (sym same ∙ x) in
    let (sends, gone) = register-sent s f full r in
    let queued : has_sub ch (or_empty (lookup s.name f.pending)) ≡ true =
      subst (λ n. has_sub ch (or_empty (lookup n f.pending)) ≡ true) (sym same) here in
    let (front, back, at) =
      send_all-serves s ch (or_empty (lookup s.name f.pending)) f.sent queued in
    ((front, back, sends ∙ at), subst (λ n. lookup n g.pending ≡ none) same gone)
