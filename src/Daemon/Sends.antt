-- ===== src/Daemon/Sends.antt =====
-- internal/daemon/daemon.go: the channels of waiting watchers. opRun sends to each and closes it, so that a channel which
-- stood in a queue twice, or came back to one, would make it panic.
pub mod Forgetting
use headless_terminal.Base.{
  ℕ, zero, suc, ◌+◌, ◌≤◌, ◌<◌, ◌≡◌, refl, Bool, true, false, Option, none, some, List, [], ◌∷◌,
  ◌++◌, Bytes, subst, arith, Bool-cases, Option-cases, inl, inr, if◌then◌else◌, ◌==◌, ==_iff,
  bytes_eq,
}
use headless_terminal.Daemon.{
  GoMap, nil_map, entries, lookup_entry, lookup, delete_entry, delete, insert, Handle, Registry,
  new_registry, register, register_name, unregister, unregister_name, park, unpark,
  close_all_sessions, range, is_nil, drop_chan, or_empty, send_all,
}

-- How often a channel stands in a queue, and in the queues of all references.
abbrev pub times_in : ℕ → List ℕ → ℕ
times_in ch [] = 0
times_in ch (x ∷ q) = (if x == ch then 1 else 0) + times_in ch q

abbrev pub times_queued : ℕ → List (Bytes × List ℕ) → ℕ
times_queued ch [] = 0
times_queued ch ((ref, q) ∷ m) = times_in ch q + times_queued ch m

-- How often it was sent to, and closed.
abbrev pub times_sent : ℕ → List (ℕ × Handle) → ℕ
times_sent ch [] = 0
times_sent ch ((x, s) ∷ l) = (if x == ch then 1 else 0) + times_sent ch l

abbrev pub times : ℕ → Registry → ℕ
times ch d = times_queued ch (range d.pending) + times_sent ch d.sent

-- A critical section of any request: also where two of them register one name or one id.
pub data Section (d : Registry) : Registry → Type 0 where
  registers : {d' : Registry} (s : Handle) → register s d ≡ some d' → Section d d'
  unregisters : (s : Handle) → Section d (unregister s d)
  parks : {d' : Registry} {ch : ℕ} (ref : Bytes) → park ref d ≡ some (d', ch) → Section d d'
  unparks : (ref : Bytes) (ch : ℕ) → Section d (unpark ref ch d)
  closes_all : Section d (close_all_sessions d).0

pub data Sections : Registry → Type 0 where
  is_new : Sections new_registry
  then_section : {d d' : Registry} → Sections d → Section d d' → Sections d'

times_in-append : (ch : ℕ) (q r : List ℕ) → times_in ch (q ++ r) ≡ times_in ch q + times_in ch r
times_in-append ch [] r = omega arith
times_in-append ch (x ∷ q) r = ground (arith, times_in-append ch q r)

times_in-drop_chan : (ch c : ℕ) (q : List ℕ) → times_in ch (drop_chan c q) ≤ times_in ch q
unfolding drop_chan
times_in-drop_chan ch c [] = omega arith
times_in-drop_chan ch c (x ∷ q) = ground (arith, times_in-drop_chan ch c q)

times_sent-send_all :
    (ch : ℕ) (s : Handle) (q : List ℕ) (sent : List (ℕ × Handle))
    → times_sent ch (send_all s q sent) ≡ times_in ch q + times_sent ch sent
times_sent-send_all ch s [] sent = omega arith
times_sent-send_all ch s (x ∷ q) sent = ground (arith, times_sent-send_all ch s q ((x, s) ∷ sent))

-- A queue that is taken out of the map is not counted in what is left.
times_queued-delete_entry :
    (ch : ℕ) (k : Bytes) (m : List (Bytes × List ℕ))
    → times_queued ch (delete_entry k m) + times_in ch (or_empty (lookup_entry k m))
      ≤ times_queued ch m
unfolding delete_entry lookup_entry
times_queued-delete_entry ch k [] = omega arith
times_queued-delete_entry ch k ((j, q) ∷ m) = ground (arith, times_queued-delete_entry ch k m)

times_queued-delete :
    (ch : ℕ) (k : Bytes) (m : GoMap (List ℕ))
    → times_queued ch (range (delete k m)) + times_in ch (or_empty (lookup k m))
      ≤ times_queued ch (range m)
unfolding delete lookup
times_queued-delete ch k nil_map = omega arith
times_queued-delete ch k (entries m) = times_queued-delete_entry ch k m

times_queued-insert :
    (ch : ℕ) (k : Bytes) (q : List ℕ) (m : GoMap (List ℕ)) {m' : GoMap (List ℕ)}
    → insert k q m ≡ some m'
    → times_queued ch (range m') ≡ times_in ch q + times_queued ch (range (delete k m))
unfolding insert delete
times_queued-insert ch k q nil_map e = cc
times_queued-insert ch k q (entries m) {m'} e =
    let after : entries ((k, q) ∷ delete_entry k m) ≡ m' = ground arith in
    subst (λ n. times_queued ch (range n) ≡ times_in ch q + times_queued ch (delete_entry k m))
      after refl

-- No channel is counted more often than before.
record IsFewer (d d' : Registry) : Type 0 where
  fewer : (ch : ℕ) → times ch d' ≤ times ch d
  next : d'.next_chan ≡ d.next_chan

register_name-IsFewer :
    (s : Handle) (n : Bytes) (d : Registry) {d' : Registry}
    → register_name s n d ≡ some d'
    → IsFewer d d'
unfolding register_name
register_name-IsFewer s [] d {d'} e =
    let after : d ≡ d' = ground arith in
    subst (IsFewer d) after (record { fewer = λ ch. omega arith; next = refl })
register_name-IsFewer s (c ∷ cs) d {d'} e = elim (Option-cases (insert (c ∷ cs) s.id d.names)) [
  | inl panic ↦ absurd (ground arith)
  | inr (names, p) ↦
      let q = or_empty (lookup (c ∷ cs) d.pending) in
      let pending : d'.pending ≡ delete (c ∷ cs) d.pending = ground arith in
      let sent : d'.sent ≡ send_all s q d.sent = ground arith in
      record {
        fewer = λ ch.
            let gone = times_queued-delete ch (c ∷ cs) d.pending in
            let more = times_sent-send_all ch s q d.sent in rw (pending, sent) (omega arith);
        next = ground arith;
      }
]

register-IsFewer :
    (s : Handle) (d : Registry) {d' : Registry} → register s d ≡ some d' → IsFewer d d'
unfolding register
register-IsFewer s d {d'} e = elim (Option-cases (insert s.id s d.sessions)) [
  | inl panic ↦ absurd (ground arith)
  | inr (sessions, p) ↦
      let put = record d { sessions = sessions } in
      let went : register_name s s.name put ≡ some d' = ground arith in
      let f = register_name-IsFewer s s.name put went in record { fewer = f.fewer; next = f.next }
]

unregister_name-same :
    (n : Bytes) (d : Registry)
    → ((unregister_name n d).pending ≡ d.pending)
      × ((unregister_name n d).sent ≡ d.sent)
      × ((unregister_name n d).next_chan ≡ d.next_chan)
unfolding unregister_name
unregister_name-same [] d = (refl, refl, refl)
unregister_name-same (c ∷ cs) d = (refl, refl, refl)

unregister-IsFewer : (s : Handle) (d : Registry) → IsFewer d (unregister s d)
unfolding unregister
unregister-IsFewer s d =
    let (pending, sent, next) =
      unregister_name-same s.name (record d { sessions = delete s.id d.sessions }) in
    record { fewer = λ ch. rw (pending, sent) (omega arith); next = next }

unpark-IsFewer : (ref : Bytes) (c : ℕ) (d : Registry) → IsFewer d (unpark ref c d)
unfolding unpark
unpark-IsFewer ref c d = elim (Option-cases (lookup ref d.pending)) [
  | inl absent ↦ rw (absent, unpark) (record { fewer = λ ch. omega arith; next = refl })
  | inr (q, there) ↦ elim (Bool-cases (is_nil (drop_chan c q))) [
    | inl empty ↦
        rw (there, unpark, empty)
          (record {
            fewer = λ ch. let gone = times_queued-delete ch ref d.pending in omega arith;
            next = refl;
          })
    | inr full ↦
        rw (there, unpark, full)
          (record {
            fewer = λ ch.
                let gone = times_queued-delete ch ref d.pending in
                let kept = times_in-drop_chan ch c q in
                let was : times_in ch (or_empty (lookup ref d.pending)) ≡ times_in ch q =
                  rw there refl in
                omega arith;
            next = refl;
          })
  ]
]

-- Every channel is counted once at most, and none that is not yet made.
pub record IsOnce (d : Registry) : Type 0 where
  pub once : (ch : ℕ) → times ch d ≤ 1
  pub unmade : (ch : ℕ) → d.next_chan ≤ ch → times ch d ≡ 0

IsFewer-IsOnce : {d d' : Registry} → IsFewer d d' → IsOnce d → IsOnce d'
IsFewer-IsOnce {d} {d'} f v = record {
  once = λ ch. let less = f.fewer ch in let old = v.once ch in omega arith;
  unmade = λ ch h.
      let less = f.fewer ch in
      let next = f.next in let old = v.unmade ch (omega arith) in omega arith;
}

park-IsOnce :
    (ref : Bytes) (d : Registry) {d' : Registry} {c : ℕ}
    → park ref d ≡ some (d', c)
    → IsOnce d
    → IsOnce d'
unfolding park
park-IsOnce ref d {d'} {c} e v =
    let q = or_empty (lookup ref d.pending) in
    elim (Option-cases (insert ref (q ++ d.next_chan ∷ []) d.pending)) [
      | inl panic ↦ absurd (ground arith)
      | inr (pending, p) ↦
          let queues : d'.pending ≡ pending = ground arith in
          let sent : d'.sent ≡ d.sent = ground arith in
          let next : d'.next_chan ≡ d.next_chan + 1 = ground arith in
          let count : (ch : ℕ) → times ch d' ≤ (if d.next_chan == ch then 1 else 0) + times ch d =
            λ ch.
              let put = times_queued-insert ch ref (q ++ d.next_chan ∷ []) d.pending p in
              let gone = times_queued-delete ch ref d.pending in
              let both = times_in-append ch q (d.next_chan ∷ []) in
              rw (queues, sent) (omega arith) in
          record {
            once = λ ch. ground (arith, count ch, v.once ch, v.unmade ch);
            unmade = λ ch h. ground (arith, count ch, v.once ch, v.unmade ch);
          }
    ]

Section-IsOnce : {d d' : Registry} → Section d d' → IsOnce d → IsOnce d'
unfolding close_all_sessions
Section-IsOnce {d} (registers s e) v = IsFewer-IsOnce (register-IsFewer s d e) v
Section-IsOnce {d} (unregisters s) v = IsFewer-IsOnce (unregister-IsFewer s d) v
Section-IsOnce {d} (parks ref e) v = park-IsOnce ref d e v
Section-IsOnce {d} (unparks ref c) v = IsFewer-IsOnce (unpark-IsFewer ref c d) v
Section-IsOnce closes_all v = record { once = v.once; unmade = v.unmade }

Sections-IsOnce : {d : Registry} → Sections d → IsOnce d
Sections-IsOnce is_new = record { once = λ ch. omega arith; unmade = λ ch h. refl }
Sections-IsOnce (then_section r c) = Section-IsOnce c (Sections-IsOnce r)

-- Whatever critical sections have run since New, a watcher's channel is at one place at most: in one queue, once, or
-- among those that a session was sent to, once. So no run sends to a channel that is closed, or closes one again, also
-- when two runs register one name. The channel that the next watcher parks with is in none of them.
pub sent_once :
    (ch : ℕ) {d : Registry}
    → Sections d
    → (times_queued ch (range d.pending) + times_sent ch d.sent ≤ 1)
      × (times_queued d.next_chan (range d.pending) + times_sent d.next_chan d.sent ≡ 0)
sent_once ch {d} r = let v = Sections-IsOnce r in (v.once ch, v.unmade d.next_chan (omega arith))
