-- ===== src/Daemon/Waiting.antt =====
-- internal/daemon/daemon.go: the queue of a watcher that opWatch has parked, through what the other
-- handlers do to the daemon's maps.
use headless_terminal.Base.{
  ℕ, ◌≡◌, ◌≢◌, refl, sym, ap, ◌∙◌, subst, true, false, none, some, List, [], ◌∷◌, ◌++◌, Bytes,
  arith, if◌then◌else◌, Bool-cases, inl, inr, bytes_eq, bytes_eq_iff, Option-cases, ==_iff,
}
use headless_terminal.Session.{has_sub}
use headless_terminal.Daemon.{
  lookup_entry, lookup, delete, insert, Handle, Registry, register, register_name, unregister,
  unregister_name, park, drop_chan, is_nil, unpark, or_empty,
}
use headless_terminal.Daemon.Names.{lookup_entry-range, lookup-delete, lookup-insert}

-- The channel is in the queue of the reference.
abbrev pub IsQueued : ℕ → Bytes → Registry → Type 0
IsQueued ch ref d = has_sub ch (or_empty (lookup ref d.pending)) ≡ true

-- What the daemon does while the watcher's client stays: other watchers come and go, sessions with
-- other names come, and sessions go.
pub data Meanwhile (ch : ℕ) (ref : Bytes) : Registry → Registry → Type 0 where
  nothing : (d : Registry) → Meanwhile ch ref d d
  parks :
      (d e : Registry) (f : Registry) (r : Bytes) (c : ℕ)
      → Meanwhile ch ref d e
      → park r e ≡ some (f, c)
      → Meanwhile ch ref d f
  leaves :
      (d e : Registry) (r : Bytes) (c : ℕ)
      → Meanwhile ch ref d e
      → c ≢ ch
      → Meanwhile ch ref d (unpark r c e)
  comes :
      (d e f : Registry) (s : Handle)
      → Meanwhile ch ref d e
      → s.name ≢ ref
      → register s e ≡ some f
      → Meanwhile ch ref d f
  goes : (d e : Registry) (s : Handle) → Meanwhile ch ref d e → Meanwhile ch ref d (unregister s e)

has_sub-append-l : (ch : ℕ) (q r : List ℕ) → has_sub ch q ≡ true → has_sub ch (q ++ r) ≡ true
unfolding has_sub
has_sub-append-l ch [] r h = cc
has_sub-append-l ch (x ∷ q) r h = ground (arith, has_sub-append-l ch q r)

has_sub-append-r : (ch : ℕ) (q : List ℕ) → has_sub ch (q ++ ch ∷ []) ≡ true
unfolding has_sub
has_sub-append-r ch [] = ground (arith, ==_iff ch ch)
has_sub-append-r ch (x ∷ q) = ground (arith, has_sub-append-r ch q)

has_sub-drop_chan :
    (ch c : ℕ) (q : List ℕ) → c ≢ ch → has_sub ch q ≡ true → has_sub ch (drop_chan c q) ≡ true
unfolding has_sub drop_chan
has_sub-drop_chan ch c [] ne h = h
has_sub-drop_chan ch c (x ∷ q) ne h =
    ground (arith, has_sub-drop_chan ch c q, ==_iff x c, ==_iff x ch)

IsQueued-park :
    (ch : ℕ) (ref r : Bytes) (d : Registry) {f : Registry} {c : ℕ}
    → park r d ≡ some (f, c)
    → IsQueued ch ref d
    → IsQueued ch ref f
unfolding park
IsQueued-park ch ref r d {f} {c} e h =
    let longer = or_empty (lookup r d.pending) ++ d.next_chan ∷ [] in
    elim (Option-cases (insert r longer d.pending)) [
      | inl panic ↦ absurd (ground arith)
      | inr (pending, p) ↦
          let after : f.pending ≡ pending = ground arith in
          elim (Bool-cases (bytes_eq r ref)) [
            | inl hit ↦
                let same : r ≡ ref = ground (arith, bytes_eq_iff r ref) in
                let now : lookup ref f.pending ≡ some longer =
                  ground (arith, lookup-insert ref r longer d.pending p) in
                let old : has_sub ch (or_empty (lookup r d.pending)) ≡ true = ground arith in
                ap (λ q. has_sub ch (or_empty q)) now
                ∙ has_sub-append-l ch (or_empty (lookup r d.pending)) (d.next_chan ∷ []) old
            | inr other ↦
                let now : lookup ref f.pending ≡ lookup ref d.pending =
                  ground (arith, lookup-insert ref r longer d.pending p) in
                ap (λ q. has_sub ch (or_empty q)) now ∙ h
          ]
    ]

pub park-IsQueued :
    (r : Bytes) (d : Registry) {f : Registry} {c : ℕ} → park r d ≡ some (f, c) → IsQueued c r f
unfolding park
park-IsQueued r d {f} {c} e =
    let longer = or_empty (lookup r d.pending) ++ d.next_chan ∷ [] in
    elim (Option-cases (insert r longer d.pending)) [
      | inl panic ↦ absurd (ground arith)
      | inr (pending, p) ↦
          let after : f.pending ≡ pending = ground arith in
          let number : c ≡ d.next_chan = ground arith in
          let now : lookup r f.pending ≡ some longer =
            ground (arith, lookup-insert r r longer d.pending p, bytes_eq_iff r r) in
          let there : has_sub c longer ≡ true =
            subst (λ i. has_sub i longer ≡ true) (sym number)
              (has_sub-append-r d.next_chan (or_empty (lookup r d.pending))) in
          ap (λ q. has_sub c (or_empty q)) now ∙ there
    ]

has_sub-is_nil : (ch : ℕ) (q : List ℕ) → has_sub ch q ≡ true → is_nil q ≡ false
unfolding has_sub
has_sub-is_nil ch [] h = cc
has_sub-is_nil ch (x ∷ q) h = refl

-- The queue of a reference when a channel of `r`'s queue has left.
unpark-pending :
    (r ref : Bytes) (c : ℕ) (d : Registry) (q : List ℕ)
    → lookup r d.pending ≡ some q
    → lookup ref (unpark r c d).pending ≡ (
        if bytes_eq r ref
        then (if is_nil (drop_chan c q) then none else some (drop_chan c q))
        else lookup ref d.pending)
unfolding unpark lookup lookup_entry
unpark-pending r ref c d q p = elim (Bool-cases (is_nil (drop_chan c q))) [
  | inl empty ↦ ground (arith, lookup-delete ref r d.pending)
  | inr full ↦
      ground (arith, lookup-delete ref r d.pending, lookup_entry-range ref (delete r d.pending))
]

IsQueued-unpark :
    (ch c : ℕ) (ref r : Bytes) (d : Registry)
    → c ≢ ch
    → IsQueued ch ref d
    → IsQueued ch ref (unpark r c d)
unfolding unpark
IsQueued-unpark ch c ref r d ne h = elim (Option-cases (lookup r d.pending)) [
  | inl absent ↦ subst (λ m. has_sub ch (or_empty (lookup ref m)) ≡ true) (sym (ground arith)) h
  | inr (q, p) ↦ elim (Bool-cases (bytes_eq r ref)) [
    | inl hit ↦
        let same : r ≡ ref = ground (arith, bytes_eq_iff r ref) in
        let before : has_sub ch q ≡ true = ground arith in
        let stays = has_sub-drop_chan ch c q ne before in
        let now : lookup ref (unpark r c d).pending ≡ some (drop_chan c q) =
          ground (arith, unpark-pending r ref c d q p, has_sub-is_nil ch (drop_chan c q) stays) in
        ap (λ o. has_sub ch (or_empty o)) now ∙ stays
    | inr other ↦
        let now : lookup ref (unpark r c d).pending ≡ lookup ref d.pending =
          ground (arith, unpark-pending r ref c d q p) in
        ap (λ o. has_sub ch (or_empty o)) now ∙ h
  ]
]

register_name-pending :
    (s : Handle) (n : Bytes) (d : Registry) {f : Registry}
    → register_name s n d ≡ some f
    → (ref : Bytes) → n ≢ ref
    → lookup ref f.pending ≡ lookup ref d.pending
unfolding register_name
register_name-pending s [] d e ref ne = ground arith
register_name-pending s (c ∷ cs) d {f} e ref ne =
    elim (Option-cases (insert (c ∷ cs) s.id d.names)) [
      | inl panic ↦ absurd (ground arith)
      | inr (names, p) ↦
          ground (arith, lookup-delete ref (c ∷ cs) d.pending, bytes_eq_iff (c ∷ cs) ref)
    ]

register-pending :
    (s : Handle) (d : Registry) {f : Registry}
    → register s d ≡ some f
    → (ref : Bytes) → s.name ≢ ref
    → lookup ref f.pending ≡ lookup ref d.pending
unfolding register
register-pending s d {f} e ref ne = elim (Option-cases (insert s.id s d.sessions)) [
  | inl panic ↦ absurd (ground arith)
  | inr (sessions, p) ↦
      let went : register_name s s.name (record d { sessions = sessions }) ≡ some f =
        ground arith in
      register_name-pending s s.name (record d { sessions = sessions }) went ref ne
]

IsQueued-register :
    (ch : ℕ) (ref : Bytes) (s : Handle) (d : Registry) {f : Registry}
    → s.name ≢ ref
    → register s d ≡ some f
    → IsQueued ch ref d
    → IsQueued ch ref f
IsQueued-register ch ref s d {f} ne e h =
    ap (λ q. has_sub ch (or_empty q)) (register-pending s d e ref ne) ∙ h

unregister_name-pending : (n : Bytes) (d : Registry) → (unregister_name n d).pending ≡ d.pending
unfolding unregister_name
unregister_name-pending [] d = refl
unregister_name-pending (c ∷ cs) d = refl

unregister-pending : (s : Handle) (d : Registry) → (unregister s d).pending ≡ d.pending
unfolding unregister
unregister-pending s d =
    unregister_name-pending s.name (record d { sessions = delete s.id d.sessions })

pub Meanwhile-IsQueued :
    {ch : ℕ} {ref : Bytes} {d e : Registry}
    → Meanwhile ch ref d e
    → IsQueued ch ref d
    → IsQueued ch ref e
Meanwhile-IsQueued (nothing d) h = h
Meanwhile-IsQueued {ch} {ref} (parks d e f r c m p) h =
    IsQueued-park ch ref r e p (Meanwhile-IsQueued m h)
Meanwhile-IsQueued {ch} {ref} (leaves d e r c m ne) h =
    IsQueued-unpark ch c ref r e ne (Meanwhile-IsQueued m h)
Meanwhile-IsQueued {ch} {ref} (comes d e f s m ne p) h =
    IsQueued-register ch ref s e ne p (Meanwhile-IsQueued m h)
Meanwhile-IsQueued {ch} {ref} (goes d e s m) h =
    ap (λ q. has_sub ch (or_empty (lookup ref q))) (unregister-pending s e) ∙ Meanwhile-IsQueued m h
