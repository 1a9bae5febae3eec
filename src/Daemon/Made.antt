-- ===== src/Daemon/Made.antt =====
-- internal/daemon/daemon.go: the maps of the daemon are made by New, and nil only after the
-- shutdown. What the critical sections need of that, and keep.
use headless_terminal.Base.{
  ℕ, ◌+◌, ◌≡◌, refl, Bool, true, false, some, [], ◌∷◌, ◌++◌, Bytes, Bool-cases, Option-cases, inl,
  inr,
}
use headless_terminal.Daemon.{
  GoMap, nil_map, entries, lookup, delete_entry, delete, insert, Handle, Registry, register,
  register_name, unregister, unregister_name, park, unpark, is_nil, drop_chan, or_empty, send_all,
}

-- The map was made.
abbrev pub is_made : {V : Type 0} → GoMap V → Bool
is_made nil_map = false
is_made (entries m) = true

-- Every map of the registry was made.
pub record IsMade (d : Registry) : Type 0 where
  pub sessions : is_made d.sessions ≡ true
  pub names : is_made d.names ≡ true
  pub pending : is_made d.pending ≡ true

insert_made :
    {V : Type 0} (k : Bytes) (v : V) (m : GoMap V)
    → is_made m ≡ true
    → (m' : GoMap V) × (insert k v m ≡ some m') × (is_made m' ≡ true)
unfolding insert
insert_made k v nil_map h = cc
insert_made k v (entries m) h = (entries ((k, v) ∷ delete_entry k m), refl, refl)

delete_made :
    {V : Type 0} (k : Bytes) (m : GoMap V) → is_made m ≡ true → is_made (delete k m) ≡ true
unfolding delete
delete_made k nil_map h = cc
delete_made k (entries m) h = refl

register_name-IsMade :
    (s : Handle) (n : Bytes) (d : Registry)
    → IsMade d
    → (d' : Registry) × (register_name s n d ≡ some d') × IsMade d'
unfolding register_name
register_name-IsMade s [] d v = (d, refl, v)
register_name-IsMade s (c ∷ cs) d v =
    let (names, e, made) = insert_made (c ∷ cs) s.id d.names v.names in
    let queue = or_empty (lookup (c ∷ cs) d.pending) in
    (
      record d {
        names = names;
        pending = delete (c ∷ cs) d.pending;
        sent = send_all s queue d.sent;
      },
      rw (e, register_name) refl,
      record {
        sessions = v.sessions;
        names = made;
        pending = delete_made (c ∷ cs) d.pending v.pending;
      },
    )

-- A registry whose maps are made takes every session.
pub register-IsMade :
    (s : Handle) (d : Registry) → IsMade d → (d' : Registry) × (register s d ≡ some d') × IsMade d'
unfolding register
register-IsMade s d v =
    let (sessions, e, made) = insert_made s.id s d.sessions v.sessions in
    let (d', went, all) =
      register_name-IsMade s s.name (record d { sessions = sessions })
        (record { sessions = made; names = v.names; pending = v.pending }) in
    (d', rw (e, register) went, all)

unregister_name-IsMade : (n : Bytes) (d : Registry) → IsMade d → IsMade (unregister_name n d)
unfolding unregister_name
unregister_name-IsMade [] d v = v
unregister_name-IsMade (c ∷ cs) d v = record {
  sessions = v.sessions;
  names = delete_made (c ∷ cs) d.names v.names;
  pending = v.pending;
}

pub unregister-IsMade : (s : Handle) (d : Registry) → IsMade d → IsMade (unregister s d)
unfolding unregister
unregister-IsMade s d v =
    unregister_name-IsMade s.name (record d { sessions = delete s.id d.sessions })
      (record {
        sessions = delete_made s.id d.sessions v.sessions;
        names = v.names;
        pending = v.pending;
      })

pub park-IsMade :
    (ref : Bytes) (d : Registry)
    → IsMade d
    → (d' : Registry) × (ch : ℕ) × (park ref d ≡ some (d', ch))
      × IsMade d'
      × (d'.sessions ≡ d.sessions)
unfolding park
park-IsMade ref d v =
    let queue = or_empty (lookup ref d.pending) ++ d.next_chan ∷ [] in
    let (pending, e, made) = insert_made ref queue d.pending v.pending in
    (
      record d { pending = pending; next_chan = d.next_chan + 1 },
      d.next_chan,
      rw (e, park) refl,
      record { sessions = v.sessions; names = v.names; pending = made },
      refl,
    )

pub unpark-IsMade :
    (ref : Bytes) (ch : ℕ) (d : Registry)
    → IsMade d
    → IsMade (unpark ref ch d) × ((unpark ref ch d).sessions ≡ d.sessions)
unfolding unpark
unpark-IsMade ref ch d v = elim (Option-cases (lookup ref d.pending)) [
  | inl absent ↦ rw (absent, unpark) (v, refl)
  | inr (q, there) ↦ elim (Bool-cases (is_nil (drop_chan ch q))) [
    | inl empty ↦
        rw (there, unpark, empty)
          (
            record {
              sessions = v.sessions;
              names = v.names;
              pending = delete_made ref d.pending v.pending;
            },
            refl,
          )
    | inr full ↦
        rw (there, unpark, full)
          (record { sessions = v.sessions; names = v.names; pending = refl }, refl)
  ]
]
