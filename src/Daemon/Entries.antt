-- ===== src/Daemon/Entries.antt =====
-- internal/daemon/daemon.go: a predicate of every registered session, under resolve and what is
-- registered and unregistered.
use headless_terminal.Base.{
  ◌≡◌, sym, subst, Option, none, some, List, [], ◌∷◌, Bytes, ok, arith, Bool-cases, Option-cases,
  inl, inr, bytes_eq, has_prefix,
}
use headless_terminal.Daemon.{
  GoMap, nil_map, entries, lookup_entry, lookup, delete_entry, delete, insert, Handle, Registry,
  register, unregister, range, scan, by_name, by_any, by_id_or_prefix, resolve,
}
use headless_terminal.Daemon.Names.{register_sessions, unregister_sessions}
use headless_terminal.Daemon.Resolve.{found_or_not-ok}

module _ (P : Handle → Type 0) where
  abbrev pub EveryEntry : List (Bytes × Handle) → Type 0
  EveryEntry [] = Unit {0}
  EveryEntry ((k, s) ∷ m) = P s × EveryEntry m

  -- It holds of every session that the registry has.
  abbrev pub Every : Registry → Type 0
  Every d = EveryEntry (range d.sessions)

  lookup_entry-EveryEntry :
      (k : Bytes) (m : List (Bytes × Handle)) {s : Handle}
      → EveryEntry m
      → lookup_entry k m ≡ some s
      → P s
  unfolding lookup_entry
  lookup_entry-EveryEntry k [] a e = cc
  lookup_entry-EveryEntry k ((j, t) ∷ m) {s} a e = elim (Bool-cases (bytes_eq j k)) [
    | inl hit ↦ subst P (ground arith) a.0
    | inr miss ↦ lookup_entry-EveryEntry k m a.1 (ground arith)
  ]

  lookup-Every :
      (k : Bytes) (m : GoMap Handle) {s : Handle} → EveryEntry (range m) → lookup k m ≡ some s → P s
  unfolding lookup
  lookup-Every k nil_map a e = cc
  lookup-Every k (entries m) a e = lookup_entry-EveryEntry k m a e

  delete_entry-EveryEntry :
      (k : Bytes) (m : List (Bytes × Handle)) → EveryEntry m → EveryEntry (delete_entry k m)
  unfolding delete_entry
  delete_entry-EveryEntry k [] a = tt
  delete_entry-EveryEntry k ((j, t) ∷ m) a = elim (Bool-cases (bytes_eq j k)) [
    | inl hit ↦ rw hit (delete_entry-EveryEntry k m a.1)
    | inr miss ↦ rw miss (a.0, delete_entry-EveryEntry k m a.1)
  ]

  delete-Every :
      (k : Bytes) (m : GoMap Handle) → EveryEntry (range m) → EveryEntry (range (delete k m))
  unfolding delete
  delete-Every k nil_map a = tt
  delete-Every k (entries m) a = delete_entry-EveryEntry k m a

  insert-Every :
      (k : Bytes) (s : Handle) (m : GoMap Handle) {m' : GoMap Handle}
      → P s
      → EveryEntry (range m)
      → insert k s m ≡ some m'
      → EveryEntry (range m')
  unfolding insert
  insert-Every k s nil_map p a e = cc
  insert-Every k s (entries m) {m'} p a e =
      let after : entries ((k, s) ∷ delete_entry k m) ≡ m' = ground arith in
      subst (λ x. EveryEntry (range x)) after (p, delete_entry-EveryEntry k m a)

  scan-Every :
      (ref : Bytes) (found : Option Handle) (m : List (Bytes × Handle)) {s : Handle}
      → ((t : Handle) → found ≡ some t → P t)
      → EveryEntry m
      → scan ref found m ≡ ok (some s)
      → P s
  unfolding scan
  scan-Every ref found [] {s} h a e = h s (ground arith)
  scan-Every ref none ((k, t) ∷ m) h a e = elim (Bool-cases (has_prefix k ref)) [
    | inl hit ↦ scan-Every ref (some t) m (λ u q. subst P (ground arith) a.0) a.1 (ground arith)
    | inr miss ↦ scan-Every ref none m h a.1 (ground arith)
  ]
  scan-Every ref (some f) ((k, t) ∷ m) h a e = scan-Every ref (some f) m h a.1 (ground arith)

  by_id_or_prefix-Every :
      (d : Registry) (ref : Bytes) {s : Handle}
      → Every d
      → by_id_or_prefix d ref (lookup ref d.sessions) ≡ ok s
      → P s
  unfolding by_id_or_prefix
  by_id_or_prefix-Every d ref {s} a e = elim (Option-cases (lookup ref d.sessions)) [
    | inr (t, at) ↦ subst P (ground arith) (lookup-Every ref d.sessions a at)
    | inl no_id ↦
        let r = scan ref none (range d.sessions) in
        let found : r ≡ ok (some s) = found_or_not-ok ref r (ground arith) in
        scan-Every ref none (range d.sessions) (λ t q. cc) a found
  ]

  by_name-Every : (d : Registry) (ref : Bytes) {s : Handle} → Every d → by_name d ref ≡ some s → P s
  unfolding by_name
  by_name-Every d ref {s} a e = elim (Option-cases (lookup ref d.names)) [
    | inl unnamed ↦ absurd (ground arith)
    | inr (id, named) ↦ lookup-Every id d.sessions a (ground arith)
  ]

  -- So it holds of the session that a reference resolves to.
  pub resolve-Every :
      (d : Registry) (ref : Bytes) {s : Handle} → Every d → resolve d ref ≡ ok s → P s
  unfolding resolve by_any
  resolve-Every d [] a e = cc
  resolve-Every d (c ∷ cs) {s} a e = elim (Option-cases (by_name d (c ∷ cs))) [
    | inr (t, named) ↦ subst P (ground arith) (by_name-Every d (c ∷ cs) a named)
    | inl unnamed ↦
        let rest : by_id_or_prefix d (c ∷ cs) (lookup (c ∷ cs) d.sessions) ≡ ok s = ground arith in
        by_id_or_prefix-Every d (c ∷ cs) a rest
  ]

  pub register-Every :
      (s : Handle) (d : Registry) {d' : Registry}
      → P s
      → Every d
      → register s d ≡ some d'
      → Every d'
  register-Every s d {d'} p a e =
      let (sessions, q, same) = register_sessions s d e in
      subst (λ m. EveryEntry (range m)) (sym same) (insert-Every s.id s d.sessions p a q)

  pub unregister-Every : (s : Handle) (d : Registry) → Every d → Every (unregister s d)
  unregister-Every s d a =
      subst (λ m. EveryEntry (range m)) (sym (unregister_sessions s d))
        (delete-Every s.id d.sessions a)
