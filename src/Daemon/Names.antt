-- ===== src/Daemon/Names.antt =====
-- internal/daemon/daemon.go: the maps of sessions and of names, and what the critical sections of
-- opRun and opRemove do to them, told by lookups.
use headless_terminal.Base.{
  ◌≡◌, ◌≢◌, refl, ap, ◌∙◌, true, false, none, some, List, [], ◌∷◌, Bytes, arith, if◌then◌else◌,
  Bool-cases, inl, inr, ◌⊎◌, ◌↔◌, bytes_eq, bytes_eq_iff, Option-cases,
}
use headless_terminal.Daemon.{
  range, GoMap, nil_map, entries, lookup_entry, lookup, delete_entry, delete, insert, Handle,
  Registry, name_taken, register, is_nil, register_name, unregister, unregister_name,
}

module _ {V : Type 0} where
  pub lookup_entry-delete_entry :
      (k j : Bytes) (m : List (Bytes × V))
      → lookup_entry k (delete_entry j m) ≡ (if bytes_eq j k then none else lookup_entry k m)
  unfolding lookup_entry delete_entry
  lookup_entry-delete_entry k j [] = ground arith
  lookup_entry-delete_entry k j ((i, v) ∷ m) =
      ground (
        arith,
        lookup_entry-delete_entry k j m,
        bytes_eq_iff i j,
        bytes_eq_iff i k,
        bytes_eq_iff j k,
      )

  pub lookup-delete :
      (k j : Bytes) (m : GoMap V)
      → lookup k (delete j m) ≡ (if bytes_eq j k then none else lookup k m)
  unfolding lookup delete
  lookup-delete k j nil_map = ground arith
  lookup-delete k j (entries m) = lookup_entry-delete_entry k j m

  pub lookup-insert :
      (k j : Bytes) (v : V) (m : GoMap V) {m' : GoMap V}
      → insert j v m ≡ some m'
      → lookup k m' ≡ (if bytes_eq j k then some v else lookup k m)
  unfolding lookup lookup_entry insert
  lookup-insert k j v nil_map e = cc
  lookup-insert k j v (entries m) {m'} e =
      let after : m' ≡ entries ((j, v) ∷ delete_entry j m) = ground arith in
      ap (lookup k) after ∙ ground (arith, lookup_entry-delete_entry k j m)

pub lookup_entry-range :
    {V : Type 0} (k : Bytes) (m : GoMap V) → lookup_entry k (range m) ≡ lookup k m
unfolding lookup lookup_entry
lookup_entry-range k nil_map = refl
lookup_entry-range k (entries m) = refl

-- A session is found under its own id, a session with a name is found under the name, and a name
-- leads to a session that has it.
pub record Linked (d : Registry) : Type 0 where
  pub keyed : (k : Bytes) (s : Handle) → lookup k d.sessions ≡ some s → s.id ≡ k
  pub named :
      (k : Bytes) (s : Handle)
      → lookup k d.sessions ≡ some s
      → s.name ≢ []
      → lookup s.name d.names ≡ some k
  pub leads :
      (n id : Bytes)
      → lookup n d.names ≡ some id
      → (s : Handle) × (lookup id d.sessions ≡ some s) × (s.name ≡ n)
  pub no_empty : lookup [] d.names ≡ none

register_name_lookups :
    (s : Handle) (n : Bytes) (d : Registry) {d' : Registry}
    → register_name s n d ≡ some d'
    → (d'.sessions ≡ d.sessions)
      × ((k : Bytes)
          → lookup k d'.names ≡ (
              if is_nil n
              then lookup k d.names
              else if bytes_eq n k
              then some s.id
              else lookup k d.names))
unfolding register_name
register_name_lookups s [] d e = (ground arith, λ k. ground arith)
register_name_lookups s (c ∷ cs) d {d'} e = elim (Option-cases (insert (c ∷ cs) s.id d.names)) [
  | inl panic ↦ (ground arith, λ k. absurd (ground arith))
  | inr (names, p) ↦ (ground arith, λ k. ground (arith, lookup-insert k (c ∷ cs) s.id d.names p))
]

-- `register` puts the session in the map of sessions, and does no more to it.
pub register_sessions :
    (s : Handle) (d : Registry) {d' : Registry}
    → register s d ≡ some d'
    → (sessions : GoMap Handle) × (insert s.id s d.sessions ≡ some sessions)
      × (d'.sessions ≡ sessions)
unfolding register
register_sessions s d {d'} e = elim (Option-cases (insert s.id s d.sessions)) [
  | inl panic ↦ absurd (ground arith)
  | inr (sessions, p) ↦
      let put = record d { sessions = sessions } in
      let went : register_name s s.name put ≡ some d' = ground arith in
      (sessions, p, (register_name_lookups s s.name put went).0)
]

-- What `register` leaves behind, told by lookups.
pub register_lookups :
    (s : Handle) (d : Registry) {d' : Registry}
    → register s d ≡ some d'
    → ((k : Bytes)
        → lookup k d'.sessions ≡ (if bytes_eq s.id k then some s else lookup k d.sessions))
      × ((k : Bytes)
          → lookup k d'.names ≡ (
              if is_nil s.name
              then lookup k d.names
              else if bytes_eq s.name k
              then some s.id
              else lookup k d.names))
unfolding register
register_lookups s d {d'} e = elim (Option-cases (insert s.id s d.sessions)) [
  | inl panic ↦ (λ k. absurd (ground arith), λ k. absurd (ground arith))
  | inr (sessions, p) ↦
      let put = record d { sessions = sessions } in
      let went : register_name s s.name put ≡ some d' = ground arith in
      let (x, y) = register_name_lookups s s.name put went in
      (λ k. ap (lookup k) x ∙ lookup-insert k s.id s d.sessions p, y)
]

unregister_name_lookups :
    (n : Bytes) (d : Registry)
    → ((unregister_name n d).sessions ≡ d.sessions)
      × ((k : Bytes)
          → lookup k (unregister_name n d).names ≡ (
              if is_nil n
              then lookup k d.names
              else if bytes_eq n k
              then none
              else lookup k d.names))
unfolding unregister_name
unregister_name_lookups [] d = (refl, λ k. refl)
unregister_name_lookups (c ∷ cs) d = (refl, λ k. lookup-delete k (c ∷ cs) d.names)

pub unregister_sessions :
    (s : Handle) (d : Registry) → (unregister s d).sessions ≡ delete s.id d.sessions
unfolding unregister
unregister_sessions s d =
    (unregister_name_lookups s.name (record d { sessions = delete s.id d.sessions })).0

pub unregister_lookups :
    (s : Handle) (d : Registry)
    → ((k : Bytes)
        → lookup k (unregister s d).sessions
          ≡ (if bytes_eq s.id k then none else lookup k d.sessions))
      × ((k : Bytes)
          → lookup k (unregister s d).names ≡ (
              if is_nil s.name
              then lookup k d.names
              else if bytes_eq s.name k
              then none
              else lookup k d.names))
unfolding unregister
unregister_lookups s d =
    let put = record d { sessions = delete s.id d.sessions } in
    let (x, y) = unregister_name_lookups s.name put in
    (λ k. ap (lookup k) x ∙ lookup-delete k s.id d.sessions, y)

name_taken-lookup :
    (d : Registry) (n : Bytes) → name_taken d n ≡ false → is_nil n ≡ false → lookup n d.names ≡ none
unfolding name_taken
name_taken-lookup d [] h n = cc
name_taken-lookup d (c ∷ cs) h n = ground arith

pub is_nil_iff : (n : Bytes) → (is_nil n ≡ true) ↔ (n ≡ [])
is_nil_iff [] = ground arith
is_nil_iff (c ∷ cs) = ground arith

-- The name `m` is not empty and is `n`, or else.
new_name :
    (m n : Bytes)
    → ((is_nil m ≡ false) × (bytes_eq m n ≡ true)) ⊎ ((is_nil m ≡ true) ⊎ (bytes_eq m n ≡ false))
new_name m n = elim (Bool-cases (is_nil m)) [
  | inl x ↦ inr (inl x)
  | inr x ↦ elim (Bool-cases (bytes_eq m n)) [ inl y ↦ inl (x, y) | inr y ↦ inr (inr y) ]
]

-- A `run` whose name check finds the name free, with a new id, keeps the maps in agreement if no
-- other request registers in between.
pub register-Linked :
    (s : Handle) (d : Registry) {d' : Registry}
    → Linked d
    → name_taken d s.name ≡ false
    → lookup s.id d.sessions ≡ none
    → register s d ≡ some d'
    → Linked d'
register-Linked s d {d'} l free fresh e =
    let (ss, ns) = register_lookups s d e in
    let untaken = name_taken-lookup d s.name free in
    record {
      keyed = λ k t h. ground (arith, ss k, l.keyed k t, bytes_eq_iff s.id k);
      named = λ k t h n. ground (
        arith,
        ss k,
        ns t.name,
        l.named k t,
        bytes_eq_iff s.id k,
        bytes_eq_iff s.name t.name,
        is_nil_iff s.name,
        untaken,
      );
      leads = λ n id h. elim (new_name s.name n) [
        | inl (full, hit) ↦ (
          s,
          ground (arith, ss s.id, ns n, bytes_eq_iff s.id s.id),
          ground (arith, bytes_eq_iff s.name n),
        )
        | inr old ↦
            let (t, at, called) = l.leads n id (ground (arith, ns n)) in
            (t, ground (arith, ss id, bytes_eq_iff s.id id), called)
      ];
      no_empty = ground (arith, ns [], l.no_empty, bytes_eq_iff s.name [], is_nil_iff s.name);
    }

-- A `remove` of a registered session keeps the maps in agreement.
pub unregister-Linked :
    (s : Handle) (d : Registry)
    → Linked d
    → lookup s.id d.sessions ≡ some s
    → Linked (unregister s d)
unregister-Linked s d l there =
    let (ss, ns) = unregister_lookups s d in
    record {
      keyed = λ k t h. ground (arith, ss k, l.keyed k t);
      named = λ k t h n. ground (
        arith,
        ss k,
        ns t.name,
        l.named k t,
        l.named s.id s there,
        bytes_eq_iff s.id k,
        bytes_eq_iff s.name t.name,
        is_nil_iff s.name,
      );
      leads = λ n id h. elim (new_name s.name n) [
        | inl (full, hit) ↦ absurd (ground (arith, ns n))
        | inr old ↦
            let (t, at, called) = l.leads n id (ground (arith, ns n)) in
            (
              t,
              ground (
                arith,
                ss id,
                ns n,
                bytes_eq_iff s.id id,
                bytes_eq_iff s.name n,
                is_nil_iff s.name,
                l.no_empty,
              ),
              called,
            )
      ];
      no_empty = ground (arith, ns [], l.no_empty);
    }

-- The race between two `run` requests with one name: each finds the name free before the other
-- registers. Both sessions start. When the first is removed, the name goes too, though the second
-- session is still there, has the name, and is not found under it.
pub double_run_loses_name :
    (s t : Handle) (d : Registry) {d' d'' : Registry}
    → s.name ≢ []
    → t.name ≡ s.name
    → s.id ≢ t.id
    → name_taken d s.name ≡ false
    → name_taken d t.name ≡ false
    → register s d ≡ some d'
    → register t d' ≡ some d''
    → (lookup t.id (unregister s d'').sessions ≡ some t)
      × (lookup t.name (unregister s d'').names ≡ none)
      × (¬ Linked (unregister s d''))
double_run_loses_name s t d {d'} {d''} n same ids free free' e e' =
    let (gs, gn) = unregister_lookups s d'' in
    let (ts, tn) = register_lookups t d' e' in
    let still : lookup t.id (unregister s d'').sessions ≡ some t =
      ground (arith, gs t.id, ts t.id, bytes_eq_iff s.id t.id, bytes_eq_iff t.id t.id) in
    let lost : lookup t.name (unregister s d'').names ≡ none =
      ground (arith, gn t.name, bytes_eq_iff s.name t.name, is_nil_iff s.name) in
    (still, lost, λ l. ground (arith, l.named t.id t still))
