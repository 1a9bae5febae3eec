-- ===== src/Daemon/Resolve/Unordered.antt =====
-- internal/daemon/daemon.go: the map of sessions without the order in which Go ranges over it.
use headless_terminal.Base.{
  Result, ◌≡◌, refl, ap, subst, Option, none, some, List, [], ◌∷◌, Bytes, arith, inl, inr, bytes_eq,
  bytes_eq_iff, Bool-cases,
}
use mathlib.Core.Quot
use mathlib.Core.Quot.{Quot, Quot-set}
use native.Mathlib.Nat.{ℕ_set}
use headless_terminal.Daemon.{
  ResolveError, entries, lookup_entry, delete_entry, Handle, Registry, resolve,
}
use headless_terminal.Daemon.Names.{lookup_entry-delete_entry}
use headless_terminal.Daemon.Resolve.{
  Absent, DistinctKeys, Reordered, same, keep, swap, chain, lookup_entry-Reordered,
  resolve-Reordered,
}

module _ {V : Type 0} where
  lookup_entry-delete_entry-none :
      (k j : Bytes) (m : List (Bytes × V))
      → lookup_entry k m ≡ none
      → lookup_entry k (delete_entry j m) ≡ none
  lookup_entry-delete_entry-none k j m a = ground (arith, lookup_entry-delete_entry k j m)

  pub delete_entry-DistinctKeys :
      (k : Bytes) (m : List (Bytes × V)) → DistinctKeys m → DistinctKeys (delete_entry k m)
  unfolding delete_entry
  delete_entry-DistinctKeys k [] v = tt
  delete_entry-DistinctKeys k ((j, x) ∷ m) v = elim (Bool-cases (bytes_eq j k)) [
    | inl hit ↦ rw hit (delete_entry-DistinctKeys k m v.1)
    | inr miss ↦
        rw miss (lookup_entry-delete_entry-none j k m v.0, delete_entry-DistinctKeys k m v.1)
  ]

  delete_entry-Absent : (k : Bytes) (m : List (Bytes × V)) → Absent k m → delete_entry k m ≡ m
  unfolding delete_entry lookup_entry
  delete_entry-Absent k [] a = refl
  delete_entry-Absent k ((j, v) ∷ m) a = ground (arith, delete_entry-Absent k m)

  Reordered-sym : {m n : List (Bytes × V)} → Reordered m n → Reordered n m
  Reordered-sym same = same
  Reordered-sym (keep e r) = keep e (Reordered-sym r)
  Reordered-sym (swap e f) = swap f e
  Reordered-sym (chain r s) = chain (Reordered-sym s) (Reordered-sym r)

  -- An entry can come first.
  entry_first :
      (k : Bytes) (v : V) (m : List (Bytes × V))
      → DistinctKeys m
      → lookup_entry k m ≡ some v
      → Reordered m ((k, v) ∷ delete_entry k m)
  unfolding lookup_entry delete_entry
  entry_first k v [] d e = cc
  entry_first k v ((j, w) ∷ m) d e = elim (Bool-cases (bytes_eq j k)) [
    | inl hit ↦
        let key : j ≡ k = (bytes_eq_iff j k).0 hit in
        let value : w ≡ v = ground arith in
        let rest : delete_entry k m ≡ m =
          delete_entry-Absent k m (subst (λ i. Absent i m) key d.0) in
        rw (hit, rest, key, value) same
    | inr miss ↦
        rw miss (chain (keep (j, w) (entry_first k v m d.1 (ground arith))) (swap (j, w) (k, v)))
  ]

  -- Maps with the same lookups have the same entries.
  Reordered-lookups :
      (m n : List (Bytes × V))
      → DistinctKeys m
      → DistinctKeys n
      → ((k : Bytes) → lookup_entry k m ≡ lookup_entry k n)
      → Reordered m n
  unfolding lookup_entry
  Reordered-lookups [] [] d d' h = same
  Reordered-lookups [] ((k, v) ∷ n) d d' h = absurd (ground (arith, h k, bytes_eq_iff k k))
  Reordered-lookups ((k, v) ∷ m) n d d' h =
      let at : lookup_entry k n ≡ some v = ground (arith, h k, bytes_eq_iff k k) in
      let rest =
        Reordered-lookups m (delete_entry k n) d.1 (delete_entry-DistinctKeys k n d')
          (λ j. ground (arith, h j, lookup_entry-delete_entry j k n, bytes_eq_iff k j, d.0)) in
      chain (keep (k, v) rest) (Reordered-sym (entry_first k v n d' at))

-- The entries of a Go map, in some order.
abbrev pub Entries : Type 0
Entries = (m : List (Bytes × Handle)) × DistinctKeys m

abbrev pub SameEntries : Entries → Entries → Type 0
SameEntries x y = Reordered x.0 y.0

-- A map of sessions, which has no order.
abbrev pub Sessions : Type 0
Sessions = Quot SameEntries

-- s, ok := sessions[k].
unfoldable pub find_session : Bytes → Sessions → Option Handle
find_session k =
    Quot.lift (hlevel ℕ_set) (λ x. lookup_entry k x.0) (λ x y r. (lookup_entry-Reordered k r x.1).0)

-- resolve, with those sessions.
unfoldable pub resolve_in : Registry → Bytes → Sessions → Result ResolveError Handle
resolve_in d ref =
    Quot.lift (hlevel ℕ_set) (λ x. resolve (record d { sessions = entries x.0 }) ref)
      (λ x y r. resolve-Reordered d x.0 y.0 ref r x.1)

-- Maps of sessions are equal if every lookup is.
Sessions-ext : (x y : Sessions) → ((k : Bytes) → find_session k x ≡ find_session k y) → x ≡ y
unfolding find_session
Sessions-ext =
    Quot.ind (λ x. hlevel Quot-set)
      (λ m.
        Quot.ind (λ y. hlevel Quot-set) (λ n h. Quot.sound (Reordered-lookups m.0 n.0 m.1 n.1 h)))

-- On maps of sessions without an order, resolve is a function, it is that of the source for each order in which
-- Go may range over the map, and what lookups tell of a map settles it: maps with the same lookups are the same
-- map, and resolve gives the same session, or the same error, in both.
pub resolve_in_lem :
    (d : Registry) (ref : Bytes) (x y : Sessions) (m : Entries)
    → ((k : Bytes) → find_session k x ≡ find_session k y)
    → (resolve_in d ref (Quot.mk m) ≡ resolve (record d { sessions = entries m.0 }) ref)
      × (x ≡ y)
      × (resolve_in d ref x ≡ resolve_in d ref y)
unfolding resolve_in
resolve_in_lem d ref x y m h = let e = Sessions-ext x y h in (refl, e, ap (resolve_in d ref) e)
