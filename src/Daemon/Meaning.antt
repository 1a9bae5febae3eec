-- ===== src/Daemon/Meaning.antt =====
-- resolve against what a reference is meant to denote, in a directory of sessions by id that knows
-- nothing of the map of names.
use headless_terminal.Base.{
  subst, ◌≡◌, ◌≢◌, refl, sym, ap, ◌∙◌, true, false, Option, none, some, List, [], ◌∷◌, Bytes, ok,
  arith, Bool-cases, inl, inr, ◌↔◌, bytes_eq_iff, has_prefix, Option-cases,
}
use headless_terminal.Daemon.{
  lookup_entry, lookup, Handle, Registry, scan, by_any, by_name, by_id_or_prefix, found_or_not,
  resolve, range,
}
use headless_terminal.Daemon.Names.{Linked, lookup_entry-range}
use headless_terminal.Daemon.Resolve.{DistinctKeys, found_or_not-ok}

-- The sessions by their ids.
abbrev pub Directory : Type 0
Directory = Bytes → Option Handle

abbrev pub directory : Registry → Directory
directory d k = lookup k d.sessions

abbrev pub NoneNamed : Directory → Bytes → Type 0
NoneNamed a ref = (id : Bytes) (t : Handle) → a id ≡ some t → t.name ≢ ref

-- A session with that name; else the session with that id; else the only session whose id begins
-- with the text.
pub data Denotes (a : Directory) (ref : Bytes) (s : Handle) : Type 0 where
  by_its_name : (id : Bytes) → a id ≡ some s → s.name ≡ ref → Denotes a ref s
  by_its_id : NoneNamed a ref → a ref ≡ some s → Denotes a ref s
  by_its_prefix :
      NoneNamed a ref
      → a ref ≡ none
      → (id : Bytes) → a id ≡ some s
      → has_prefix id ref ≡ true
      → ((j : Bytes) (t : Handle) → a j ≡ some t → has_prefix j ref ≡ true → j ≡ id)
      → Denotes a ref s

-- An entry of the tail is one of the whole, where the keys are distinct.
later_entry :
    {V : Type 0} (j k : Bytes) (v t : V) (m : List (Bytes × V))
    → lookup_entry k m ≡ none
    → lookup_entry j m ≡ some t
    → lookup_entry j ((k, v) ∷ m) ≡ some t
unfolding lookup_entry
later_entry j k v t m a e = ground (arith, bytes_eq_iff k j)

first_entry :
    {V : Type 0} (k : Bytes) (v : V) (m : List (Bytes × V)) → lookup_entry k ((k, v) ∷ m) ≡ some v
unfolding lookup_entry
first_entry k v m = ground (arith, bytes_eq_iff k k)

-- With a match at hand the scan succeeds exactly if no other id begins with the text.
scan_rest :
    (ref : Bytes) (f : Handle) (m : List (Bytes × Handle)) {x : Option Handle}
    → DistinctKeys m
    → scan ref (some f) m ≡ ok x
    → (x ≡ some f)
      × ((j : Bytes) (t : Handle) → lookup_entry j m ≡ some t → has_prefix j ref ≡ false)
unfolding scan lookup_entry
scan_rest ref f [] d h = (ground arith, λ j t e. cc)
scan_rest ref f ((k, v) ∷ m) {x} d h =
    let rest : scan ref (some f) m ≡ ok x = ground arith in
    let (same, others) = scan_rest ref f m d.1 rest in
    (same, λ j t e. ground (arith, bytes_eq_iff k j, others j t))

scan_rest_only :
    (ref : Bytes) (f : Handle) (m : List (Bytes × Handle))
    → DistinctKeys m
    → ((j : Bytes) (t : Handle) → lookup_entry j m ≡ some t → has_prefix j ref ≡ false)
    → scan ref (some f) m ≡ ok (some f)
unfolding scan
scan_rest_only ref f [] d h = refl
scan_rest_only ref f ((k, v) ∷ m) d h = ground (
  arith,
  h k v (first_entry k v m),
  scan_rest_only ref f m d.1 (λ j t e. h j t (later_entry j k v t m d.0 e)),
)

-- What the scan finds is the only entry whose id begins with the text.
abbrev Only : Bytes → Handle → List (Bytes × Handle) → Type 0
Only ref s m =
    (id : Bytes) × (lookup_entry id m ≡ some s)
    × (has_prefix id ref ≡ true)
    × ((j : Bytes) (t : Handle) → lookup_entry j m ≡ some t → has_prefix j ref ≡ true → j ≡ id)

scan-Only :
    (ref : Bytes) (s : Handle) (m : List (Bytes × Handle))
    → DistinctKeys m
    → scan ref none m ≡ ok (some s)
    → Only ref s m
unfolding scan lookup_entry
scan-Only ref s [] d h = absurd (ground arith)
scan-Only ref s ((k, v) ∷ m) d h = elim (Bool-cases (has_prefix k ref)) [
  | inl hit ↦
      let rest : scan ref (some v) m ≡ ok (some s) = ground arith in
      let (same, others) = scan_rest ref v m d.1 rest in
      (
        k,
        ground (arith, bytes_eq_iff k k),
        hit,
        λ j t e p. ground (arith, bytes_eq_iff k j, others j t),
      )
  | inr miss ↦
      let rest : scan ref none m ≡ ok (some s) = ground arith in
      let (id, at, starts, only) = scan-Only ref s m d.1 rest in
      (
        id,
        later_entry id k v s m d.0 at,
        starts,
        λ j t e p. ground (arith, bytes_eq_iff k j, only j t),
      )
]

no_other :
    (ref : Bytes) (k : Bytes) (v : Handle) (m : List (Bytes × Handle)) {j : Bytes} {t : Handle}
    → lookup_entry k m ≡ none
    → (has_prefix j ref ≡ true → j ≡ k)
    → lookup_entry j m ≡ some t
    → has_prefix j ref ≡ false
no_other ref k v m {j} a same e = elim (Bool-cases (has_prefix j ref)) [
  | inl hit ↦ absurd (ground (arith, ap (λ x. lookup_entry x m) (same hit)))
  | inr miss ↦ miss
]

Only-scan :
    (ref : Bytes) (s : Handle) (m : List (Bytes × Handle))
    → DistinctKeys m
    → Only ref s m
    → scan ref none m ≡ ok (some s)
unfolding scan
Only-scan ref s [] d (id, at, starts, only) = absurd (unfold lookup_entry in ground arith)
Only-scan ref s ((k, v) ∷ m) d (id, at, starts, only) = elim (Bool-cases (has_prefix k ref)) [
  | inl hit ↦
      let same : k ≡ id = only k v (first_entry k v m) hit in
      let value : v ≡ s = unfold lookup_entry in ground (arith, bytes_eq_iff k id) in
      let others = λ (j : Bytes) (t : Handle) (e : lookup_entry j m ≡ some t).
        no_other ref k v m d.0 (λ p. only j t (later_entry j k v t m d.0 e) p ∙ sym same) e in
      rw hit (scan_rest_only ref v m d.1 others ∙ ap (λ x. ok (some x)) value)
  | inr miss ↦
      let below : lookup_entry id m ≡ some s =
        unfold lookup_entry in ground (arith, bytes_eq_iff k id) in
      rw miss
        (Only-scan ref s m d.1 (id, below, starts, λ j t e. only j t (later_entry j k v t m d.0 e)))
]

module _ (d : Registry) (linked : Linked d) (distinct : DistinctKeys (range d.sessions)) where
  -- The map of names has a name exactly if a session has it.
  by_name-Denotes :
      (ref : Bytes) (s : Handle) → by_name d ref ≡ some s → Denotes (directory d) ref s
  unfolding by_name
  by_name-Denotes ref s h = elim (Option-cases (lookup ref d.names)) [
    | inl none_there ↦ absurd (ground arith)
    | inr (id, at) ↦
        let (t, there, called) = linked.leads ref id at in
        let same : t ≡ s = ground arith in
        by_its_name id (there ∙ ap some same) (ap (λ (x : Handle). x.name) (sym same) ∙ called)
  ]

  named-by_name :
      (ref id : Bytes) (s : Handle)
      → ref ≢ []
      → lookup id d.sessions ≡ some s
      → s.name ≡ ref
      → by_name d ref ≡ some s
  unfolding by_name
  named-by_name ref id s ne at called =
      let there : lookup ref d.names ≡ some id =
        subst (λ n. lookup n d.names ≡ some id) called
          (linked.named id s at (λ x. ne (sym called ∙ x))) in
      rw (by_name, there) at

  unnamed : (ref : Bytes) → ref ≢ [] → by_name d ref ≡ none → NoneNamed (directory d) ref
  unnamed ref ne h id t at called = absurd (ground (arith, named-by_name ref id t ne at called))

  nameless : (ref : Bytes) → NoneNamed (directory d) ref → by_name d ref ≡ none
  unfolding by_name
  nameless ref free = elim (Option-cases (lookup ref d.names)) [
    | inl absent ↦ ground arith
    | inr (id, at) ↦
        let (t, there, called) = linked.leads ref id at in absurd (free id t there called)
  ]

  -- The whole of resolve, for a reference that is not empty.
  by_any-Denotes :
      (ref : Bytes) (s : Handle)
      → ref ≢ []
      → by_any d ref (by_name d ref) ≡ ok s
      → Denotes (directory d) ref s
  unfolding by_any by_id_or_prefix found_or_not
  by_any-Denotes ref s ne h = elim (Option-cases (by_name d ref)) [
    | inr (t, named) ↦ by_name-Denotes ref s (ground arith)
    | inl unknown ↦
        let free = unnamed ref ne unknown in
        elim (Option-cases (lookup ref d.sessions)) [
          | inr (t, at) ↦ by_its_id free (ground arith)
          | inl no_id ↦
              let found : scan ref none (range d.sessions) ≡ ok (some s) =
                found_or_not-ok ref (scan ref none (range d.sessions)) (ground arith) in
              let (id, at, starts, only) = scan-Only ref s (range d.sessions) distinct found in
              by_its_prefix free no_id id (sym (lookup_entry-range id d.sessions) ∙ at) starts
                (λ j t e. only j t (lookup_entry-range j d.sessions ∙ e))
        ]
  ]

  Denotes-by_any :
      (ref : Bytes) (s : Handle)
      → ref ≢ []
      → Denotes (directory d) ref s
      → by_any d ref (by_name d ref) ≡ ok s
  unfolding by_any by_id_or_prefix found_or_not
  Denotes-by_any ref s ne (by_its_name id at called) = rw (named-by_name ref id s ne at called) refl
  Denotes-by_any ref s ne (by_its_id free at) = rw (nameless ref free, at) refl
  Denotes-by_any ref s ne (by_its_prefix free no_id id at starts only) =
      let there : Only ref s (range d.sessions) = (
        id,
        lookup_entry-range id d.sessions ∙ at,
        starts,
        λ j t e. only j t (sym (lookup_entry-range j d.sessions) ∙ e),
      ) in
      rw (nameless ref free, no_id, Only-scan ref s (range d.sessions) distinct there) refl

-- Where the two maps agree and no id stands twice, resolve gives a session for a reference that is
-- not empty exactly if the reference denotes it: by its name, else by its id, else as the only one whose id begins with the reference.
pub resolve-Denotes :
    (d : Registry) (ref : Bytes) (s : Handle)
    → Linked d
    → DistinctKeys (range d.sessions)
    → ref ≢ []
    → (resolve d ref ≡ ok s) ↔ Denotes (directory d) ref s
unfolding resolve
resolve-Denotes d [] s l k ne = absurd (ne refl)
resolve-Denotes d (c ∷ cs) s l k ne =
    (by_any-Denotes d l k (c ∷ cs) s ne, Denotes-by_any d l k (c ∷ cs) s ne)
