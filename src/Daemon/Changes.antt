-- ===== src/Daemon/Changes.antt =====
-- internal/daemon/daemon.go: the critical sections on the daemon's maps, as steps since New.
use headless_terminal.Base.{
  ℕ, ◌≡◌, refl, sym, ap, ◌∙◌, subst, false, none, some, [], ◌∷◌, Bytes, ok, arith, bytes_eq_iff,
}
use headless_terminal.Daemon.{
  GoMap, nil_map, entries, lookup_entry, lookup, delete_entry, delete, insert, Handle, Registry,
  new_registry, name_taken, resolve, register, unregister, park, unpark, close_all_sessions, range,
}
use headless_terminal.Daemon.Names.{
  Linked, lookup_entry-delete_entry, register-Linked, unregister-Linked, register_sessions,
  unregister_sessions,
}
use headless_terminal.Daemon.Meaning.{
  Denotes, by_its_name, by_its_id, by_its_prefix, directory, resolve-Denotes,
}
use headless_terminal.Daemon.Resolve.Unordered.{delete_entry-DistinctKeys}
use headless_terminal.Daemon.Resolve.{DistinctKeys}

-- A request's effect on the maps when requests are handled one at a time: the check of opRun with its registration,
-- the resolution of opRemove with its deletion, a watcher's parking, its leaving, the end of the daemon. The id, which
-- is random, is one that no session has.
pub data Change (d : Registry) : Registry → Type 0 where
  runs :
      {d' : Registry} (s : Handle)
      → name_taken d s.name ≡ false
      → lookup s.id d.sessions ≡ none
      → register s d ≡ some d'
      → Change d d'
  removes : (ref : Bytes) (s : Handle) → resolve d ref ≡ ok s → Change d (unregister s d)
  parks : {d' : Registry} {ch : ℕ} (ref : Bytes) → park ref d ≡ some (d', ch) → Change d d'
  unparks : (ref : Bytes) (ch : ℕ) → Change d (unpark ref ch d)
  closes_all : Change d (close_all_sessions d).0

-- A registry that New and requests, one at a time, make.
pub data Reach : Registry → Type 0 where
  is_new : Reach new_registry
  changes : {d d' : Registry} → Reach d → Change d d' → Reach d'

new_registry-Linked : Linked new_registry
unfolding lookup lookup_entry
new_registry-Linked = record {
  keyed = λ k s h. absurd (ground (arith, h));
  named = λ k s h n. absurd (ground (arith, h));
  leads = λ n id h. absurd (ground (arith, h));
  no_empty = refl;
}

-- It depends on the sessions and the names only.
Linked-same :
    (d d' : Registry) → d'.sessions ≡ d.sessions → d'.names ≡ d.names → Linked d → Linked d'
Linked-same d d' ss ns l = record {
  keyed = λ k s h. l.keyed k s (ap (lookup k) (sym ss) ∙ h);
  named = λ k s h n. ap (lookup s.name) ns ∙ l.named k s (ap (lookup k) (sym ss) ∙ h) n;
  leads = λ n id h.
      let (s, at, called) = l.leads n id (ap (lookup n) (sym ns) ∙ h) in
      (s, ap (lookup id) ss ∙ at, called);
  no_empty = ap (lookup []) ns ∙ l.no_empty;
}

park_same :
    (ref : Bytes) (d : Registry) {d' : Registry} {ch : ℕ}
    → park ref d ≡ some (d', ch)
    → (d'.sessions ≡ d.sessions) × (d'.names ≡ d.names)
unfolding park
park_same ref d {d'} {ch} e = ground arith

unpark_same :
    (ref : Bytes) (ch : ℕ) (d : Registry)
    → ((unpark ref ch d).sessions ≡ d.sessions) × ((unpark ref ch d).names ≡ d.names)
unfolding unpark
unpark_same ref ch d = ground arith

module _ {V : Type 0} where
  delete-DistinctKeys :
      (k : Bytes) (m : GoMap V) → DistinctKeys (range m) → DistinctKeys (range (delete k m))
  unfolding delete
  delete-DistinctKeys k nil_map v = tt
  delete-DistinctKeys k (entries m) v = delete_entry-DistinctKeys k m v

  insert-DistinctKeys :
      (k : Bytes) (x : V) (m : GoMap V) {m' : GoMap V}
      → DistinctKeys (range m)
      → insert k x m ≡ some m'
      → DistinctKeys (range m')
  unfolding insert
  insert-DistinctKeys k x nil_map v e = cc
  insert-DistinctKeys k x (entries m) {m'} v e =
      let after : entries ((k, x) ∷ delete_entry k m) ≡ m' = ground arith in
      subst (λ n. DistinctKeys (range n)) after
        (
          ground (arith, lookup_entry-delete_entry k k m, bytes_eq_iff k k),
          delete_entry-DistinctKeys k m v,
        )

-- The two maps agree, and no id stands twice.
pub record Agrees (d : Registry) : Type 0 where
  pub linked : Linked d
  pub distinct : DistinctKeys (range d.sessions)

Agrees-same :
    (d d' : Registry) → d'.sessions ≡ d.sessions → d'.names ≡ d.names → Agrees d → Agrees d'
Agrees-same d d' ss ns v = record {
  linked = Linked-same d d' ss ns v.linked;
  distinct = subst (λ m. DistinctKeys (range m)) (sym ss) v.distinct;
}

closed-Agrees : (d : Registry) → Agrees (close_all_sessions d).0
unfolding close_all_sessions lookup
closed-Agrees d = record {
  linked = record {
    keyed = λ k s h. absurd (ground (arith, h));
    named = λ k s h n. absurd (ground (arith, h));
    leads = λ n id h. absurd (ground (arith, h));
    no_empty = refl;
  };
  distinct = tt;
}

denoted-listed :
    (d : Registry) (ref : Bytes) (s : Handle)
    → Denotes (directory d) ref s
    → (id : Bytes) × (lookup id d.sessions ≡ some s)
denoted-listed d ref s (by_its_name id at n) = (id, at)
denoted-listed d ref s (by_its_id u at) = (ref, at)
denoted-listed d ref s (by_its_prefix u f id at p only) = (id, at)

-- What a reference resolves to is registered.
resolve-registered :
    (d : Registry) (ref : Bytes) (s : Handle)
    → Agrees d
    → resolve d ref ≡ ok s
    → lookup s.id d.sessions ≡ some s
unfolding resolve
resolve-registered d [] s v e = absurd (ground arith)
resolve-registered d (c ∷ cs) s v e =
    let (id, at) =
      denoted-listed d (c ∷ cs) s
        ((resolve-Denotes d (c ∷ cs) s v.linked v.distinct (λ q. cc)).0 e) in
    ap (λ k. lookup k d.sessions) (v.linked.keyed id s at) ∙ at

Change-Agrees : {d d' : Registry} → Change d d' → Agrees d → Agrees d'
Change-Agrees {d} {d'} (runs s free fresh e) v =
    let (sessions, q, same) = register_sessions s d e in
    record {
      linked = register-Linked s d v.linked free fresh e;
      distinct =
          subst (λ m. DistinctKeys (range m)) (sym same)
            (insert-DistinctKeys s.id s d.sessions v.distinct q);
    }
Change-Agrees {d} (removes ref s e) v = record {
  linked = unregister-Linked s d v.linked (resolve-registered d ref s v e);
  distinct =
      subst (λ m. DistinctKeys (range m)) (sym (unregister_sessions s d))
        (delete-DistinctKeys s.id d.sessions v.distinct);
}
Change-Agrees {d} {d'} (parks ref e) v =
    let (ss, ns) = park_same ref d e in Agrees-same d d' ss ns v
Change-Agrees {d} (unparks ref ch) v =
    let (ss, ns) = unpark_same ref ch d in Agrees-same d (unpark ref ch d) ss ns v
Change-Agrees {d} closes_all v = closed-Agrees d

-- Whatever requests have run since New, if each run and each remove finishes before another one
-- begins, so that none comes between opRun's check of the name and its registration or between
-- opRemove's resolution and its deletion, and if each new id is one that no session has: the map
-- of names and the map of sessions agree, each session stands under its own id, once, and each
-- session with a name is found under it.
pub Reach-Agrees : {d : Registry} → Reach d → Agrees d
Reach-Agrees is_new = record { linked = new_registry-Linked; distinct = tt }
Reach-Agrees (changes r c) = Change-Agrees c (Reach-Agrees r)
