-- ===== src/Daemon/Resolve.antt =====
-- internal/daemon/daemon.go: resolve, and the order in which Go ranges over the sessions.
pub mod Unordered
use headless_terminal.Base.{
  Result, ok, err, ◌≡◌, refl, sym, ◌∙◌, Option, none, some, List, [], ◌∷◌, Bytes, arith, inl, inr,
  bytes_eq_iff, Option-cases,
}
use headless_terminal.Daemon.{
  ResolveError, entries, lookup_entry, lookup, Handle, Registry, scan, found_or_not, by_any,
  by_name, resolve,
}

-- No two entries have one key, as in every Go map.
abbrev pub Absent : {V : Type 0} → Bytes → List (Bytes × V) → Type 0
Absent k m = lookup_entry k m ≡ none

abbrev pub DistinctKeys : {V : Type 0} → List (Bytes × V) → Type 0
DistinctKeys [] = Unit {0}
DistinctKeys ((k, v) ∷ m) = Absent k m × DistinctKeys m

-- Another order of the same entries.
pub data Reordered {V : Type 0} : List (Bytes × V) → List (Bytes × V) → Type 0 where
  same : {m : List (Bytes × V)} → Reordered m m
  keep : {m n : List (Bytes × V)} (e : Bytes × V) → Reordered m n → Reordered (e ∷ m) (e ∷ n)
  swap : {m : List (Bytes × V)} (e f : Bytes × V) → Reordered (e ∷ f ∷ m) (f ∷ e ∷ m)
  chain : {m n o : List (Bytes × V)} → Reordered m n → Reordered n o → Reordered m o

pub lookup_entry-Reordered :
    {V : Type 0} {m n : List (Bytes × V)} (k : Bytes)
    → Reordered m n
    → DistinctKeys m
    → (lookup_entry k m ≡ lookup_entry k n) × DistinctKeys n
unfolding lookup_entry
lookup_entry-Reordered k same d = (refl, d)
lookup_entry-Reordered k (keep e r) d =
    let (p, d') = lookup_entry-Reordered k r d.1 in
    let (q, _) = lookup_entry-Reordered e.0 r d.1 in (ground (arith, p), (sym q ∙ d.0, d'))
lookup_entry-Reordered k (swap e f) d =
    let there = bytes_eq_iff e.0 f.0 in
    let back = bytes_eq_iff f.0 e.0 in
    (
      ground (arith, there, back, bytes_eq_iff e.0 k, bytes_eq_iff f.0 k),
      (ground (arith, there, back), (ground (arith, there, back), d.1.1)),
    )
lookup_entry-Reordered k (chain r s) d =
    let (p, d') = lookup_entry-Reordered k r d in
    let (q, d'') = lookup_entry-Reordered k s d' in (p ∙ q, d'')

scan-Reordered :
    {m n : List (Bytes × Handle)} (ref : Bytes) (found : Option Handle)
    → Reordered m n
    → scan ref found m ≡ scan ref found n
unfolding scan
scan-Reordered ref found same = refl
scan-Reordered ref none (keep e r) = scan-Reordered ref _ r
scan-Reordered ref (some f) (keep e r) = rw (scan-Reordered ref (some f) r)
scan-Reordered ref none (swap e f) = ground arith
scan-Reordered ref (some x) (swap e f) = ground arith
scan-Reordered ref found (chain r s) = scan-Reordered ref found r ∙ scan-Reordered ref found s

pub found_or_not-ok :
    (ref : Bytes) (r : Result ResolveError (Option Handle)) {s : Handle}
    → found_or_not ref r ≡ ok s
    → r ≡ ok (some s)
unfolding found_or_not
found_or_not-ok ref (err e) h = cc
found_or_not-ok ref (ok none) h = cc
found_or_not-ok ref (ok (some t)) h = ground arith

-- `resolve` gives the same session, or the same error, in whatever order the range of the Go map
-- of sessions goes.
pub resolve-Reordered :
    (d : Registry) (m n : List (Bytes × Handle)) (ref : Bytes)
    → Reordered m n
    → DistinctKeys m
    → resolve (record d { sessions = entries m }) ref
      ≡ resolve (record d { sessions = entries n }) ref
unfolding resolve by_name lookup
resolve-Reordered d m n [] r k = refl
resolve-Reordered d m n (c ∷ cs) r k =
    let by_id = (lookup_entry-Reordered (c ∷ cs) r k).0 in
    let by_prefix = scan-Reordered (c ∷ cs) none r in
    elim (Option-cases (lookup (c ∷ cs) d.names)) [
      | inl no_name ↦ unfold by_any in ground (arith, by_id, by_prefix)
      | inr (id, name) ↦
          unfold by_any in ground (arith, by_id, by_prefix, (lookup_entry-Reordered id r k).0)
    ]
