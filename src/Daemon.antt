-- ===== src/Daemon.antt =====
-- internal/daemon/daemon.go: the daemon's maps and what its handlers do to them under the lock.
-- `Daemon.Handlers` has the handlers of the requests. A session is its handle: the fields that
-- never change, and the number of the object. A write to a nil map is `none`, a panic.
pub mod Resolve
pub mod Names
pub mod Made
pub mod Entries
pub mod Meaning
pub mod Waiting
pub mod Follow
pub mod Requests
pub mod Handlers
pub mod Serve
pub mod Changes
pub mod Sends
use headless_terminal.Base.{
  ℕ, ◌+◌, suc, Bool, true, false, not, ◌&&◌, ◌||◌, Option, none, some, List, [], ◌∷◌, ◌++◌, map,
  Bytes, codes, Result, ok, err, ◌==◌, if◌then◌else◌, bytes_eq, has_prefix,
}
use headless_terminal.Session.{Format, plain, vt, html}

-- A Go map from strings, in the order in which a range goes through it.
pub data GoMap (V : Type 0) : Type 0 where
  nil_map : GoMap V
  entries : List (Bytes × V) → GoMap V

module _ {V : Type 0} where
  unfoldable pub lookup_entry : Bytes → List (Bytes × V) → Option V
  unfolding bytes_eq
  lookup_entry k [] = none
  lookup_entry k ((j, v) ∷ m) = if bytes_eq j k then some v else lookup_entry k m

  -- v, ok := m[k].
  unfoldable pub lookup : Bytes → GoMap V → Option V
  lookup k nil_map = none
  lookup k (entries m) = lookup_entry k m

  unfoldable pub delete_entry : Bytes → List (Bytes × V) → List (Bytes × V)
  delete_entry k [] = []
  delete_entry k ((j, v) ∷ m) = if bytes_eq j k then delete_entry k m else (j, v) ∷ delete_entry k m

  -- delete(m, k), which a nil map takes.
  unfoldable pub delete : Bytes → GoMap V → GoMap V
  delete k nil_map = nil_map
  delete k (entries m) = entries (delete_entry k m)

  -- m[k] = v, which panics on a nil map.
  unfoldable pub insert : Bytes → V → GoMap V → Option (GoMap V)
  insert k v nil_map = none
  insert k v (entries m) = some (entries ((k, v) ∷ delete_entry k m))

-- *session.Session.
pub record Handle : Type 0 where
  pub id : Bytes
  pub name : Bytes
  pub object : ℕ

-- The part of Daemon behind its lock. `sent` are the sessions that were sent to the channels of
-- waiting watchers, each with the channel's number, the newest first.
pub record Registry : Type 0 where
  pub sessions : GoMap Handle
  pub names : GoMap Bytes
  pub pending : GoMap (List ℕ)
  pub next_chan : ℕ
  pub sent : List (ℕ × Handle)

-- New.
abbrev pub new_registry : Registry
new_registry = record {
  sessions = entries [];
  names = entries [];
  pending = entries [];
  next_chan = 0;
  sent = [];
}

pub data ResolveError : Type 0 where
  id_required : ResolveError
  ambiguous : Bytes → ResolveError
  not_found : Bytes → ResolveError

-- The range over the sessions, with the variable `match`.
unfoldable pub scan :
    Bytes → Option Handle → List (Bytes × Handle) → Result ResolveError (Option Handle)
unfolding has_prefix
scan ref found [] = ok found
scan ref none ((id, s) ∷ m) = scan ref (if has_prefix id ref then some s else none) m
scan ref (some f) ((id, s) ∷ m) =
    if has_prefix id ref then err (ambiguous ref) else scan ref (some f) m

abbrev pub range : {V : Type 0} → GoMap V → List (Bytes × V)
range nil_map = []
range (entries m) = m

pub found_or_not : Bytes → Result ResolveError (Option Handle) → Result ResolveError Handle
found_or_not ref (err e) = err e
found_or_not ref (ok (some s)) = ok s
found_or_not ref (ok none) = err (not_found ref)

-- A name whose session is there.
unfoldable pub by_name : Registry → Bytes → Option Handle
by_name d ref = elim (lookup ref d.names) [ none ↦ none | some id ↦ lookup id d.sessions ]

by_id_or_prefix : Registry → Bytes → Option Handle → Result ResolveError Handle
unfolding found_or_not
by_id_or_prefix d ref (some s) = ok s
by_id_or_prefix d ref none = found_or_not ref (scan ref none (range d.sessions))

by_any : Registry → Bytes → Option Handle → Result ResolveError Handle
unfolding by_id_or_prefix
by_any d ref (some s) = ok s
by_any d ref none = by_id_or_prefix d ref (lookup ref d.sessions)

-- resolve.
unfoldable pub resolve : Registry → Bytes → Result ResolveError Handle
unfolding by_any
resolve d [] = err id_required
resolve d (c ∷ cs) = by_any d (c ∷ cs) (by_name d (c ∷ cs))

-- `if _, exists := d.names[p.Name]; exists`, under `p.Name != ""`.
unfoldable pub name_taken : Registry → Bytes → Bool
name_taken d [] = false
name_taken d (c ∷ cs) = elim (lookup (c ∷ cs) d.names) [ none ↦ false | some id ↦ true ]

abbrev or_empty : Option (List ℕ) → List ℕ
or_empty none = []
or_empty (some l) = l

-- `for _, ch := range waiters { ch <- s; close(ch) }`.
abbrev pub send_all : Handle → List ℕ → List (ℕ × Handle) → List (ℕ × Handle)
send_all s [] sent = sent
send_all s (ch ∷ chs) sent = send_all s chs ((ch, s) ∷ sent)

register_name : Handle → Bytes → Registry → Option Registry
register_name s [] d = some d
register_name s (c ∷ cs) d = elim (insert (c ∷ cs) s.id d.names) [
  | none ↦ none
  | some names ↦ some (record d {
    names = names;
    pending = delete (c ∷ cs) d.pending;
    sent = send_all s (or_empty (lookup (c ∷ cs) d.pending)) d.sent;
  })
]

-- The second critical section of opRun, and the sends behind it.
unfoldable pub register : Handle → Registry → Option Registry
unfolding register_name
register s d = elim (insert s.id s d.sessions) [
  | none ↦ none
  | some sessions ↦ register_name s s.name (record d { sessions = sessions })
]

unregister_name : Bytes → Registry → Registry
unregister_name [] d = d
unregister_name (c ∷ cs) d = record d { names = delete (c ∷ cs) d.names }

-- The critical section of opRemove.
unfoldable pub unregister : Handle → Registry → Registry
unfolding unregister_name
unregister s d = unregister_name s.name (record d { sessions = delete s.id d.sessions })

-- opWatch on a reference that does not resolve: a channel is queued under it.
unfoldable pub park : Bytes → Registry → Option (Registry × ℕ)
park ref d = elim (insert ref (or_empty (lookup ref d.pending) ++ d.next_chan ∷ []) d.pending) [
  | none ↦ none
  | some pending ↦ some (record d { pending = pending; next_chan = d.next_chan + 1 }, d.next_chan)
]

-- `append(q[:i], q[i+1:]...)` at the first `ch == ready`.
unfoldable pub drop_chan : ℕ → List ℕ → List ℕ
drop_chan ch [] = []
drop_chan ch (x ∷ xs) = if x == ch then xs else x ∷ drop_chan ch xs

abbrev pub is_nil {ℓ} : {A : Type ℓ} → List A → Bool
is_nil [] = true
is_nil (x ∷ xs) = false

-- opWatch when its client goes away before a session appears.
unfoldable pub unpark : Bytes → ℕ → Registry → Registry
unpark ref ch d = elim (lookup ref d.pending) [
  | none ↦ d
  | some q ↦
      if is_nil (drop_chan ch q)
      then record d { pending = delete ref d.pending }
      else record d { pending = entries ((ref, drop_chan ch q) ∷ range (delete ref d.pending)) }
]

-- The critical section of closeAllSessions; what it closes is the range of the old map.
unfoldable pub close_all_sessions : Registry → Registry × List Handle
close_all_sessions d =
    (record d { sessions = nil_map; names = nil_map }, map (λ e. e.1) (range d.sessions))
