-- ===== src/Daemon/Serve/Orphans.antt =====
-- internal/daemon/daemon.go: Run of two daemons on one socket path.
use headless_terminal.Base.{
  ℕ, ◌≡◌, ◌≢◌, Bool, true, false, ◌&&◌, Option, none, some, update, ◌==◌, arith,
}
use headless_terminal.Daemon.Serve.{
  Phase, unstarted, cleaned, accepting, Host, dial, remove_stale, listen, stop, close_listener,
  unlink, Turn, cleans, listens, is_cancelled, is_stopped, stops_accepting, fails, unlinks, ends,
  Turns, none_yet, then_turn,
}

-- Run has made its listener, or has failed before.
abbrev is_bound : Phase → Bool
is_bound unstarted = false
is_bound cleaned = false
is_bound _ = true

abbrev is_mine : ℕ → Option ℕ → Bool
is_mine i none = false
is_mine i (some k) = k == i

-- The daemon was bound, and the path is not its own or its listener is closed.
record IsOrphan (i : ℕ) (h : Host) : Type 0 where
  bound : is_bound (h.server i).phase ≡ true
  lost : (is_mine i h.socket && (h.server i).is_open) ≡ false

IsOrphan-dial : (i : ℕ) (h : Host) → IsOrphan i h → dial h ≢ some i
IsOrphan-dial i h o = ground arith

Turn-IsOrphan : {i j : ℕ} {h h' : Host} → Turn j h h' → IsOrphan i h → IsOrphan i h'
unfolding remove_stale listen stop close_listener unlink update
Turn-IsOrphan {i} {j} {h} (cleans prepares removes p) o = ground arith
Turn-IsOrphan {i} {j} {h} (listens binds p) o = ground arith
Turn-IsOrphan {i} {j} {h} is_cancelled o = ground arith
Turn-IsOrphan {i} {j} {h} (is_stopped s e) o = ground arith
Turn-IsOrphan {i} {j} {h} (stops_accepting e) o = ground arith
Turn-IsOrphan {i} {j} {h} (fails p) o = ground arith
Turn-IsOrphan {i} {j} {h} (unlinks removes r p) o = ground arith
Turn-IsOrphan {i} {j} {h} (ends r p) o = ground arith

Turns-IsOrphan : {i : ℕ} {h h' : Host} → Turns h h' → IsOrphan i h → IsOrphan i h'
Turns-IsOrphan none_yet o = o
Turns-IsOrphan (then_turn j ts t) o = Turn-IsOrphan t (Turns-IsOrphan ts o)

-- A second daemon that comes to listen on the path of one that is accepting connections takes the path
-- away from it: dials reach the second, the first is left as it was, and whatever all
-- daemons do from then on, no dial reaches the first again. When the first closes its listener, it
-- unlinks the socket of the second, which accepts still and is not reached either.
pub second_start_orphans :
    (i j : ℕ) (h h' : Host)
    → i ≢ j
    → h.socket ≡ some i
    → (h.server i).phase ≡ accepting
    → (h.server i).is_open ≡ true
    → (h.server j).phase ≡ unstarted
    → Turns (listen true j (remove_stale true true j h)) h'
    → (dial (listen true j (remove_stale true true j h)) ≡ some j)
      × ((listen true j (remove_stale true true j h)).server i ≡ h.server i)
      × (dial h' ≢ some i)
      × (dial (close_listener i (listen true j (remove_stale true true j h))) ≡ none)
      × (((close_listener i (listen true j (remove_stale true true j h))).server j).phase
          ≡ accepting)
      × (((close_listener i (listen true j (remove_stale true true j h))).server j).is_open ≡ true)
unfolding listen remove_stale close_listener update
second_start_orphans i j h h' other mine p listening q ts = (
  ground arith,
  ground arith,
  IsOrphan-dial i h' (Turns-IsOrphan ts (ground arith)),
  ground arith,
  ground arith,
  ground arith,
)
