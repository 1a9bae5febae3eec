-- ===== src/Daemon/Serve.antt =====
-- internal/daemon/daemon.go: Run and stop, for daemons on one socket path, whose goroutines take turns. The
-- path holds the socket of one daemon at most, which is known by a number. Closing a listener
-- unlinks its path by name, as package net documents.
pub mod Ending
pub mod Orphans
use headless_terminal.Base.{
  ℕ, ◌≡◌, Bool, true, false, not, ◌&&◌, ◌||◌, Option, none, some, Result, ok, err, if◌then◌else◌,
  update,
}

-- Why Run fails.
pub data ServeError : Type 0 where
  cannot_prepare cannot_listen cannot_accept : ServeError

-- Where the goroutine of Run is: before the stale socket is removed, before net.Listen, in the
-- loop, and behind each of the three deferred calls.
pub data Phase : Type 0 where
  unstarted cleaned accepting : Phase
  leaving unlinked ended : Result ServeError (Unit {0}) → Phase

-- Whether the context is done, `shutdown` is closed, `once` has run and the listener is open.
pub record Server : Type 0 where
  pub phase : Phase
  pub ctx_done : Bool
  pub shutdown_closed : Bool
  pub once_done : Bool
  pub is_open : Bool

-- The socket at the path, and the daemons.
pub record Host : Type 0 where
  pub socket : Option ℕ
  pub server : ℕ → Server

abbrev pub put_server : Host → ℕ → Server → Host
put_server h i s = record h { server = update h.server i s }

-- A dial of the path: the daemon that it reaches.
abbrev pub dial_socket : Option ℕ → (ℕ → Server) → Option ℕ
dial_socket none servers = none
dial_socket (some i) servers = if (servers i).is_open then some i else none

abbrev pub dial : Host → Option ℕ
dial h = dial_socket h.socket h.server

-- os.Remove of the path, which may fail. Run does not look at its error.
remove_path : Bool → Option ℕ → Option ℕ
remove_path true socket = none
remove_path false socket = socket

-- prepareSocketDir, and os.Remove of what is at the path.
unfoldable pub remove_stale : Bool → Bool → ℕ → Host → Host
unfolding remove_path
remove_stale prepares removes i h =
    if prepares
    then record (put_server h i (record (h.server i) { phase = cleaned })) {
      socket = remove_path removes h.socket;
    }
    else put_server h i (record (h.server i) { phase = ended (err cannot_prepare) })

-- net.Listen, which fails where there is a socket, and may fail where there is none.
listen_at : Bool → Option ℕ → ℕ → Host → Host
listen_at true none i h =
    record (put_server h i (record (h.server i) { phase = accepting; is_open = true })) {
      socket = some i;
    }
listen_at _ _ i h = put_server h i (record (h.server i) { phase = ended (err cannot_listen) })

unfoldable pub listen : Bool → ℕ → Host → Host
unfolding listen_at
listen binds i h = listen_at binds h.socket i h

-- stop. `none` is the panic of a second close.
unfoldable pub stop : Server → Option Server
stop s =
    if s.once_done
    then some s
    else if s.shutdown_closed
    then none
    else some (record s { once_done = true; shutdown_closed = true })

-- The first Close of a listener unlinks the path; another does nothing.
unfoldable pub close_listener : ℕ → Host → Host
close_listener i h =
    if (h.server i).is_open
    then record (put_server h i (record (h.server i) { is_open = false })) { socket = none }
    else h

-- Run on an error of Accept: what it returns. The flag says that the error is net.ErrClosed.
unfoldable pub accept_failed : Bool → Server → Result ServeError (Unit {0})
accept_failed is_closed s =
    if s.ctx_done
    then ok tt
    else if s.shutdown_closed
    then ok tt
    else if is_closed
    then ok tt
    else err cannot_accept

abbrev pub to_phase : ℕ → Phase → Host → Host
to_phase i p h = put_server h i (record (h.server i) { phase = p })

-- The first two deferred calls: Close, and os.Remove of the path.
unfoldable pub unlink : Bool → ℕ → Result ServeError (Unit {0}) → Host → Host
unfolding close_listener remove_path
unlink removes i r h =
    let closed = close_listener i h in
    record (to_phase i (unlinked r) closed) { socket = remove_path removes closed.socket }

-- A step of the daemon with a number, of Run or of the goroutine that closes the listener. An error of Accept is net.ErrClosed exactly if the listener is closed.
pub data Turn (i : ℕ) (h : Host) : Host → Type 0 where
  cleans :
      (prepares removes : Bool)
      → (h.server i).phase ≡ unstarted
      → Turn i h (remove_stale prepares removes i h)
  listens : (binds : Bool) → (h.server i).phase ≡ cleaned → Turn i h (listen binds i h)
  is_cancelled : Turn i h (put_server h i (record (h.server i) { ctx_done = true }))
  is_stopped : (s : Server) → stop (h.server i) ≡ some s → Turn i h (put_server h i s)
  stops_accepting :
      ((h.server i).ctx_done || (h.server i).shutdown_closed) ≡ true → Turn i h (close_listener i h)
  fails :
      (h.server i).phase ≡ accepting
      → Turn i h (to_phase i (leaving (accept_failed (not (h.server i).is_open) (h.server i))) h)
  unlinks :
      (removes : Bool) (r : Result ServeError (Unit {0}))
      → (h.server i).phase ≡ leaving r
      → Turn i h (unlink removes i r h)
  ends :
      (r : Result ServeError (Unit {0}))
      → (h.server i).phase ≡ unlinked r
      → Turn i h (to_phase i (ended r) h)

-- What the daemons do, in any order.
pub data Turns (h : Host) : Host → Type 0 where
  none_yet : Turns h h
  then_turn : {h' h'' : Host} (i : ℕ) → Turns h h' → Turn i h' h'' → Turns h h''

-- New, for every number, with whatever an earlier run has left at the path.
abbrev pub new_server : Server
new_server = record {
  phase = unstarted;
  ctx_done = false;
  shutdown_closed = false;
  once_done = false;
  is_open = false;
}
