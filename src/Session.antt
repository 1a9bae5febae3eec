-- ===== src/Session.antt =====
-- internal/session/session.go: a session's state and its operations under the lock. The child's
-- process, the PTY and the goroutines that wait for them are steps of `Session.Machine`; the
-- terminal emulator is a parameter.
pub mod Pacing
pub mod Chan
pub mod Ids
mod Subs
pub mod Machine
pub mod Invariant
pub mod Stream
pub mod Priming
pub mod Deadlock
use headless_terminal.Base.{
  ℕ, ◌+◌, ◌%◌, ◌≡◌, Bool, true, false, not, ◌||◌, Option, none, some, List, [], ◌∷◌, ◌++◌, Bytes,
  codes, Result, ok, err, ◌>>=◌, ℤ, pos, ◌==◌, if◌then◌else◌, update,
}
use Chan.{Channel, Channels, new_channel, close_at, push, close_all}

-- State.
pub data State : Type 0 where
  starting running exited : State

-- State.String.
unfoldable pub state_string : State → Bytes
state_string starting = codes "starting"
state_string running = codes "running"
state_string exited = codes "exited"

abbrev pub is_exited : State → Bool
is_exited exited = true
is_exited starting = false
is_exited running = false

-- Format.
pub data Format : Type 0 where
  plain vt html : Format

-- What a render state says of the cursor; `none` is an error of the call.
pub record Render : Type 0 where
  pub visible : Option Bool
  pub in_view : Option Bool
  pub x : Option ℕ
  pub y : Option ℕ

-- libghostty: a terminal that is fed bytes, formatted, resized and rendered. `none` is an error.
pub record Emulator : Type 1 where
  pub Term : Type 0
  pub create : ℕ → ℕ → Option Term
  pub makes_render_state : Bool
  pub feed : Term → Bytes → Term
  pub format : Format → Term → Option Bytes
  pub resize_term : ℕ → ℕ → Term → Option Term
  pub render : Term → Option Render

-- What readLoop is at: reading the PTY, or handing a chunk to the subscribers that are left, with
-- the lock held.
pub data Reader : Type 0 where
  reading : Reader
  fanning : Bytes → List ℕ → Reader
  ended : Reader

-- The mutable part of Session. `term` is nil after Close.
pub record Session (Term : Type 0) : Type 0 where
  pub id : Bytes
  pub name : Bytes
  pub cmd : List Bytes
  pub pid : Option ℕ
  pub term : Option Term
  pub state : State
  pub exit_code : ℤ
  pub cols : ℕ
  pub rows : ℕ
  pub subs : List ℕ
  pub next_sub : ℕ
  pub chans : Channels
  pub reader : Reader
  pub done : Bool

-- Options.
pub record Options : Type 0 where
  pub cmd : List Bytes
  pub cols : ℕ
  pub rows : ℕ
  pub name : Bytes

-- Snapshot.
pub record Snapshot : Type 0 where
  pub screen : Bytes
  pub cols : ℕ
  pub rows : ℕ
  pub cursor_row : ℕ
  pub cursor_col : ℕ
  pub cursor_vis : Bool

-- The errors of a session's operations, and `nil_terminal`, which is no error but the panic of a use of the terminal
-- after Close.
pub data SessionError : Type 0 where
  empty_cmd new_terminal new_render_state pty_start : SessionError
  format_failed nil_terminal : SessionError
  zero_size setsize_failed resize_failed : SessionError
  already_exited no_process signal_failed : SessionError

abbrev or_default : ℕ → ℕ → ℕ
or_default n d = if n == 0 then d else n

or_err {ℓ} : {A : Type ℓ} → Option A → SessionError → Result SessionError A
or_err none e = err e
or_err (some a) e = ok a

check_cmd : List Bytes → Result SessionError (List Bytes)
check_cmd [] = err empty_cmd
check_cmd (c ∷ cs) = ok (c ∷ cs)

-- uint16(v) + 1.
abbrev one_based : ℕ → ℕ
one_based v = (v % 65536 + 1) % 65536

abbrev position_of : Option ℕ → ℕ
position_of none = 0
position_of (some v) = one_based v

with_cursor : Snapshot → Option Render → Snapshot
with_cursor snap none = snap
with_cursor snap (some r) = record snap {
  cursor_vis = elim r.visible [ none ↦ false | some v ↦ v ];
  cursor_col = elim r.in_view [ some true ↦ position_of r.x | _ ↦ 0 ];
  cursor_row = elim r.in_view [ some true ↦ position_of r.y | _ ↦ 0 ];
}

-- `delete(s.subs, id)`, and the test whether it is there.
unfoldable pub has_sub : ℕ → List ℕ → Bool
has_sub id [] = false
has_sub id (i ∷ is) = i == id || has_sub id is

unfoldable pub delete_sub : ℕ → List ℕ → List ℕ
delete_sub id [] = []
delete_sub id (i ∷ is) = if i == id then is else i ∷ delete_sub id is

-- Cursor home and clear screen.
abbrev pub clear : Bytes
clear = 0x1b ∷ (codes "[H" ++ (0x1b ∷ codes "[2J"))

module _ (em : Emulator) where
  open em use {Term, create, makes_render_state, feed, format, resize_term, render}

  -- Start. The PTY gives the process its id, or fails.
  unfoldable pub start : Bytes → Option ℕ → Options → Result SessionError (Session Term)
  unfolding check_cmd or_err
  start new_id process o = do
    cmd ← check_cmd o.cmd
    let cols = or_default o.cols 80
    let rows = or_default o.rows 24
    term ← or_err (create cols rows) new_terminal
    _ ← if makes_render_state then ok (tt {0}) else err new_render_state
    pid ← or_err process pty_start
    ok (record {
      id = new_id;
      name = o.name;
      cmd = cmd;
      pid = some pid;
      term = some term;
      state = running;
      exit_code = pos 0;
      cols = cols;
      rows = rows;
      subs = [];
      next_sub = 0;
      chans = λ _. new_channel;
      reader = reading;
      done = false;
    })

  -- snapshotLocked. On a nil terminal the source has no error: it dereferences nil, which is a panic. `nil_terminal`
  -- is that panic on its way up, and the handlers of the daemon end in it.
  unfoldable pub view : Format → Session Term → Result SessionError Snapshot
  unfolding or_err with_cursor
  view f s = do
    term ← or_err s.term nil_terminal
    screen ← or_err (format f term) format_failed
    ok (
        with_cursor
          (record {
            screen = screen;
            cols = s.cols;
            rows = s.rows;
            cursor_row = 0;
            cursor_col = 0;
            cursor_vis = false;
          })
          (render term))

  -- Subscribe: the session, and the number of the channel. One that subscribes to an exited
  -- session gets a closed channel that the session does not keep.
  unfoldable pub subscribe : Session Term → Session Term × ℕ
  subscribe s =
      let id = s.next_sub in
      let counted = record s { next_sub = s.next_sub + 1 } in
      (
        if is_exited s.state
            then record counted { chans = update s.chans id (record new_channel { closed = true }) }
            else record counted { subs = id ∷ s.subs; chans = update s.chans id new_channel },
        id,
      )

  -- SubscribeWithPrime.
  unfoldable pub subscribe_with_prime :
      Session Term → Result SessionError (Bytes × Session Term × ℕ)
  subscribe_with_prime s =
      view vt s >>= λ snap. ok (clear ++ snap.screen, (subscribe s).0, (subscribe s).1)

  -- The function that Subscribe returns. `none` is a panic.
  unfoldable pub unsubscribe : ℕ → Session Term → Option (Session Term)
  unsubscribe id s =
      if has_sub id s.subs
      then elim (close_at id s.chans) [
        | none ↦ none
        | some chans ↦ some (record s { subs = delete_sub id s.subs; chans = chans })
      ]
      else some s

  -- The critical section of waitLoop. `none` is a panic.
  unfoldable pub mark_exited : ℤ → Session Term → Option (Session Term)
  mark_exited code s = elim (close_all s.subs s.chans) [
    | none ↦ none
    | some chans ↦ some (record s { state = exited; exit_code = code; subs = []; chans = chans })
  ]

  -- readLoop with a chunk and the lock: the terminal takes it, then the subscribers.
  unfoldable pub take_output : Bytes → Session Term → Session Term
  take_output chunk s = elim s.term [
    | none ↦ record s { reader = ended }
    | some term ↦ record s { term = some (feed term chunk); reader = fanning chunk s.subs }
  ]

  -- `ch <- chunk` for one subscriber. `none` is a panic.
  unfoldable pub deliver : Bytes → List ℕ → ℕ → Session Term → Option (Session Term)
  deliver chunk left id s = elim (push chunk (s.chans id)) [
    | none ↦ none
    | some ch ↦
        some
          (record s { chans = update s.chans id ch; reader = fanning chunk (delete_sub id left) })
  ]

  -- Resize, where the PTY takes the size or not.
  unfoldable pub resize : Bool → ℕ → ℕ → Session Term → Result SessionError (Session Term)
  unfolding or_err
  resize pty_takes cols rows s =
      if cols == 0 || rows == 0
      then err zero_size
      else if not pty_takes
      then err setsize_failed
      else (do
        term ← or_err s.term nil_terminal
        term' ← or_err (resize_term cols rows term) resize_failed
        ok (record s { term = some term'; cols = cols; rows = rows }))

  -- signal, where the process takes the signal or not.
  unfoldable pub signal : Bool → Session Term → Result SessionError (Unit {0})
  unfolding or_err
  signal process_takes s =
      if is_exited s.state
      then err already_exited
      else (or_err s.pid no_process >>= λ _. if process_takes then ok tt else err signal_failed)

  -- The end of Close, behind `<-s.done` and `<-s.readDone`.
  unfoldable pub tear_down : Session Term → Session Term
  tear_down s = record s { term = none }
