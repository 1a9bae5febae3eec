-- ===== src/Daemon/Handlers/Run.antt =====
-- internal/daemon/daemon.go: opRun and opWatch.
use headless_terminal.Base.{
  ℕ, ℤ, Option, none, some, List, [], ◌∷◌, ◌++◌, map, Bytes, Result, ok, err, if◌then◌else◌, update,
}
use headless_terminal.Session.{Emulator, Session, Options, start, mark_exited, subscribe_with_prime}
use headless_terminal.Daemon.{Handle, name_taken, register, park, unpark, is_nil}
use headless_terminal.Daemon.Requests.{
  RequestError, of_session, cmd_required, name_in_use, SessionInfo,
}
use headless_terminal.Daemon.Handlers.{World, session_info, find, object_of, put}

-- What opWatch waits for: nothing, or its channel.
pub data Watcher : Type 0 where
  attached : Handle → Watcher
  parked : ℕ → Watcher

-- protocol.WatchFrame.
pub data Frame : Type 0 where
  data_frame : Bytes → Frame
  eof_frame : Frame

-- The frames that opWatch writes, for the chunks that its channel gives until it is closed.
unfoldable pub frames : Bytes → List Bytes → List Frame
frames prime chunks =
    (if is_nil prime then [] else data_frame prime ∷ [])
    ++ (map (λ chunk. data_frame chunk) chunks ++ eof_frame ∷ [])

-- What ends the wait of a parked watcher: its channel gives a session, its client goes away, or
-- the daemon shuts down.
pub data Wake : Type 0 where
  gets_session : Handle → Wake
  loses_client is_shut : Wake

-- The `select` of opWatch: the session to go on with, if there is one.
unfoldable pub resume : {T : Type 0} → World T → Bytes → ℕ → Wake → World T × Option Handle
resume w ref ch (gets_session s) = (w, some s)
resume w ref ch loses_client = (record w { registry = unpark ref ch w.registry }, none)
resume w ref ch is_shut = (w, none)

module _ (em : Emulator) where
  open em use {Term}

  -- A session that Start has returned, at the reply: its waitLoop runs, so it may have exited.
  unfoldable pub run_on : Option ℤ → Session Term → Option (Session Term)
  run_on none s = some s
  run_on (some code) s = mark_exited em code s

  -- opRun. The name is checked in the world `w`, and the session is registered in the world
  -- `later`, that other requests may have made of it. `object` is the number of a new object, and `early` the exit code
  -- if waitLoop has marked the session as exited before sessionInfo reads it for the reply.
  unfoldable pub op_run :
      Bytes
      → Option ℕ
      → Option ℤ
      → ℕ
      → World Term
      → World Term
      → Options
      → Option (World Term × Result RequestError SessionInfo)
  unfolding run_on
  op_run new_id process early object w later o =
      if is_nil o.cmd
      then some (later, err cmd_required)
      else if name_taken w.registry o.name
      then some (later, err (name_in_use o.name))
      else elim (start em new_id process o) [
        | err e ↦ some (later, err (of_session e))
        | ok s ↦
            elim (register (record { id = new_id; name = o.name; object = object })
              later.registry) [
                | none ↦ none
                | some d ↦ elim (run_on early s) [
                  | none ↦ none
                  | some t ↦ some (
                    record { registry = d; objects = update later.objects object t },
                    ok (session_info em t),
                  )
                ]
              ]
      ]

  -- opWatch up to the wait for a session.
  unfoldable pub op_watch : World Term → Bytes → Option (World Term × Watcher)
  unfolding find
  op_watch w ref = elim (find em w ref) [
    | ok s ↦ some (w, attached s)
    | err e ↦ elim (park ref w.registry) [
      | none ↦ none
      | some (d, ch) ↦ some (record w { registry = d }, parked ch)
    ]
  ]

  -- opWatch when it has its session: the first bytes, and the number of the channel.
  unfoldable pub attach : World Term → Handle → Result RequestError (Bytes × World Term × ℕ)
  attach w s = elim (subscribe_with_prime em (object_of em w s)) [
    | err e ↦ err (of_session e)
    | ok (prime, t, ch) ↦ ok (prime, put em w s t, ch)
  ]
