-- ===== src/Server/Safety.antt =====
-- internal/daemon/daemon.go from New to closeAllSessions: sessions whose goroutines take steps, and requests whose
-- critical sections run, in any order.
use headless_terminal.Base.{
  ℕ, ◌≡◌, refl, subst, Bool, true, false, Option, some, Bytes, Result, ok, ℤ, arith,
}
use headless_terminal.Session.{Emulator, Session, Options}
use headless_terminal.Session.Machine.{Step}
use headless_terminal.Daemon.{Handle, unpark, new_registry, resolve}
use headless_terminal.Daemon.Requests.{RequestError, SessionInfo}
use headless_terminal.Daemon.Handlers.{World, Signalled, object_of, put, op_stop, op_remove}
use headless_terminal.Daemon.Handlers.Run.{op_run, op_watch, attach, Watcher}
use headless_terminal.Daemon.Handlers.Safety.{
  IsSafe, IsFree, Gives, op_run-IsSafe, op_watch-IsSafe, attach-IsSafe, unpark-IsSafe, Step-IsSafe,
}
use headless_terminal.Daemon.Handlers.Safety.Ending.{op_stop-IsSafe, op_remove-IsSafe}
use headless_terminal.Wire.{Op, send_op, view_op, watch_op, wait_op}

module _ (em : Emulator) where
  open em use {Term}

  -- One step of the daemon: a step of a session, or a critical section of a handler. opRun tests the
  -- name in an earlier world.
  pub data WorldStep : World Term → World Term → Type 0 where
    by_session :
        {w : World Term} (ref : Bytes) (s : Handle) (t : Session Term)
        → resolve w.registry ref ≡ ok s
        → Step em (object_of em w s) t
        → WorldStep w (put em w s t)
    by_run :
        {w w' : World Term} (id : Bytes) (process : Option ℕ) (early : Option ℤ) (object : ℕ)
        (v : World Term) (o : Options) {r : Result RequestError SessionInfo}
        → op_run em id process early object v w o ≡ some (w', r)
        → WorldStep w w'
    by_stop :
        {w w' : World Term} (takes : Signalled) (code : ℤ) (ref : Bytes)
        {r : Result RequestError Unit}
        → IsFree em w ref
        → op_stop em takes code w ref ≡ some (w', r)
        → WorldStep w w'
    by_remove :
        {w w' : World Term} (code : ℤ) (ref : Bytes) (force : Bool) {r : Result RequestError Unit}
        → IsFree em w ref
        → op_remove em code w ref force ≡ some (w', r)
        → WorldStep w w'
    by_watch :
        {w w' : World Term} (ref : Bytes) {r : Watcher}
        → op_watch em w ref ≡ some (w', r)
        → WorldStep w w'
    by_attach :
        {w w' : World Term} (ref : Bytes) (s : Handle) {prime : Bytes} {ch : ℕ}
        → IsFree em w ref
        → resolve w.registry ref ≡ ok s
        → attach em w s ≡ ok (prime, w', ch)
        → WorldStep w w'
    by_unpark :
        {w : World Term} (ref : Bytes) (ch : ℕ)
        → WorldStep w (record w { registry = unpark ref ch w.registry })

  pub data WorldReach (w : World Term) : World Term → Type 0 where
    here : WorldReach w w
    later : {v v' : World Term} → WorldReach w v → WorldStep v v' → WorldReach w v'

  -- The daemon as New makes it, whatever the objects that will hold its sessions.
  abbrev pub fresh_world : (ℕ → Session Term) → World Term
  fresh_world objects = record { registry = new_registry; objects = objects }

  fresh_world-IsSafe : (objects : ℕ → Session Term) → IsSafe em (fresh_world objects)
  fresh_world-IsSafe objects = record {
    made = record { sessions = refl; names = refl; pending = refl };
    sound = tt;
  }

  given :
      {A : Type 0} {o : Option (World Term × A)} {w' : World Term} {a : A}
      → Gives em o
      → o ≡ some (w', a)
      → IsSafe em w'
  given {o} {w'} {a} (v, b, e, z) q = let same : v ≡ w' = ground arith in subst (IsSafe em) same z

  WorldStep-IsSafe : {w w' : World Term} → WorldStep w w' → IsSafe em w → IsSafe em w'
  WorldStep-IsSafe {w} (by_session ref s t found st) z = Step-IsSafe em w s t ref z found st
  WorldStep-IsSafe {w} (by_run id process early object v o e) z =
      given (op_run-IsSafe em id process early object v w o z) e
  WorldStep-IsSafe {w} (by_stop takes code ref f e) z =
      given (op_stop-IsSafe em takes code w ref z f) e
  WorldStep-IsSafe {w} (by_remove code ref force f e) z =
      given (op_remove-IsSafe em code w ref force z f) e
  WorldStep-IsSafe {w} (by_watch ref e) z = given (op_watch-IsSafe em w ref z) e
  WorldStep-IsSafe {w} (by_attach ref s f found e) z = attach-IsSafe em w ref s z f found e
  WorldStep-IsSafe {w} (by_unpark ref ch) z = unpark-IsSafe em ref ch w z

  -- Whatever steps the daemon has taken since New, its three maps are made, and every session
  -- that it has registered has its invariant.
  pub WorldReach-IsSafe :
      {objects : ℕ → Session Term} {w : World Term}
      → WorldReach (fresh_world objects) w
      → IsSafe em w
  WorldReach-IsSafe {objects} here = fresh_world-IsSafe objects
  WorldReach-IsSafe (later r st) = WorldStep-IsSafe st (WorldReach-IsSafe r)

  -- The operations that take a view of a terminal, or may do so.
  abbrev pub takes_view : Op → Bool
  takes_view send_op = true
  takes_view view_op = true
  takes_view watch_op = true
  takes_view wait_op = true
  takes_view _ = false
