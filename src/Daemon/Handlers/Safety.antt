-- ===== src/Daemon/Handlers/Safety.antt =====
-- internal/daemon/daemon.go: the state of the daemon under the critical sections of the handlers. The
-- maps are made, and every registered session has its invariant.
pub mod Ending
use headless_terminal.Base.{
  ℕ, ◌≡◌, refl, sym, subst, Bool, true, not, ◌&&◌, Option, none, some, List, [], ◌∷◌, Bytes, ok,
  err, arith, Bool-cases, Result-cases, inl, inr, ℤ, update, ◌==◌,
}
use headless_terminal.Session.{Emulator, Session, Options, is_exited, start, signal, tear_down}
use headless_terminal.Session.Machine.{Step, is_free}
use headless_terminal.Session.Invariant.{Inv, start-Inv, mark_exited-Inv, Step-Inv}
use headless_terminal.Session.{subscribe_with_prime}
use headless_terminal.Session.Priming.{subscribe_with_prime-Inv}
use headless_terminal.Daemon.{
  Handle, Registry, unregister, unpark, resolve, range, name_taken, is_nil,
}
use headless_terminal.Daemon.Made.{
  IsMade, register-IsMade, unregister-IsMade, park-IsMade, unpark-IsMade,
}
use headless_terminal.Daemon.Entries.{
  Every, EveryEntry, resolve-Every, register-Every, unregister-Every,
}
use headless_terminal.Daemon.Requests.{
  of_session, unresolved, session_running, cmd_required, name_in_use, or_request,
}
use headless_terminal.Daemon.Handlers.{
  World, object_of, put, op_stop, op_remove, find, exit_object, end_session, close_session,
  reply_exited, shut_down, session_info,
}
use headless_terminal.Daemon.Handlers.Run.{op_run, run_on, op_watch, attach, attached, parked}

module _ (em : Emulator) where
  open em use {Term}

  -- Every registered session has its invariant.
  abbrev pub IsSound : (ℕ → Session Term) → Registry → Type 0
  IsSound objects d = Every (λ s. Inv (objects s.object)) d

  pub record IsSafe (w : World Term) : Type 0 where
    pub made : IsMade w.registry
    pub sound : IsSound w.objects w.registry

  EveryEntry-update :
      (objects : ℕ → Session Term) (i : ℕ) (t : Session Term) (m : List (Bytes × Handle))
      → Inv t
      → EveryEntry (λ s. Inv (objects s.object)) m
      → EveryEntry (λ s. Inv (update objects i t s.object)) m
  unfolding update
  EveryEntry-update objects i t [] v a = tt
  EveryEntry-update objects i t ((k, s) ∷ m) v (b, a) = elim (Bool-cases (s.object == i)) [
    | inl hit ↦ (rw hit v, EveryEntry-update objects i t m v a)
    | inr miss ↦ (rw miss b, EveryEntry-update objects i t m v a)
  ]

  -- One object changes, and keeps its invariant.
  pub update-IsSafe :
      (w : World Term) (i : ℕ) (t : Session Term)
      → IsSafe w
      → Inv t
      → IsSafe (record w { objects = update w.objects i t })
  update-IsSafe w i t z v = record {
    made = z.made;
    sound = EveryEntry-update w.objects i t (range w.registry.sessions) v z.sound;
  }

  resolve-Inv :
      (w : World Term) (ref : Bytes) (s : Handle)
      → IsSafe w
      → resolve w.registry ref ≡ ok s
      → Inv (object_of em w s)
  resolve-Inv w ref s z e = resolve-Every (λ h. Inv (w.objects h.object)) w.registry ref z.sound e

  -- The lock of the session that the reference resolves to is free.
  abbrev pub IsFree : World Term → Bytes → Type 0
  IsFree w ref =
      (s : Handle) → resolve w.registry ref ≡ ok s → is_free (object_of em w s).reader ≡ true

  -- A value that an operation gives, and a safe world.
  abbrev pub Gives : {A : Type 0} → Option (World Term × A) → Type 0
  Gives {A} o = (w' : World Term) × (a : A) × (o ≡ some (w', a)) × IsSafe w'

  pub update_self :
      (objects : ℕ → Session Term) (i : ℕ) (t : Session Term) → update objects i t i ≡ t
  unfolding update
  update_self objects i t = ground arith

  start_free :
      (id : Bytes) (process : Option ℕ) (o : Options) {s : Session Term}
      → start em id process o ≡ ok s
      → is_free s.reader ≡ true
  unfolding start
  start_free id process o {s} e = ground arith

  run_on-Inv :
      (early : Option ℤ) (s : Session Term)
      → Inv s
      → is_free s.reader ≡ true
      → (t : Session Term) × (run_on em early s ≡ some t) × Inv t
  unfolding run_on
  run_on-Inv none s v f = (s, refl, v)
  run_on-Inv (some code) s v f = mark_exited-Inv em code s f v

  pub op_run-IsSafe :
      (id : Bytes) (process : Option ℕ) (early : Option ℤ) (object : ℕ) (v w : World Term)
      (o : Options)
      → IsSafe w
      → Gives (op_run em id process early object v w o)
  unfolding op_run
  op_run-IsSafe id process early object v w o z = elim (Bool-cases (is_nil o.cmd)) [
    | inl empty ↦ (w, err cmd_required, rw (op_run, empty) refl, z)
    | inr cmd ↦ elim (Bool-cases (name_taken v.registry o.name)) [
      | inl taken ↦ (w, err (name_in_use o.name), rw (op_run, cmd, taken) refl, z)
      | inr free ↦ elim (Result-cases (start em id process o)) [
        | inr (e, failed) ↦ (w, err (of_session e), rw (op_run, cmd, free, failed) refl, z)
        | inl (s, began) ↦
            let h : Handle = record { id = id; name = o.name; object = object } in
            let (d, put_in, made) = register-IsMade h w.registry z.made in
            let (t, ran, i) =
              run_on-Inv early s (start-Inv em id process o began)
                (start_free id process o began) in
            let objects = update w.objects object t in
            let others =
              EveryEntry-update w.objects object t (range w.registry.sessions) i z.sound in
            let own : Inv (objects object) = subst Inv (sym (update_self w.objects object t)) i in
            (
              record { registry = d; objects = objects },
              ok (session_info em t),
              rw (op_run, cmd, free, began, put_in, ran) refl,
              record {
                made = made;
                sound = register-Every (λ k. Inv (objects k.object)) h w.registry own others put_in;
              },
            )
      ]
    ]
  ]

  pub op_watch-IsSafe : (w : World Term) (ref : Bytes) → IsSafe w → Gives (op_watch em w ref)
  unfolding op_watch find or_request
  op_watch-IsSafe w ref z = elim (Result-cases (resolve w.registry ref)) [
    | inl (s, found) ↦ (w, attached s, rw (op_watch, found) refl, z)
    | inr (e, missing) ↦
        let (d, ch, went, made, same) = park-IsMade ref w.registry z.made in
        (
          record w { registry = d },
          parked ch,
          rw (op_watch, missing, went) refl,
          record {
            made = made;
            sound =
                subst (λ m. EveryEntry (λ s. Inv (w.objects s.object)) (range m)) (sym same)
                  z.sound;
          },
        )
  ]

  pub attach-IsSafe :
      (w : World Term) (ref : Bytes) (s : Handle) {prime : Bytes} {w' : World Term} {ch : ℕ}
      → IsSafe w
      → IsFree w ref
      → resolve w.registry ref ≡ ok s
      → attach em w s ≡ ok (prime, w', ch)
      → IsSafe w'
  unfolding attach
  attach-IsSafe w ref s {prime} {w'} {ch} z f found e =
      elim (Result-cases (subscribe_with_prime em (object_of em w s))) [
        | inr (why, failed) ↦ absurd (ground arith)
        | inl ((p, t, c), went) ↦
            let v =
              subscribe_with_prime-Inv em (object_of em w s) t p c (f s found)
                (resolve-Inv w ref s z found) went in
            let after : put em w s t ≡ w' = ground arith in
            subst IsSafe after (update-IsSafe w s.object t z v)
      ]

  pub unpark-IsSafe :
      (ref : Bytes) (ch : ℕ) (w : World Term)
      → IsSafe w
      → IsSafe (record w { registry = unpark ref ch w.registry })
  unpark-IsSafe ref ch w z =
      let (made, same) = unpark-IsMade ref ch w.registry z.made in
      record {
        made = made;
        sound =
            subst (λ m. EveryEntry (λ s. Inv (w.objects s.object)) (range m)) (sym same) z.sound;
      }

  pub Step-IsSafe :
      (w : World Term) (s : Handle) (t : Session Term) (ref : Bytes)
      → IsSafe w
      → resolve w.registry ref ≡ ok s
      → Step em (object_of em w s) t
      → IsSafe (put em w s t)
  Step-IsSafe w s t ref z found st =
      update-IsSafe w s.object t z (Step-Inv em st (resolve-Inv w ref s z found))
