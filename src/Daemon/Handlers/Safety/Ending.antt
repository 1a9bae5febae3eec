-- ===== src/Daemon/Handlers/Safety/Ending.antt =====
-- internal/daemon/daemon.go: the state of the daemon under opStop, opKill and opRemove.
use headless_terminal.Base.{
  ◌≡◌, refl, sym, subst, Bool, true, false, none, not, ◌&&◌, some, Bytes, ok, err, Bool-cases,
  Result-cases, inl, inr, ℤ,
}
use headless_terminal.Session.{Emulator, Session, is_exited, signal, tear_down, already_exited}
use headless_terminal.Session.Machine.{is_free}
use headless_terminal.Session.Invariant.{Inv, mark_exited-Inv}
use headless_terminal.Daemon.{Handle, unregister, resolve}
use headless_terminal.Daemon.Made.{unregister-IsMade}
use headless_terminal.Daemon.Entries.{unregister-Every}
use headless_terminal.Daemon.Requests.{of_session, unresolved, session_running, or_request}
use headless_terminal.Daemon.Handlers.{
  World, object_of, put, op_stop, op_remove, Signalled, signal_taken, signal_refused, exits_first,
  send_signal, find, exit_object, end_session, close_session, reply_exited, shut_down,
}
use headless_terminal.Daemon.Handlers.Safety.{
  IsSafe, IsFree, Gives, update-IsSafe, resolve-Inv, update_self,
}

module _ (em : Emulator) where
  open em use {Term}

  exit_object-IsSafe :
      (code : ℤ) (w : World Term) (s : Handle)
      → IsSafe em w
      → Inv (object_of em w s)
      → is_free (object_of em w s).reader ≡ true
      → (w' : World Term) × (exit_object em w s code ≡ some w')
        × IsSafe em w'
        × Inv (object_of em w' s)
  unfolding exit_object
  exit_object-IsSafe code w s z v f =
      let (t, e, i) = mark_exited-Inv em code (object_of em w s) f v in
      let t' = record t { done = true } in
      let i' : Inv t' = record {
        distinct = i.distinct;
        fresh = i.fresh;
        all_open = i.all_open;
        gone = i.gone;
        left_in = i.left_in;
      } in
      (
        put em w s t',
        rw (e, exit_object) refl,
        update-IsSafe em w s.object t' z i',
        subst Inv (sym (update_self em w.objects s.object t')) i',
      )

  send_signal-IsSafe :
      (takes : Bool) (code : ℤ) (w : World Term) (s : Handle)
      → IsSafe em w
      → Inv (object_of em w s)
      → is_free (object_of em w s).reader ≡ true
      → Gives em (send_signal em takes code w s)
  unfolding send_signal reply_exited
  send_signal-IsSafe takes code w s z v f =
      elim (Result-cases (signal em takes (object_of em w s))) [
        | inr (e, failed) ↦ (w, err (of_session e), rw (send_signal, failed) refl, z)
        | inl (u, fine) ↦
            let (w', e, z', _) = exit_object-IsSafe code w s z v f in
            (w', ok tt, rw (send_signal, fine, e) refl, z')
      ]

  signalled-IsSafe :
      (takes : Signalled) (code : ℤ) (w : World Term) (s : Handle)
      → IsSafe em w
      → Inv (object_of em w s)
      → is_free (object_of em w s).reader ≡ true
      → Gives em (elim takes [
        | signal_taken ↦ send_signal em true code w s
        | signal_refused ↦ send_signal em false code w s
        | exits_first own_code ↦ elim (exit_object em w s own_code) [
          | none ↦ none
          | some w' ↦ some (w', err (of_session already_exited))
        ]
      ])
  signalled-IsSafe signal_taken code w s z v f = send_signal-IsSafe true code w s z v f
  signalled-IsSafe signal_refused code w s z v f = send_signal-IsSafe false code w s z v f
  signalled-IsSafe (exits_first own) code w s z v f =
      let (w', e, z', _) = exit_object-IsSafe own w s z v f in
      (w', err (of_session already_exited), rw e refl, z')

  end_session-IsSafe :
      (takes : Signalled) (code : ℤ) (w : World Term) (s : Handle)
      → IsSafe em w
      → Inv (object_of em w s)
      → is_free (object_of em w s).reader ≡ true
      → Gives em (end_session em takes code w s)
  unfolding end_session
  end_session-IsSafe takes code w s z v f = elim (Bool-cases (is_exited (object_of em w s).state)) [
    | inl over ↦ (w, ok tt, rw (end_session, over) refl, z)
    | inr live ↦ rw (end_session, live) (signalled-IsSafe takes code w s z v f)
  ]

  pub op_stop-IsSafe :
      (takes : Signalled) (code : ℤ) (w : World Term) (ref : Bytes)
      → IsSafe em w
      → IsFree em w ref
      → Gives em (op_stop em takes code w ref)
  unfolding op_stop find or_request
  op_stop-IsSafe takes code w ref z f = elim (Result-cases (resolve w.registry ref)) [
    | inr (e, missing) ↦ (w, err (unresolved e), rw (op_stop, missing) refl, z)
    | inl (s, found) ↦
        let (w', r, e, z') =
          end_session-IsSafe takes code w s z (resolve-Inv em w ref s z found) (f s found) in
        (w', r, rw (op_stop, found) e, z')
  ]

  pub shut_down-Inv : (s : Session Term) → Inv s → Inv (shut_down em s)
  unfolding shut_down tear_down
  shut_down-Inv s v = record {
    distinct = v.distinct;
    fresh = v.fresh;
    all_open = v.all_open;
    gone = v.gone;
    left_in = tt;
  }

  close_session-IsSafe :
      (code : ℤ) (w : World Term) (s : Handle)
      → IsSafe em w
      → Inv (object_of em w s)
      → is_free (object_of em w s).reader ≡ true
      → (w' : World Term) × (close_session em code w s ≡ some w') × IsSafe em w'
  unfolding close_session
  close_session-IsSafe code w s z v f = elim (Bool-cases (is_exited (object_of em w s).state)) [
    | inl over ↦
        let t = shut_down em (object_of em w s) in
        (
          put em w s t,
          rw (close_session, over) refl,
          update-IsSafe em w s.object t z (shut_down-Inv (object_of em w s) v),
        )
    | inr live ↦
        let (w', e, z', i) = exit_object-IsSafe code w s z v f in
        let t = shut_down em (object_of em w' s) in
        (
          put em w' s t,
          rw (close_session, live, e) refl,
          update-IsSafe em w' s.object t z' (shut_down-Inv (object_of em w' s) i),
        )
  ]

  pub op_remove-IsSafe :
      (code : ℤ) (w : World Term) (ref : Bytes) (force : Bool)
      → IsSafe em w
      → IsFree em w ref
      → Gives em (op_remove em code w ref force)
  unfolding op_remove find or_request
  op_remove-IsSafe code w ref force z f = elim (Result-cases (resolve w.registry ref)) [
    | inr (e, missing) ↦ (w, err (unresolved e), rw (op_remove, missing) refl, z)
    | inl (s, found) ↦ elim (Bool-cases (not (is_exited (object_of em w s).state) && not force)) [
      | inl refused ↦ (w, err session_running, rw (op_remove, found, refused) refl, z)
      | inr allowed ↦
          let (w', e, z') =
            close_session-IsSafe code w s z (resolve-Inv em w ref s z found) (f s found) in
          (
            record w' { registry = unregister s w'.registry },
            ok tt,
            rw (op_remove, found, allowed, e) refl,
            record {
              made = unregister-IsMade s w'.registry z'.made;
              sound = unregister-Every (λ h. Inv (w'.objects h.object)) s w'.registry z'.sound;
            },
          )
    ]
  ]
