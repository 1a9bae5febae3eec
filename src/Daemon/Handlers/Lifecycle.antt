-- ===== src/Daemon/Handlers/Lifecycle.antt =====
-- internal/daemon/daemon.go: what the handlers that end a session do, and what a send writes.
use headless_terminal.Base.{
  ℕ, ◌*◌, ◌<◌, ◌≤◌, ◌-◌, ◌^◌, ◌≡◌, ◌≢◌, refl, sym, ap, ◌∙◌, subst, Bool, true, false, Option, none,
  some, List, [], ◌++◌, Bytes, ok, err, ℤ, pos, negsuc, arith, Bool-cases, Option-cases, inl, inr,
  ◌⊎◌, update, bytes_eq_iff,
}
use headless_terminal.Session.{Emulator, Session, exited, tear_down, is_exited, signal, mark_exited}
use headless_terminal.Session.Pacing.{SendError, send_paced}
use headless_terminal.Session.Pacing.Trace.{written, send_paced-written}
use headless_terminal.Session.Chan.{close_all}
use headless_terminal.Session.Machine.{is_free}
use headless_terminal.Session.Invariant.{Inv, mark_exited-Inv}
use headless_terminal.Wait.{Seen, Event}
use headless_terminal.Daemon.{Handle, Registry, resolve, unregister, lookup}
use headless_terminal.Daemon.Names.{unregister_lookups, is_nil_iff}
use headless_terminal.Daemon.Requests.{
  of_send, session_running, SendParams, or_request, milliseconds, pos_part,
}
use headless_terminal.Daemon.Handlers.{
  World, object_of, put, find, exit_object, reply_exited, Signalled, signal_taken, send_signal,
  end_session, op_stop, close_session, op_remove, op_send, shut_down,
}

-- A duration in milliseconds is exact up to 2 ^ 63 nanoseconds, about 292 years. A longer one,
-- up to twice that, is negative.
pub milliseconds_range :
    (n : ℕ)
    → (n * 1000000 < 2 ^ 63 → milliseconds (pos n) ≡ pos (n * 1000000))
      × (2 ^ 63 ≤ n * 1000000 → n * 1000000 < 2 ^ 64 → (m : ℕ) × (milliseconds (pos n) ≡ negsuc m))
unfolding milliseconds
milliseconds_range n = (λ h. ground arith, λ l h. (2 ^ 64 - 1 - n * 1000000, ground arith))

module _ (em : Emulator) where
  open em use {Term}

  find-resolve :
      (w : World em.Term) (ref : Bytes) (s : Handle)
      → resolve w.registry ref ≡ ok s
      → find em w ref ≡ ok s
  unfolding find or_request
  find-resolve w ref s e = rw e refl

  -- The session of the handle has exited with the code: its watchers are told, and waits see it.
  pub record HasEnded (code : ℤ) (t : Session Term) : Type 0 where
    pub is_over : t.state ≡ exited
    pub its_code : t.exit_code ≡ code
    pub no_watcher : t.subs ≡ []
    pub is_done : t.done ≡ true

  pub mark_exited_lem :
      (code : ℤ) (s t : Session Term)
      → mark_exited em code s ≡ some t
      → (t.state ≡ exited) × (t.exit_code ≡ code) × (t.subs ≡ [])
  unfolding mark_exited
  mark_exited_lem code s t e = elim (Option-cases (close_all s.subs s.chans)) [
    | inl panic ↦ absurd (ground arith)
    | inr (chans, fine) ↦ (ground arith, ground arith, ground arith)
  ]

  exit_object_lem :
      (code : ℤ) (w : World em.Term) (s : Handle)
      → Inv (object_of em w s)
      → is_free (object_of em w s).reader ≡ true
      → (w' : World em.Term) × (exit_object em w s code ≡ some w')
        × (w'.registry ≡ w.registry)
        × HasEnded code (object_of em w' s)
        × ((i : ℕ) → i ≢ s.object → w'.objects i ≡ w.objects i)
  unfolding exit_object update
  exit_object_lem code w s v f =
      let (t, p, _) = mark_exited-Inv em code (object_of em w s) f v in
      let (over, c, none_left) = mark_exited_lem code (object_of em w s) t p in
      let w' = put em w s (record t { done = true }) in
      let at : object_of em w' s ≡ record t { done = true } = ground arith in
      (
        w',
        rw (p, exit_object) refl,
        refl,
        subst (HasEnded code) (sym at)
            (record { is_over = over; its_code = c; no_watcher = none_left; is_done = refl }),
        λ i ne. ground arith,
      )

  -- A stop or a kill that resolves to a running session, with its invariant and the lock free,
  -- whose process takes the signal, replies with success: the session has exited with its
  -- process's code, it has no watchers left, and nothing else in the daemon has changed. Another
  -- stop changes nothing and is a success too.
  pub op_stop_ends :
      (code code' : ℤ) (takes : Signalled) (w : World Term) (ref : Bytes) (s : Handle) (pid : ℕ)
      → resolve w.registry ref ≡ ok s
      → is_exited (object_of em w s).state ≡ false
      → (object_of em w s).pid ≡ some pid
      → Inv (object_of em w s)
      → is_free (object_of em w s).reader ≡ true
      → (w' : World Term) × (op_stop em signal_taken code w ref ≡ some (w', ok tt))
        × HasEnded code (object_of em w' s)
        × (w'.registry ≡ w.registry)
        × ((i : ℕ) → i ≢ s.object → w'.objects i ≡ w.objects i)
        × (op_stop em takes code' w' ref ≡ some (w', ok tt))
  unfolding op_stop end_session send_signal signal reply_exited
  op_stop_ends code code' takes w ref s pid r live p v f =
      let (w', e, same, ended, others) = exit_object_lem code w s v f in
      let over : is_exited (object_of em w' s).state ≡ true = rw (ended.is_over) refl in
      let r' : resolve w'.registry ref ≡ ok s = ap (λ d. resolve d ref) same ∙ r in
      (
        w',
        rw (find-resolve w ref s r, op_stop, live, send_signal, p, e) refl,
        ended,
        same,
        others,
        rw (find-resolve w' ref s r', op_stop, over) refl,
      )

  unregister_gone :
      (s : Handle) (d : Registry)
      → (lookup s.id (unregister s d).sessions ≡ none)
        × (s.name ≢ [] → lookup s.name (unregister s d).names ≡ none)
  unregister_gone s d =
      let (x, y) = unregister_lookups s d in
      (
        ground (arith, x s.id, bytes_eq_iff s.id s.id),
        λ ne. ground (arith, y s.name, is_nil_iff s.name, bytes_eq_iff s.name s.name),
      )

  -- The maps but for the session that has left them.
  pub record Without (s : Handle) (d d' : Registry) : Type 0 where
    pub no_id : lookup s.id d'.sessions ≡ none
    pub no_name : s.name ≢ [] → lookup s.name d'.names ≡ none
    pub other_ids : (k : Bytes) → k ≢ s.id → lookup k d'.sessions ≡ lookup k d.sessions
    pub other_names : (k : Bytes) → k ≢ s.name → lookup k d'.names ≡ lookup k d.names
    pub same_pending : d'.pending ≡ d.pending

  unregister_pending : (s : Handle) (d : Registry) → (unregister s d).pending ≡ d.pending
  unfolding unregister
  unregister_pending s d = ground arith

  unregister-Without : (s : Handle) (d : Registry) → Without s d (unregister s d)
  unregister-Without s d =
      let (x, y) = unregister_lookups s d in
      let (gone, unnamed) = unregister_gone s d in
      record {
        no_id = gone;
        no_name = unnamed;
        other_ids = λ k ne. ground (arith, x k, bytes_eq_iff s.id k);
        other_names = λ k ne. ground (arith, y k, bytes_eq_iff s.name k);
        same_pending = unregister_pending s d;
      }

  -- What opRemove leaves behind when Close is through.
  removed : World Term → Handle → World Term
  removed w s = record (put em w s (shut_down em (object_of em w s))) {
    registry = unregister s w.registry;
  }

  removed-gone :
      (w : World Term) (s : Handle)
      → ((object_of em (removed w s) s).term ≡ none)
        × ((object_of em (removed w s) s).state ≡ (object_of em w s).state)
        × ((i : ℕ) → i ≢ s.object → (removed w s).objects i ≡ w.objects i)
  unfolding removed shut_down tear_down update
  removed-gone w s = (ground arith, ground arith, λ i ne. ground arith)

  -- Of a remove that resolves to a session with its invariant and the lock free: if the session
  -- runs and there is no force, it is refused and changes nothing. Else it replies with success:
  -- the session has exited, its terminal is freed, it is in the maps under neither its id nor
  -- its name, the other entries of both maps and the queues of waiting clients are as before, and
  -- so are the other sessions.
  pub op_remove_removes :
      (code : ℤ) (w : World Term) (ref : Bytes) (force : Bool) (s : Handle)
      → resolve w.registry ref ≡ ok s
      → Inv (object_of em w s)
      → is_free (object_of em w s).reader ≡ true
      → ((is_exited (object_of em w s).state ≡ false)
          × (force ≡ false)
          × (op_remove em code w ref force ≡ some (w, err session_running)))
        ⊎ ((w' : World Term) × (op_remove em code w ref force ≡ some (w', ok tt))
            × (is_exited (object_of em w' s).state ≡ true)
            × ((object_of em w' s).term ≡ none)
            × Without s w.registry w'.registry
            × ((i : ℕ) → i ≢ s.object → w'.objects i ≡ w.objects i))
  unfolding op_remove close_session removed
  op_remove_removes code w ref force s r v f =
      elim (Bool-cases (is_exited (object_of em w s).state)) [
        | inl over ↦
            let (freed, state, others) = removed-gone w s in
            inr (
              removed w s,
              rw (find-resolve w ref s r, op_remove, over) refl,
              ap is_exited state ∙ over,
              freed,
              unregister-Without s w.registry,
              others,
            )
        | inr live ↦ elim (Bool-cases force) [
          | inr gentle ↦
              inl (live, gentle, rw (find-resolve w ref s r, op_remove, live, gentle) refl)
          | inl forced ↦
              let (w', e, same, ended, kept) = exit_object_lem code w s v f in
              let (freed, state, others) = removed-gone w' s in
              inr (
                removed w' s,
                rw (find-resolve w ref s r, op_remove, live, forced, e) refl,
                ap is_exited (state ∙ ended.is_over),
                freed,
                subst (λ d. Without s d (removed w' s).registry) same
                    (unregister-Without s w'.registry),
                λ i ne. others i ne ∙ kept i ne,
              )
        ]
      ]

  -- A send that resolves to a session writes a front part of the bytes to the PTY, in order, and
  -- all of them unless the reply is an error of the send, whatever the wait and the view behind
  -- it come to.
  pub op_send_writes :
      (compile : Bytes → Option (Bytes → Bool)) (fails : ℕ → Bool) (w later : World Term)
      (p : SendParams) (seen : Seen) (events : List Event) (s : Handle)
      → resolve w.registry p.id ≡ ok s
      → (rest : Bytes) × (written (op_send em compile fails w later p seen events).0 ++ rest
          ≡ p.bytes)
        × (((e : SendError)
              → (op_send em compile fails w later p seen events).1 ≢ some (err (of_send e)))
            → rest ≡ [])
  unfolding op_send
  op_send_writes compile fails w later p seen events s r =
      let out = is_exited (object_of em w s).state in
      let delay = pos_part (milliseconds p.inter_key_delay_ms) in
      let (rest, all, done) = send_paced-written fails out p.bytes delay in
      elim (Option-cases (send_paced fails out p.bytes delay).1) [
        | inl fine ↦ (rest, rw (find-resolve w p.id s r, op_send, fine) all, λ h. done fine)
        | inr (e, bad) ↦ (
          rest,
          rw (find-resolve w p.id s r, op_send, bad) all,
          λ h. absurd (h e (rw (find-resolve w p.id s r, op_send, bad) refl)),
        )
      ]
