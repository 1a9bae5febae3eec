-- ===== src/Server/Answers.antt =====
-- internal/daemon/daemon.go: handleConn on a request that went through JSON.
use headless_terminal.Base.{◌≡◌, refl, ap, ◌∙◌, some, append-nil, bytes_eq, sym, [], ◌∷◌, ◌++◌}
use headless_terminal.Session.{Emulator}
use headless_terminal.Daemon.Handlers.{World}
use headless_terminal.Wire.{
  Op, run_op, list_op, stop_op, kill_op, remove_op, send_op, view_op, watch_op, wait_op,
  daemon_stop_op, op_name, Params, Json, lines, line_of, newline,
}
use headless_terminal.Wire.Lines.{CarriesRequest, lines-line_of}
use headless_terminal.Server.{
  Surroundings, handle, handle_conn, op_of, answer, read_request, dispatch, finish,
}

op_of-op_name : (op : Op) → op_of (op_name op) ≡ some op
unfolding op_of bytes_eq
op_of-op_name run_op = refl
op_of-op_name list_op = refl
op_of-op_name stop_op = refl
op_of-op_name kill_op = refl
op_of-op_name remove_op = refl
op_of-op_name send_op = refl
op_of-op_name view_op = refl
op_of-op_name watch_op = refl
op_of-op_name wait_op = refl
op_of-op_name daemon_stop_op = refl

module _ (em : Emulator) (json : Json) where
  open em use {Term}

  pub handle_conn-request :
      (env : Surroundings em) (w : World Term) (op : Op) (p : Params op)
      (k : CarriesRequest json op p)
      → handle_conn em json env w
          (line_of (json.request.marshal (record { op = op_name op; params = k.raw })))
        ≡ finish em json op (handle em env w op p)
  unfolding handle_conn read_request answer dispatch
  handle_conn-request env w op p k =
      let line = line_of (json.request.marshal (record { op = op_name op; params = k.raw })) in
      let read : lines line ≡ (k.request.text ++ newline ∷ []) ∷ lines [] =
        ap lines (sym (append-nil line))
        ∙ lines-line_of json.request (record { op = op_name op; params = k.raw }) [] k.request in
      rw (read, handle_conn, k.request.unmarshals, op_of-op_name op, k.decodes) refl
