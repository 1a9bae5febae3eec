-- ===== src/Client/Calls.antt =====
-- internal/client/client.go and internal/daemon/daemon.go: `call`, through JSON and the connection, against
-- the handlers.
use headless_terminal.Base.{
  ◌≡◌, refl, sym, ap, ◌∙◌, subst, true, false, Option, none, some, List, [], ◌++◌, append-nil,
  Bytes, Result, ok, err, ◌>>=◌,
}
use headless_terminal.Session.{Emulator}
use headless_terminal.Session.Pacing.{Action}
use headless_terminal.Daemon.Requests.{RequestError}
use headless_terminal.Daemon.Handlers.{World}
use headless_terminal.Daemon.Handlers.Run.{Frame}
use headless_terminal.Wire.{
  Op, op_name, Params, Reply, Response, of_request, Json, line_of, encode_reply, decode_reply,
  write_err, write_frames,
}
use headless_terminal.Wire.Lines.{Carries, CarriesRequest, lines-line_of, write_ok_lem}
use headless_terminal.Server.{Surroundings, replies, handle, handle_conn, Served, served, finish}
use headless_terminal.Server.Answers.{handle_conn-request}
use headless_terminal.Client.{
  CallError, bad_result, remote, call, request_line, or_fail, first_line, check_ok,
}

-- The answer goes through JSON: an error in the response, or a result on its own and in it.
-- `shown` is what the client makes of the result: nothing, for an operation that has none.
pub data CarriesAnswer (json : Json) (op : Op)
    : Result RequestError (Reply op) → Result CallError (Option (Reply op)) → Type 0 where
  error_through :
      (e : RequestError)
      → Carries json.response
          (record { is_ok = false; error = some (of_request e); payload = none })
      → CarriesAnswer json op (err e) (err (remote (some (of_request e))))
  result_through :
      (r : Reply op) (payload : Option Bytes) (shown : Option (Reply op))
      → encode_reply json op r ≡ some payload
      → decode_reply json op payload ≡ some shown
      → Carries json.response (record { is_ok = true; error = none; payload = payload })
      → CarriesAnswer json op (ok r) (ok shown)

-- A request that went through JSON gets the response that is the first line of what comes back.
call-response :
    (json : Json) (net : Bytes → Option Bytes) (op : Op) (p : Params op)
    (k : CarriesRequest json op p) (resp : Response) (c : Carries json.response resp) (rest : Bytes)
    → net (line_of (json.request.marshal (record { op = op_name op; params = k.raw })))
      ≡ some (line_of (json.response.marshal resp) ++ rest)
    → call json net op p
      ≡ (check_ok resp >>= λ payload. or_fail bad_result (decode_reply json op payload))
unfolding call request_line or_fail first_line
call-response json net op p k resp c rest h =
    let text = k.request.text in
    let sent : net (line_of (some text)) ≡ some (line_of (json.response.marshal resp) ++ rest) =
      subst (λ t. net (line_of t) ≡ some (line_of (json.response.marshal resp) ++ rest))
        k.request.marshals h in
    rw (k.encodes, k.request.marshals, sent, lines-line_of json.response resp rest c, c.unmarshals)
      refl

module _ (em : Emulator) (json : Json) where
  open em use {Term}

  -- What the client reads of a connection that the daemon serves.
  abbrev pub net_of : Served em → Option Bytes
  net_of (served w written stop) = some written
  net_of _ = some []

  -- The world that the daemon is left in.
  abbrev pub world_after : Served em → Option (World Term)
  world_after (served w written stop) = some w
  world_after _ = none

  world_after-finish :
      (op : Op) (w : World Term) (acts : List Action) (fs : List Frame)
      (r : Result RequestError (Reply op))
      → world_after (finish em json op (replies w acts fs r)) ≡ some w
  unfolding finish
  world_after-finish op w acts fs (ok a) = refl
  world_after-finish op w acts fs (err e) = refl

  -- What the daemon's connection writes for an answer that goes through JSON, and what the client
  -- makes of it.
  call-finish :
      (net : Bytes → Option Bytes) (op : Op) (p : Params op) (k : CarriesRequest json op p)
      (w : World Term) (acts : List Action) (fs : List Frame) (r : Result RequestError (Reply op))
      (seen : Result CallError (Option (Reply op)))
      → CarriesAnswer json op r seen
      → net (line_of (json.request.marshal (record { op = op_name op; params = k.raw })))
        ≡ net_of (finish em json op (replies w acts fs r))
      → call json net op p ≡ seen
  unfolding finish check_ok or_fail write_err
  call-finish net op p k w acts fs r seen (error_through e c) h =
      call-response json net op p k _ c [] (h ∙ ap some (sym (append-nil _)))
  call-finish net op p k w acts fs r seen (result_through a payload shown enc dec c) h =
      call-response json net op p k _ c (write_frames json fs)
        (h ∙ ap (λ l. some (l ++ write_frames json fs)) (write_ok_lem json op a payload enc))
      ∙ rw dec

  -- A call of the client, on a connection that the daemon serves: if the handler of the operation
  -- replies, and its params and its answer go through JSON, the client has that answer, an error
  -- told as the daemon's, and the daemon's world is the one that the handler left.
  pub call-handle :
      (env : Surroundings em) (w w' : World Term) (op : Op) (p : Params op) (acts : List Action)
      (fs : List Frame) (r : Result RequestError (Reply op))
      (seen : Result CallError (Option (Reply op))) (k : CarriesRequest json op p)
      → CarriesAnswer json op r seen
      → handle em env w op p ≡ replies w' acts fs r
      → (call json (λ line. net_of (handle_conn em json env w line)) op p ≡ seen)
        × (world_after (
              handle_conn em json env w
                (line_of (json.request.marshal (record { op = op_name op; params = k.raw }))))
            ≡ some w')
  call-handle env w w' op p acts fs r seen k c h =
      let conn = handle_conn-request em json env w op p k ∙ ap (finish em json op) h in
      (
        call-finish (λ line. net_of (handle_conn em json env w line)) op p k w' acts fs r seen c
            (ap net_of conn),
        ap world_after conn ∙ world_after-finish op w' acts fs r,
      )
