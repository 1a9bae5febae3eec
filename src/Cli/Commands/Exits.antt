-- ===== src/Cli/Commands/Exits.antt =====
-- cmd/ht/wait.go, cmd/ht/send.go and cmd/ht/main.go: the commands against the handlers of the daemon.
use headless_terminal.Base.{
  ℕ, ◌≡◌, refl, Bool, false, Option, none, some, List, [], Bytes, Result, ok, err, Bool-cases,
  if◌then◌else◌, inl, inr,
}
use headless_terminal.Session.{Emulator}
use headless_terminal.Session.Pacing.{Action}
use headless_terminal.Wait.{WaitResult}
use headless_terminal.Daemon.Requests.{RequestError, SendParams, SendResult}
use headless_terminal.Daemon.Handlers.{World}
use headless_terminal.Daemon.Handlers.Run.{Frame}
use headless_terminal.Wire.{send_op, wait_op, Json, WaitRequest, of_request}
use headless_terminal.Wire.Lines.{CarriesRequest}
use headless_terminal.Server.{Surroundings, replies, handle, handle_conn}
use headless_terminal.Client
use headless_terminal.Client.{CallError, remote, call}
use headless_terminal.Client.Calls.{CarriesAnswer, call-handle, net_of}
use headless_terminal.Cli.Screen.{write_screen}
use headless_terminal.Cli.Flags.{WaitFlags, SendFlags, send_params, wait_request}
use headless_terminal.Cli.Commands.{
  Shell, exit_code, is_late, show_sent, show_waited, cmd_send, cmd_wait,
}

-- What the client is told: the result, or the error as the daemon's.
abbrev pub told {ℓ} : {A : Type ℓ} → Result RequestError A → Result CallError (Option A)
told (ok a) = ok (some a)
told (err e) = err (remote (some (of_request e)))

-- The exit code that a reply to a wait calls for.
abbrev pub wait_code : Result RequestError WaitResult → ℕ
wait_code (err e) = 1
wait_code (ok r) = if r.matched then 0 else 3

-- The one that a reply to a send calls for.
abbrev pub send_code : Result RequestError SendResult → ℕ
send_code (err e) = 1
send_code (ok r) = if is_late r.wait_result then 3 else 0

-- What a reply to a send prints: its view, if it has one.
abbrev pub sent_out : Bytes → Result RequestError SendResult → Bytes
sent_out format (err e) = []
sent_out format (ok r) = elim r.view_result [
  | none ↦ []
  | some v ↦ write_screen v.screen v.cursor format
]

module _ (shell : Shell) (json : Json) (net : Bytes → Option Bytes) where
  cmd_wait-told :
      (f : WaitFlags) (json_out : Bool) (args : List Bytes) (p : WaitRequest)
      (r : Result RequestError WaitResult)
      → wait_request f args ≡ ok p
      → call json net wait_op p ≡ told r
      → exit_code (cmd_wait shell json (some net) f json_out args) ≡ wait_code r
  unfolding cmd_wait show_waited Client.wait
  cmd_wait-told f json_out args p (err e) asked answer = rw (asked, answer) refl
  cmd_wait-told f json_out args p (ok r) asked answer = elim (Bool-cases r.matched) [
    | inl met ↦ rw (asked, answer, met) refl
    | inr late ↦ rw (asked, answer, late) refl
  ]

  cmd_send-told :
      (f : SendFlags) (args : List Bytes) (p : SendParams) (r : Result RequestError SendResult)
      → send_params f args ≡ ok p
      → f.json_out ≡ false
      → call json net send_op p ≡ told r
      → (exit_code (cmd_send shell json (some net) f args) ≡ send_code r)
        × ((cmd_send shell json (some net) f args).out ≡ sent_out f.format r)
  unfolding cmd_send show_sent Client.send_ext
  cmd_send-told f args p (err e) asked text answer = rw (asked, answer) (refl, refl)
  cmd_send-told f args p (ok r) asked text answer = elim (Bool-cases (is_late r.wait_result)) [
    | inl late ↦ rw (asked, answer, text, late) (refl, refl)
    | inr met ↦ rw (asked, answer, text, met) (refl, refl)
  ]

module _ (em : Emulator) (json : Json) (shell : Shell) where
  open em use {Term}

  -- The connection to a daemon in the world.
  abbrev pub daemon : Surroundings em → World Term → Option (Bytes → Option Bytes)
  daemon env w = some (λ line. net_of em json (handle_conn em json env w line))

  -- `ht wait` on a daemon whose handler replies to the request of its flags, when the request and the answer go
  -- through JSON, exits with 0 if the reply says that the wait has matched, with 3 if it says that it has
  -- not, and with 1 if the reply is an error, whatever it prints.
  pub cmd_wait-handle :
      (env : Surroundings em) (w w' : World Term) (f : WaitFlags) (json_out : Bool)
      (args : List Bytes) (p : WaitRequest) (acts : List Action) (fs : List Frame)
      (r : Result RequestError WaitResult)
      → wait_request f args ≡ ok p
      → (k : CarriesRequest json wait_op p) → CarriesAnswer json wait_op r (told r)
      → handle em env w wait_op p ≡ replies w' acts fs r
      → exit_code (cmd_wait shell json (daemon env w) f json_out args) ≡ wait_code r
  cmd_wait-handle env w w' f json_out args p acts fs r asked k c h =
      let (answer, _) = call-handle em json env w w' wait_op p acts fs r (told r) k c h in
      cmd_wait-told shell json (λ line. net_of em json (handle_conn em json env w line)) f json_out
        args p r asked answer

  -- `ht send` without --json on a daemon whose handler replies to the request of its arguments, when the request
  -- and the answer go through JSON, exits with 3 if the reply has a wait that has not matched, with 1 if the reply is
  -- an error, and else with 0. What it prints is the view of the reply, also when the wait has not matched.
  pub cmd_send-handle :
      (env : Surroundings em) (w w' : World Term) (f : SendFlags) (args : List Bytes)
      (p : SendParams) (acts : List Action) (fs : List Frame) (r : Result RequestError SendResult)
      → send_params f args ≡ ok p
      → f.json_out ≡ false
      → (k : CarriesRequest json send_op p) → CarriesAnswer json send_op r (told r)
      → handle em env w send_op p ≡ replies w' acts fs r
      → (exit_code (cmd_send shell json (daemon env w) f args) ≡ send_code r)
        × ((cmd_send shell json (daemon env w) f args).out ≡ sent_out f.format r)
  cmd_send-handle env w w' f args p acts fs r asked text k c h =
      let (answer, _) = call-handle em json env w w' send_op p acts fs r (told r) k c h in
      cmd_send-told shell json (λ line. net_of em json (handle_conn em json env w line)) f args p r
        asked text answer
