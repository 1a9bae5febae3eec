-- ===== src/Client/Streaming.antt =====
-- internal/client/client.go and internal/daemon/daemon.go: Watch against opWatch.
use headless_terminal.Base.{
  ◌≡◌, refl, ap, ◌∙◌, subst, Bool, true, false, Option, none, some, List, [], ◌∷◌, ◌++◌, Bytes, ok,
  arith, All, map, Option-cases, inl, inr,
}
use headless_terminal.Session.{Emulator}
use headless_terminal.Session.Pacing.{Action}
use headless_terminal.Daemon.{is_nil}
use headless_terminal.Daemon.Requests.{SessionInfo}
use headless_terminal.Daemon.Handlers.{World}
use headless_terminal.Daemon.Handlers.Run.{Frame, data_frame, eof_frame, frames}
use headless_terminal.Wire.{
  watch_op, Json, Response, lines, line_of, encode_params, encode_reply, write_frames,
}
use headless_terminal.Wire.Lines.{Carries, CarriesRequest, lines-line_of, write_ok_lem}
use headless_terminal.Server.{Surroundings, replies, handle, handle_conn, finish}
use headless_terminal.Server.Answers.{handle_conn-request}
use headless_terminal.Client.{follow, watch, read_ack, acknowledged}
use headless_terminal.Client.Calls.{net_of}

-- Data frames, and one EOF frame behind them.
abbrev pub is_stream : List Frame → Bool
is_stream [] = false
is_stream (data_frame b ∷ fs) = is_stream fs
is_stream (eof_frame ∷ fs) = is_nil fs

chunks-is_stream :
    (chunks : List Bytes)
    → is_stream (map (λ chunk. data_frame chunk) chunks ++ eof_frame ∷ []) ≡ true
chunks-is_stream [] = refl
chunks-is_stream (c ∷ cs) = chunks-is_stream cs

frames-is_stream : (prime : Bytes) (chunks : List Bytes) → is_stream (frames prime chunks) ≡ true
unfolding frames
frames-is_stream [] chunks = chunks-is_stream chunks
frames-is_stream (c ∷ cs) chunks = chunks-is_stream chunks

follow-write_frames :
    (json : Json) (fs : List Frame)
    → is_stream fs ≡ true
    → All (Carries json.frame) fs
    → follow json (λ f. none) (lines (write_frames json fs)) ≡ (fs, none)
unfolding follow write_frames
follow-write_frames json [] h k = cc
follow-write_frames json (data_frame b ∷ fs) h (k, ks) =
    rw
      (
        lines-line_of json.frame (data_frame b) (write_frames json fs) k,
        follow,
        k.unmarshals,
        follow-write_frames json fs h ks,
      )
      refl
follow-write_frames json (eof_frame ∷ []) h (k, ks) =
    rw (lines-line_of json.frame eof_frame [] k, follow, k.unmarshals) refl
follow-write_frames json (eof_frame ∷ f ∷ fs) h k = cc

-- The client marshals what `call` does.
encode_params-marshal :
    (json : Json) (id : Bytes) (raw : Option Bytes)
    → encode_params json watch_op id ≡ some raw
    → (json.params watch_op).marshal id ≡ raw
encode_params-marshal json id raw e = elim (Option-cases ((json.params watch_op).marshal id)) [
  | inl nil ↦ absurd (ground arith)
  | inr (b, p) ↦ ground arith
]

module _ (em : Emulator) (json : Json) where
  open em use {Term}

  -- A watch that the daemon serves: OnReady gets the session of the acknowledgement, OnFrame gets
  -- the frames that opWatch writes, each once and in order, and Watch returns with no error at the
  -- EOF frame, where the id, the acknowledgement and the frames go through JSON and OnFrame makes
  -- no error of its own.
  pub watch-handle :
      (env : Surroundings em) (w w' : World Term) (id : Bytes) (acts : List Action) (prime : Bytes)
      (chunks : List Bytes) (info : SessionInfo) (text : Bytes)
      → CarriesRequest json watch_op id
      → encode_reply json watch_op info ≡ some (some text)
      → (json.reply watch_op).unmarshal text ≡ some info
      → Carries json.response (record { is_ok = true; error = none; payload = some text })
      → All (Carries json.frame) (frames prime chunks)
      → handle em env w watch_op id ≡ replies w' acts (frames prime chunks) (ok info)
      → watch json (λ line. net_of em json (handle_conn em json env w line)) (λ f. none) id
        ≡ record { ready = some (some info); frames = frames prime chunks; failed = none }
  unfolding watch read_ack acknowledged finish
  watch-handle env w w' id acts prime chunks info text k enc dec c ks h =
      let fs = frames prime chunks in
      let ack : Response = record { is_ok = true; error = none; payload = some text } in
      let conn = handle_conn-request em json env w watch_op id k ∙ ap (finish em json watch_op) h in
      let out =
        ap (net_of em json) conn
        ∙ ap (λ l. some (l ++ write_frames json fs))
            (write_ok_lem json watch_op info (some text) enc) in
      let sent =
        subst
          (λ t.
            net_of em json (handle_conn em json env w (line_of t))
            ≡ some (line_of (json.response.marshal ack) ++ write_frames json fs))
          k.request.marshals out in
      rw
        (
          watch,
          encode_params-marshal json id k.raw k.encodes,
          k.request.marshals,
          sent,
          read_ack,
          lines-line_of json.response ack (write_frames json fs) c,
          c.unmarshals,
          follow-write_frames json fs (frames-is_stream prime chunks) ks,
          dec,
        )
        refl
