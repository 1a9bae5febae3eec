-- ===== src/Tests/Client.antt =====
-- Runs of the client against the daemon.
use headless_terminal.Base.{
  ◌≡◌, refl, true, false, none, some, [], ◌∷◌, Bytes, codes, ok, err, pos, bytes_eq, All, update,
}
use headless_terminal.Session.{Session, clear, subscribe, subscribe_with_prime, view}
use headless_terminal.Session.Chan.{new_channel}
use headless_terminal.Daemon.{by_name, lookup, lookup_entry, resolve}
use headless_terminal.Daemon.Requests.{SessionInfo, session_running}
use headless_terminal.Daemon.Handlers.{signal_taken, op_remove, put, session_info}
use headless_terminal.Daemon.Handlers.Run.{frames, op_watch, attach}
use headless_terminal.Wire.{
  Op, remove_op, watch_op, Params, Reply, Response, Codec, Json, RemoveParams, of_request, line_of,
}
use headless_terminal.Wire.Lines.{Carries, CarriesRequest}
use headless_terminal.Server.{Surroundings, handle, handle_conn, replies}
use headless_terminal.Client.{call, watch, remote}
use headless_terminal.Client.Calls.{error_through, call-handle, net_of, world_after}
use headless_terminal.Client.Streaming.{watch-handle}
use headless_terminal.Tests.Session.{terminal, started}
use headless_terminal.Tests.Daemon.{one}
use headless_terminal.Tests.Handlers.{world, nothing_seen}
use headless_terminal.Tests.Wire.{constant, refusing, constant-Carries, json_for}

abbrev pub surroundings : Surroundings terminal
surroundings = record {
  compile = λ p. none;
  fails = λ k. false;
  takes_signal = signal_taken;
  exit_code = pos 143;
  new_id = codes "b2";
  process = some 8;
  early_exit = none;
  new_object = 1;
  meanwhile = λ w. w;
  at_start = nothing_seen;
  events = [];
  chunks = codes "$ " ∷ codes "ls" ∷ [];
}

-- `ht remove vim` of a session that is live.
abbrev removal : RemoveParams
removal = record { id = codes "vim"; force = false }

abbrev removal_codec : (o : Op) → Codec (Params o)
removal_codec remove_op = constant removal
removal_codec _ = refusing

abbrev no_reply : (o : Op) → Codec (Reply o)
no_reply o = refusing

abbrev refused : Response
refused = record { is_ok = false; error = some (of_request session_running); payload = none }

abbrev removal_json : Json
removal_json = json_for remove_op removal_codec no_reply refused

removal-CarriesRequest : CarriesRequest removal_json remove_op removal
removal-CarriesRequest = record {
  raw = some (codes "{}");
  encodes = refl;
  decodes = refl;
  request = constant-Carries _;
}

removal_refused :
    handle terminal surroundings world remove_op removal ≡ replies world [] [] (err session_running)
unfolding handle op_remove resolve by_name lookup lookup_entry bytes_eq
removal_refused = refl

call-handle_example :
    (call removal_json
        (λ line.
          net_of terminal removal_json (handle_conn terminal removal_json surroundings world line))
        remove_op
        removal
      ≡ err (remote (some (of_request session_running))))
    × (world_after terminal removal_json
          (handle_conn terminal removal_json surroundings world (line_of (some (codes "{}"))))
        ≡ some world)
call-handle_example =
    call-handle terminal removal_json surroundings world world remove_op removal [] []
      (err session_running) (err (remote (some (of_request session_running))))
      removal-CarriesRequest (error_through session_running (constant-Carries refused))
      removal_refused

-- `ht watch vim`, which attaches at once.
abbrev watch_codec : (o : Op) → Codec (Params o)
watch_codec watch_op = constant (codes "vim")
watch_codec _ = refusing

abbrev info : SessionInfo
info = session_info terminal started

abbrev info_codec : (o : Op) → Codec (Reply o)
info_codec watch_op = constant info
info_codec _ = refusing

abbrev acknowledgement : Response
acknowledgement = record { is_ok = true; error = none; payload = some (codes "{}") }

abbrev watch_json : Json
watch_json = json_for watch_op watch_codec info_codec acknowledgement

watch-CarriesRequest : CarriesRequest watch_json watch_op (codes "vim")
watch-CarriesRequest = record {
  raw = some (codes "{}");
  encodes = refl;
  decodes = refl;
  request = constant-Carries _;
}

frame-Carries : All (Carries watch_json.frame) (frames clear (codes "$ " ∷ codes "ls" ∷ []))
unfolding frames
frame-Carries = (
  record { text = 0x64 ∷ clear; marshals = refl; one_line = refl; unmarshals = refl },
  (
    record { text = codes "d$ "; marshals = refl; one_line = refl; unmarshals = refl },
    (
      record { text = codes "dls"; marshals = refl; one_line = refl; unmarshals = refl },
      (record { text = codes "e"; marshals = refl; one_line = refl; unmarshals = refl }, tt),
    ),
  ),
)

abbrev attached_session : Session Bytes
attached_session = record started {
  subs = 0 ∷ [];
  next_sub = 1;
  chans = update started.chans 0 new_channel;
}

watch_attached :
    handle terminal surroundings world watch_op (codes "vim")
    ≡ replies
        (put terminal world one attached_session)
        []
        (frames clear (codes "$ " ∷ codes "ls" ∷ []))
        (ok info)
unfolding handle op_watch attach subscribe_with_prime subscribe resolve by_name lookup lookup_entry
    bytes_eq view
watch_attached = refl

watch-handle_example :
    watch watch_json
      (λ line. net_of terminal watch_json (handle_conn terminal watch_json surroundings world line))
      (λ f. none)
      (codes "vim")
    ≡ record {
      ready = some (some info);
      frames = frames clear (codes "$ " ∷ codes "ls" ∷ []);
      failed = none;
    }
watch-handle_example =
    watch-handle terminal watch_json surroundings world (put terminal world one attached_session)
      (codes "vim") [] clear (codes "$ " ∷ codes "ls" ∷ []) info (codes "{}") watch-CarriesRequest
      refl refl (constant-Carries acknowledgement) frame-Carries watch_attached
