-- ===== src/Tests/Cli.antt =====
-- Runs of cmd/ht.
use headless_terminal.Base.{
  ◌<◌, ◌≡◌, refl, true, false, none, some, [], ◌∷◌, ◌++◌, Bytes, codes, ok, err, pos, arith, inl,
  bytes_eq,
}
use headless_terminal.Utf8.{decode_rune, to_lower, runes, encode_rune}
use headless_terminal.Session.{view}
use headless_terminal.Session.Pacing.{send_paced, pace_loop, keystroke_len}
use headless_terminal.Wait.{
  by_timeout, timeout_fires, wait, is_empty, compile_text, first_look, eval_snapshot, check_text,
  run, round, look, return_if_met, all_met, pick_trigger,
}
use headless_terminal.Daemon.{resolve, by_name, lookup, lookup_entry}
use headless_terminal.Daemon.Requests.{
  Cursor, SendParams, SendResult, milliseconds, condition_of, parse_format,
}
use headless_terminal.Daemon.Handlers.{op_send}
use headless_terminal.Wire.{Op, send_op, Params, Reply, Response, Codec, Json, WaitRequest}
use headless_terminal.Server.{Surroundings, handle, replies}
use headless_terminal.Client.Calls.{result_through}
use headless_terminal.Cli.Numbers.{
  parse_uint16, trim_space, split_pair, parse_cursor, parse_size, bad_second, out_of_range,
  bad_syntax, decimal,
}
use headless_terminal.Cli.Numbers.RoundTrip.{pair_bounds}
use headless_terminal.Cli.Screen.{ends_bare, cursor_tail, write_screen}
use headless_terminal.Cli.Screen.Cursors.{write_screen-parse_cursor}
use headless_terminal.Cli.Flags.{WaitFlags, SendFlags, has_wait, send_params, wait_params, to_ms}
use headless_terminal.Cli.Flags.Durations.{milliseconds-to_ms}
use headless_terminal.Cli.Commands.{Shell, exit_code, cmd_send}
use headless_terminal.Cli.Commands.Exits.{daemon, cmd_send-handle}
use headless_terminal.Tests.Session.{terminal}
use headless_terminal.Tests.Handlers.{world, nothing_seen}
use headless_terminal.Tests.Wire.{constant, refusing, constant-Carries, json_for}
use headless_terminal.Tests.Client.{surroundings}

parse_cursor_spaces : parse_cursor (codes " 12 ,5") ≡ ok (12, 5)
unfolding parse_cursor split_pair trim_space parse_uint16 decode_rune
parse_cursor_spaces = refl

parse_cursor_large : parse_cursor (codes "1,65536") ≡ err (bad_second out_of_range)
unfolding parse_cursor split_pair trim_space parse_uint16 decode_rune
parse_cursor_large = refl

parse_size_spaces : parse_size (codes "80x 24") ≡ err (bad_second bad_syntax)
unfolding parse_size split_pair parse_uint16
parse_size_spaces = refl

pair_bounds_example : (120 < 65536) × (40 < 65536)
unfolding parse_size split_pair parse_uint16
pair_bounds_example = pair_bounds (codes "120x40") 120 40 (inl refl)

abbrev cursor : Cursor
cursor = record { row = 12; col = 5; visible = false }

write_screen_example :
    write_screen (codes "no-nl") (some cursor) (codes "plain")
    ≡ codes "no-nl\ncursor: 12,5 (hidden)\n"
unfolding write_screen ends_bare decimal bytes_eq
write_screen_example = refl

write_screen-parse_cursor_example :
    (added text : Bytes) × (write_screen (codes "no-nl") (some cursor) (codes "plain")
      ≡ (codes "no-nl" ++ added) ++ (codes "cursor: " ++ text ++ cursor_tail false))
    × (ends_bare (codes "no-nl" ++ added) ≡ false)
    × (parse_cursor text ≡ ok (12, 5))
unfolding bytes_eq
write_screen-parse_cursor_example =
    write_screen-parse_cursor (codes "no-nl") cursor (codes "plain") (omega arith) (omega arith)
      refl

-- A timeout of half a millisecond is no timeout.
milliseconds-to_ms_example : milliseconds (to_ms (pos 500000)) ≡ pos 0
milliseconds-to_ms_example = milliseconds-to_ms (pos 500000) (omega arith)

abbrev wait_flags : WaitFlags
wait_flags = record {
  idle = pos 0;
  change = false;
  text = [];
  regex = false;
  cursor = [];
  exit = true;
  timeout = pos 5000000000;
}

abbrev waiting : WaitRequest
waiting = record {
  id = codes "vim";
  params = record {
    idle_ms = pos 0;
    change = false;
    text = [];
    regex = false;
    cursor = none;
    exit = true;
    timeout_ms = pos 5000;
  };
}

abbrev with_payload : Response
with_payload = record { is_ok = true; error = none; payload = some (codes "{}") }

abbrev pub shell : Shell
shell = record {
  session_text = λ s. none;
  send_text = λ r. none;
  view_text = λ v. none;
  wait_text = λ r. none;
  is_tty = true;
  creates = λ path. true;
  draw = λ framed cols s. none;
}

abbrev send_flags : SendFlags
send_flags = record {
  raw = true;
  rate = pos 20000000;
  wait_duration = pos 0;
  waits = wait_flags;
  view = true;
  format = codes "plain";
  json_out = false;
}

abbrev sending : SendParams
sending = record {
  id = codes "vim";
  bytes = codes "ls";
  inter_key_delay_ms = pos 20;
  settle_ms = pos 0;
  wait_params = some waiting.params;
  view_format = some (codes "plain");
}

asked_send : send_params send_flags (codes "vim" ∷ codes "l" ∷ codes "s" ∷ []) ≡ ok sending
unfolding send_params has_wait wait_params to_ms
asked_send = refl

-- The wait has seen the time run out, and the view is there.
abbrev sent : SendResult
sent = record {
  wait_result = some (record { matched = false; trigger = by_timeout });
  view_result = some (record { id = codes "a1"; cols = 80; rows = 24; screen = []; cursor = none });
}

abbrev send_codec : (o : Op) → Codec (Params o)
send_codec send_op = constant sending
send_codec _ = refusing

abbrev sent_codec : (o : Op) → Codec (Reply o)
sent_codec send_op = constant sent
sent_codec _ = refusing

abbrev pub send_json : Json
send_json = json_for send_op send_codec sent_codec with_payload

abbrev until_timeout : Surroundings terminal
until_timeout = record surroundings { events = timeout_fires ∷ [] }

was_sent :
    handle terminal until_timeout world send_op sending
    ≡ replies world
        (op_send terminal
          (λ p. none)
          (λ k. false)
          world
          world
          sending
          nothing_seen
          (timeout_fires ∷ [])).0
        []
        (ok sent)
unfolding handle op_send send_paced resolve by_name lookup lookup_entry bytes_eq condition_of
    milliseconds wait is_empty compile_text first_look eval_snapshot check_text run round look
    return_if_met all_met pick_trigger pace_loop keystroke_len decode_rune parse_format to_lower
    runes encode_rune view
was_sent = refl

cmd_send-handle_example :
    (exit_code (
        cmd_send shell send_json
          (daemon terminal send_json shell until_timeout world)
          send_flags
          (codes "vim" ∷ codes "l" ∷ codes "s" ∷ []))
      ≡ 3)
    × ((cmd_send shell send_json
          (daemon terminal send_json shell until_timeout world)
          send_flags
          (codes "vim" ∷ codes "l" ∷ codes "s" ∷ [])).out
        ≡ write_screen [] none (codes "plain"))
cmd_send-handle_example =
    cmd_send-handle terminal send_json shell until_timeout world world send_flags
      (codes "vim" ∷ codes "l" ∷ codes "s" ∷ []) sending
      (op_send terminal (λ p. none) (λ k. false) world world sending nothing_seen
        (timeout_fires ∷ [])).0
      [] (ok sent) asked_send refl
      (record {
        raw = some (codes "{}");
        encodes = refl;
        decodes = refl;
        request = constant-Carries _;
      })
      (result_through sent (some (codes "{}")) (some sent) refl refl
        (constant-Carries with_payload))
      was_sent
