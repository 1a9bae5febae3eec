-- ===== src/Tests/Handlers.antt =====
-- Runs of the handlers of internal/daemon/daemon.go.
use headless_terminal.Base.{
  ℕ, ◌≡◌, ◌≢◌, ◌⊎◌, refl, true, false, none, some, [], ◌∷◌, ◌++◌, Bytes, codes, ok, err, pos,
  bytes_eq, update,
}
use headless_terminal.Session.{Options, is_exited, start, state_string}
use headless_terminal.Session.Pacing.{SendError}
use headless_terminal.Session.Pacing.Trace.{written}
use headless_terminal.Wait.{Seen}
use headless_terminal.Daemon.{
  new_registry, lookup, lookup_entry, by_name, resolve, name_taken, register, insert, delete,
  delete_entry,
}
use headless_terminal.Daemon.Requests.{SendParams, SessionInfo, session_running, of_send}
use headless_terminal.Daemon.Handlers.{
  World, signal_taken, signal_refused, object_of, op_stop, op_remove, op_send, session_info,
}
use headless_terminal.Daemon.Handlers.Lifecycle.{
  HasEnded, Without, op_stop_ends, op_remove_removes, op_send_writes,
}
use headless_terminal.Daemon.Handlers.Run.{op_run, run_on}
use headless_terminal.Tests.Session.{terminal, started, started-Inv}
use headless_terminal.Tests.Daemon.{one, with_one}

abbrev pub world : World Bytes
world = record { registry = with_one; objects = λ i. started }

pub found : resolve with_one (codes "vim") ≡ ok one
unfolding resolve by_name lookup lookup_entry bytes_eq
found = refl

op_stop_ends_example :
    (w' : World Bytes) × (op_stop terminal signal_taken (pos 143) world (codes "vim")
      ≡ some (w', ok tt))
    × HasEnded terminal (pos 143) (object_of terminal w' one)
    × (w'.registry ≡ world.registry)
    × ((i : ℕ) → i ≢ 0 → w'.objects i ≡ started)
    × (op_stop terminal signal_refused (pos 1) w' (codes "vim") ≡ some (w', ok tt))
op_stop_ends_example =
    op_stop_ends terminal (pos 143) (pos 1) signal_refused world (codes "vim") one 7 found refl refl
      started-Inv refl

op_remove_removes_example :
    ((is_exited started.state ≡ false)
      × (true ≡ false)
      × (op_remove terminal (pos 137) world (codes "vim") true ≡ some (world, err session_running)))
    ⊎ ((w' : World Bytes) × (op_remove terminal (pos 137) world (codes "vim") true
          ≡ some (w', ok tt))
        × (is_exited (object_of terminal w' one).state ≡ true)
        × ((object_of terminal w' one).term ≡ none)
        × Without terminal one with_one w'.registry
        × ((i : ℕ) → i ≢ 0 → w'.objects i ≡ started))
op_remove_removes_example =
    op_remove_removes terminal (pos 137) world (codes "vim") true one found started-Inv refl

abbrev request : SendParams
request = record {
  id = codes "vim";
  bytes = codes "ls";
  inter_key_delay_ms = pos 20;
  settle_ms = pos 0;
  wait_params = none;
  view_format = some (codes "ansi");
}

abbrev pub nothing_seen : Seen
nothing_seen = record {
  exited = false;
  snapshot = ok (record {
    screen = [];
    cols = 80;
    rows = 24;
    cursor_row = 0;
    cursor_col = 0;
    cursor_vis = false;
  });
}

op_send_writes_example :
    (rest : Bytes) × (written
          (op_send terminal (λ p. none) (λ k. false) world world request nothing_seen []).0
        ++ rest
      ≡ codes "ls")
    × (((e : SendError)
          → (op_send terminal (λ p. none) (λ k. false) world world request nothing_seen []).1
            ≢ some (err (of_send e)))
        → rest ≡ [])
op_send_writes_example =
    op_send_writes terminal (λ p. none) (λ k. false) world world request nothing_seen [] one found

abbrev pub options : Options
options = record { cmd = codes "sh" ∷ []; cols = 0; rows = 50; name = codes "vim" }

abbrev pub empty_world : World Bytes
empty_world = record { registry = new_registry; objects = λ i. started }

abbrev info : SessionInfo
info = record {
  id = codes "a1";
  name = codes "vim";
  pid = 7;
  state = codes "running";
  cols = 80;
  rows = 50;
  cmd = codes "sh" ∷ [];
  exit_code = none;
}

abbrev pub run_world : World Bytes
run_world = record {
  registry = with_one;
  objects =
      update empty_world.objects 0
        (record started { id = codes "a1"; name = codes "vim"; rows = 50 });
}

pub op_run_run :
    op_run terminal (codes "a1") (some 7) none 0 empty_world empty_world options
    ≡ some (run_world, ok info)
unfolding op_run run_on name_taken start session_info state_string register insert delete_entry
    delete lookup lookup_entry
op_run_run = refl
