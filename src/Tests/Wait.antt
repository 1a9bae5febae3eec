-- ===== src/Tests/Wait.antt =====
-- Runs of internal/wait/wait.go.
use headless_terminal.Base.{
  ◌≡◌, ◌≢◌, refl, Bool, true, false, none, some, [], ◌∷◌, Bytes, codes, ok, pos, has_prefix,
}
use headless_terminal.Wait.{
  Condition, by_exit, Seen, chunk_arrives, done_closes, Loop, returns, cannot_be, contains,
  check_text, eval_snapshot, all_met, return_if_met, look, round, first_look, run, wait, is_empty,
  compile_text, pick_trigger,
}
use headless_terminal.Wait.History.{Runs, runs_start, runs_next}
use headless_terminal.Wait.Laws.{matches, round-satisfied}

abbrev shows : Bytes → Bool → Seen
shows screen exited = record {
  exited = exited;
  snapshot = ok (record {
    screen = screen;
    cols = 80;
    rows = 24;
    cursor_row = 1;
    cursor_col = 1;
    cursor_vis = true;
  });
}

-- The text on the screen, and the exit.
abbrev condition : Condition
condition = record {
  idle = pos 0;
  change = false;
  text = codes "ok";
  regex = false;
  cursor = none;
  exit = true;
  timeout = pos 1000;
}

abbrev at_start : Loop
at_start = record {
  text_ok = false;
  cursor_ok = true;
  idle_fired = false;
  change_seen = false;
  timer_runs = false;
  done_open = true;
  channel_open = true;
}

abbrev has_text : Loop
has_text = record at_start { text_ok = true; change_seen = true }

wait_run :
    wait
      (λ p. none)
      condition
      (shows (codes "$") false)
      (chunk_arrives (shows (codes "$ ok") false) ∷ done_closes (shows (codes "$ ok") true) ∷ [])
    ≡ some (ok (record { matched = true; trigger = by_exit }))
unfolding wait is_empty compile_text first_look eval_snapshot check_text contains has_prefix run
    round look return_if_met all_met pick_trigger
wait_run = refl

runs :
    Runs condition none
      (shows (codes "$") false)
      (chunk_arrives (shows (codes "$ ok") false) ∷ [])
      has_text
unfolding first_look eval_snapshot check_text contains has_prefix round look return_if_met all_met
runs = runs_next (chunk_arrives (shows (codes "$ ok") false)) (runs_start {l = at_start} refl) refl

can_be : round condition none has_text (done_closes (shows (codes "$ ok") true)) ≢ cannot_be
unfolding eval_snapshot check_text contains has_prefix round look return_if_met all_met
can_be = λ e. cc

round-satisfied_example :
    matches (round condition none has_text (done_closes (shows (codes "$ ok") true))) ≡ true
unfolding check_text contains has_prefix
round-satisfied_example =
    round-satisfied condition none (shows (codes "$") false)
      (done_closes (shows (codes "$ ok") true)) runs can_be

returns_run :
    round condition none has_text (done_closes (shows (codes "$ ok") true))
    ≡ returns (ok (record { matched = true; trigger = by_exit }))
unfolding eval_snapshot check_text contains has_prefix round look return_if_met all_met pick_trigger
returns_run = refl
