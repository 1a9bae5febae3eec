-- ===== src/Tests/Watching.antt =====
-- A run of the goroutines of `ht watch`.
use headless_terminal.Base.{◌≡◌, refl, true, false, none, some, [], ◌∷◌, codes}
use headless_terminal.Client.{Streamed}
use headless_terminal.Daemon.Handlers.Run.{data_frame, eof_frame}
use headless_terminal.Cli.Watching.{watch_out}
use headless_terminal.Cli.Watching.Signals.{
  Watching, finished, has_result, starts, then_step, is_ready, enters, shows, ends, gets_result,
  watch_out_lem,
}

abbrev streamed : Streamed
streamed = record {
  ready = some none;
  frames = data_frame (codes "$") ∷ eof_frame ∷ [];
  failed = none;
}

abbrev watched : Watching
watched = record {
  phase = finished;
  caller = has_result;
  is_waiting = false;
  out = watch_out true streamed;
}

watch_out_lem_example : (watched.phase ≡ finished) × (watched.out ≡ watch_out true streamed)
unfolding watch_out
watch_out_lem_example =
    watch_out_lem true streamed
      (then_step
        (then_step
          (then_step
            (then_step (then_step (then_step starts (is_ready none refl refl)) (enters refl))
              (shows (data_frame (codes "$")) (eof_frame ∷ []) refl))
            (shows eof_frame [] refl))
          (ends refl))
        (gets_result refl refl))
      refl
