-- ===== src/Tests/Starting.antt =====
-- Runs of EnsureDaemon.
use headless_terminal.Base.{◌*◌, ◌≡◌, refl, true, some, Result, ok, ◌&&◌, ◌↔◌, ◌⊎◌, arith, ◌==◌}
use headless_terminal.Client.Starting.{
  StartError, Machine, IsPaced, Answers, ensure_daemon, ensure_daemon_lem,
}

-- The third dial of the loop succeeds.
abbrev slow_start : Machine
slow_start = record {
  locates = true;
  discards = true;
  spawns = true;
  dials = λ k. k == 3;
  clock = λ k. k * 26000000;
}

slow_start-IsPaced : IsPaced slow_start
slow_start-IsPaced = record { begins = omega arith; sleeps = λ k h. omega arith }

ensure_daemon_example :
    (r : Result StartError (Unit {0})) × (ensure_daemon slow_start 121 ≡ some r)
    × ((r ≡ ok tt) ↔ (
        (slow_start.dials 0 ≡ true)
        ⊎ (((slow_start.locates && slow_start.discards && slow_start.spawns) ≡ true)
            × Answers slow_start 1)))
ensure_daemon_example = ensure_daemon_lem slow_start slow_start-IsPaced

slow_start_up : ensure_daemon slow_start 121 ≡ some (ok tt)
unfolding ensure_daemon
slow_start_up = refl
