-- ===== src/Tests/Serve.antt =====
-- Runs of two daemons on one socket path.
use headless_terminal.Base.{◌≡◌, ◌≢◌, refl, true, none, some, ok, update, arith}
use headless_terminal.Daemon.Serve.{
  accepting, ended, Host, put_server, dial, remove_stale, listen, stop, close_listener, Turns,
  none_yet, then_turn, cleans, listens, Server,
}
use headless_terminal.Daemon.Serve.Ending.{
  new_host, IsServed, AreOwn, Turns-IsServed, stop_ends_run,
}
use headless_terminal.Daemon.Serve.Orphans.{second_start_orphans}

-- The first daemon listens, where a crashed one has left its socket.
abbrev one_up : Host
one_up = listen true 0 (remove_stale true true 0 (new_host (some 7)))

-- Then the second one does.
abbrev both_up : Host
both_up = listen true 1 (remove_stale true true 1 one_up)

first_start : Turns (new_host (some 7)) one_up
unfolding listen remove_stale update
first_start = then_turn 0 (then_turn 0 none_yet (cleans true true refl)) (listens true refl)

second_start_orphans_example :
    (dial both_up ≡ some 1)
    × (both_up.server 0 ≡ one_up.server 0)
    × (dial both_up ≢ some 0)
    × (dial (close_listener 0 both_up) ≡ none)
    × (((close_listener 0 both_up).server 1).phase ≡ accepting)
    × (((close_listener 0 both_up).server 1).is_open ≡ true)
unfolding listen remove_stale update
second_start_orphans_example =
    second_start_orphans 0 1 one_up both_up (λ e. omega arith) refl refl refl refl none_yet

Turns-IsServed_example : (stop (one_up.server 0) ≢ none) × IsServed (one_up.server 0)
Turns-IsServed_example = Turns-IsServed 0 first_start

abbrev told : Server
told = record (one_up.server 0) { once_done = true; shutdown_closed = true }

stop_ends_run_example :
    (h'' : Host) × (after : Turns (put_server one_up 0 told) h'') × AreOwn 0 after
    × ((h''.server 0).phase ≡ ended (ok tt))
    × (dial h'' ≢ some 0)
unfolding listen remove_stale update stop
stop_ends_run_example = stop_ends_run 0 first_start refl none_yet refl
