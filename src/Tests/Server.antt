-- ===== src/Tests/Server.antt =====
-- Runs of internal/daemon/daemon.go with a terminal that knows one escape sequence: what begins with it clears the screen.
use mathlib.Core.List.{foldl}
use headless_terminal.Base.{
  ◌≡◌, ◌↔◌, refl, ap, ◌∙◌, true, none, some, [], ◌∷◌, ◌++◌, Bytes, codes, ok, pos, drop, has_prefix,
  update, if◌then◌else◌,
}
use headless_terminal.Session.{
  Emulator, Session, clear, subscribe, subscribe_with_prime, view, take_output, deliver,
  mark_exited, reading, exited, delete_sub, has_sub,
}
use headless_terminal.Session.Chan.{new_channel, history, push, close_all, close_at}
use headless_terminal.Session.Machine.{outputs, delivers, unlocks}
use headless_terminal.Session.Stream.{Watched, watch_start, watch_next}
use headless_terminal.Daemon.{nil_map, lookup_entry, resolve, range}
use headless_terminal.Daemon.Resolve.{DistinctKeys}
use headless_terminal.Daemon.Meaning.{Denotes, directory, resolve-Denotes}
use headless_terminal.Daemon.Entries.{Every}
use headless_terminal.Daemon.Handlers.{World, put, object_of}
use headless_terminal.Daemon.Handlers.Shutdown.{IsClosed, shut_daemon, shut_daemon_closes}
use headless_terminal.Daemon.Handlers.Run.{frames, attach}
use headless_terminal.Server.Replay.{IsKept, IsPaintedOn, shown_data, watch_replays}
use headless_terminal.Tests.Session.{terminal, started-Inv, delivered, watched}
use headless_terminal.Tests.Daemon.{one, with_one, with_one-Linked}
use headless_terminal.Tests.Handlers.{world}

-- The text since the screen was last cleared.
abbrev paint : Bytes → Bytes → Bytes
paint t chunk = if has_prefix chunk clear then drop 7 chunk else t ++ chunk

abbrev screen : Emulator
screen = record {
  Term = Bytes;
  create = λ cols rows. some [];
  makes_render_state = true;
  feed = paint;
  format = λ f t. some t;
  resize_term = λ cols rows t. some t;
  render = λ t. none;
}

paint-clear : (t s : Bytes) → paint t (clear ++ s) ≡ s
unfolding has_prefix
paint-clear t s = refl

abbrev Equal : Bytes → Bytes → Type 0
Equal a b = a ≡ b

Equal-IsKept : IsKept screen Equal
Equal-IsKept a b chunk e = ap (λ t. paint t chunk) e

screen-IsPaintedOn : (a b : Bytes) → IsPaintedOn screen Equal a b
screen-IsPaintedOn a b s e = let same : s ≡ b = cc in paint-clear a s ∙ same

abbrev quiet : Session Bytes
quiet = record delivered { reader = reading }

abbrev over : Session Bytes
over = record quiet {
  state = exited;
  subs = [];
  chans = update quiet.chans 0 (record new_channel { queue = codes "hi" ∷ []; closed = true });
}

over_ok : mark_exited screen (pos 0) quiet ≡ some over
unfolding mark_exited close_all close_at update
over_ok = refl

attach_ok : attach screen world one ≡ ok (clear, put screen world one watched, 0)
unfolding attach subscribe_with_prime subscribe view
attach_ok = refl

stays : Watched screen 0 watched quiet
unfolding has_sub take_output deliver push update delete_sub has_prefix
stays =
    watch_next
      (watch_next (watch_next watch_start (outputs (codes "hi") refl refl) refl)
        (delivers (codes "hi") (0 ∷ []) 0 refl refl refl refl) refl)
      (unlocks (codes "hi") refl refl) refl

watch_replays_example :
    (last : Bytes) × (some (codes "hi") ≡ some last)
    × (foldl paint (codes "old") (shown_data (frames clear (history (over.chans 0)))) ≡ last)
unfolding update
watch_replays_example =
    watch_replays screen Equal Equal-IsKept world (put screen world one watched) one []
      (codes "old") clear 0 (pos 0) quiet over started-Inv refl refl refl
      (screen-IsPaintedOn (codes "old") []) attach_ok stays refl over_ok

with_one-distinct : DistinctKeys (range with_one.sessions)
unfolding lookup_entry
with_one-distinct = (refl, tt)

resolve-Denotes_example :
    (resolve with_one (codes "a") ≡ ok one) ↔ Denotes (directory with_one) (codes "a") one
resolve-Denotes_example =
    resolve-Denotes with_one (codes "a") one with_one-Linked with_one-distinct (λ e. cc)

shut_daemon_closes_example :
    (w' : World Bytes) × (shut_daemon terminal (pos 137) world ≡ some w')
    × Every (λ h. IsClosed terminal (object_of terminal w' h)) with_one
    × (w'.registry.sessions ≡ nil_map)
    × (w'.registry.names ≡ nil_map)
shut_daemon_closes_example =
    shut_daemon_closes terminal (pos 137) world (record { sound = started-Inv; free = refl }, tt)
