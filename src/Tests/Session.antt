-- ===== src/Tests/Session.antt =====
-- Runs of internal/session/session.go, with a terminal that keeps the bytes that it is fed.
use mathlib.Core.List.{foldl}
use headless_terminal.Base.{
  true, ℕ, zero, suc, ◌≡◌, ◌≢◌, refl, false, none, some, ok, List, [], ◌∷◌, ◌++◌, Bytes, codes, pos,
  update,
}
use headless_terminal.Session.Ids.{new_id}
use headless_terminal.Session.{
  Emulator, Session, Options, running, reading, fanning, start, subscribe, take_output, deliver,
  has_sub, delete_sub,
}
use headless_terminal.Session.Chan.{new_channel, has_room, push, receive}
use headless_terminal.Session.Machine.{
  Reach, here, next, flows, subscribes, outputs, delivers, receives, is_free,
}
use headless_terminal.Session.Invariant.{Inv, start-Inv, Reach-Inv, deliver_use, perform, no_panic}
use headless_terminal.Session.Stream.{stream, Watched, watch_start, watch_next, subscribe-Tracks}
use headless_terminal.Session.Deadlock.{Starved, starved_start, starved_next, full_channel_deadlock}

abbrev pub terminal : Emulator
terminal = record {
  Term = Bytes;
  create = λ cols rows. some [];
  makes_render_state = true;
  feed = λ t chunk. t ++ chunk;
  format = λ f t. some t;
  resize_term = λ cols rows t. some t;
  render = λ t. none;
}

abbrev options : Options
options = record { cmd = codes "sh" ∷ []; cols = 0; rows = 0; name = codes "a" }

abbrev pub started : Session Bytes
started = record {
  id = codes "f00d";
  name = codes "a";
  cmd = codes "sh" ∷ [];
  pid = some 7;
  term = some [];
  state = running;
  exit_code = pos 0;
  cols = 80;
  rows = 24;
  subs = [];
  next_sub = 0;
  chans = λ _. new_channel;
  reader = reading;
  done = false;
}

start_ok : start terminal (codes "f00d") (some 7) options ≡ ok started
unfolding start
start_ok = refl

pub started-Inv : Inv started
started-Inv = start-Inv terminal (codes "f00d") (some 7) options start_ok

-- A watcher subscribes, a chunk comes out of the PTY, and the watcher is sent it.
abbrev pub watched : Session Bytes
watched = record started { subs = 0 ∷ []; next_sub = 1; chans = update started.chans 0 new_channel }

abbrev pub printed : Session Bytes
printed = record watched { term = some (codes "hi"); reader = fanning (codes "hi") (0 ∷ []) }

abbrev pub delivered : Session Bytes
delivered = record printed {
  chans = update printed.chans 0 (record new_channel { queue = codes "hi" ∷ [] });
  reader = fanning (codes "hi") [];
}

subscribe_run : (subscribe terminal started).0 ≡ watched
unfolding subscribe
subscribe_run = refl

take_output_run : printed ≡ take_output terminal (codes "hi") watched
unfolding take_output
take_output_run = refl

deliver_run : deliver terminal (codes "hi") (0 ∷ []) 0 printed ≡ some delivered
unfolding deliver push update delete_sub
deliver_run = refl

prints : Reach terminal started printed
unfolding subscribe take_output
prints = next (next here (flows (subscribes refl refl))) (flows (outputs (codes "hi") refl refl))

watches : Watched terminal 0 watched delivered
unfolding has_sub take_output deliver push update delete_sub
watches =
    watch_next (watch_next watch_start (outputs (codes "hi") refl refl) refl)
      (delivers (codes "hi") (0 ∷ []) 0 refl refl refl refl) refl

subscribe-Tracks_example : some (codes "hi") ≡ some (foldl terminal.feed [] (stream 0 delivered))
unfolding subscribe
subscribe-Tracks_example =
    subscribe-Tracks terminal [] started {t = delivered} started-Inv refl refl refl watches

no_panic_example : perform terminal (deliver_use (codes "hi") (0 ∷ []) 0) printed ≢ none
unfolding has_sub
no_panic_example =
    no_panic terminal (codes "f00d") (some 7) options (deliver_use (codes "hi") (0 ∷ []) 0) start_ok
      prints (refl, refl)

Reach-Inv_example : Inv printed
Reach-Inv_example = Reach-Inv terminal prints started-Inv

-- A channel that holds as many chunks as it can, while readLoop has one more for it.
abbrev chunks : ℕ → List Bytes
chunks zero = []
chunks (suc n) = codes "x" ∷ chunks n

abbrev stuck : Session Bytes
stuck = record watched {
  chans = update started.chans 0 (record new_channel { queue = chunks 64 });
  reader = fanning (codes "x") (0 ∷ []);
}

-- Another client receives from its own channel.
abbrev starves :
    Starved terminal 0 stuck
      (record stuck { chans = update stuck.chans 1 (receive (stuck.chans 1)) })
starves = starved_next starved_start (flows (receives 1 refl)) refl

full_channel_deadlock_example :
    (is_free (record stuck { chans = update stuck.chans 1 (receive (stuck.chans 1)) }).reader
      ≡ false)
    × (has_room (update stuck.chans 1 (receive (stuck.chans 1)) 0) ≡ false)
unfolding has_sub update
full_channel_deadlock_example =
    full_channel_deadlock terminal 0 {s = stuck}
      {t = record stuck { chans = update stuck.chans 1 (receive (stuck.chans 1)) }}
      (record { waits = ((refl, tt), refl); full = refl }) starves

id_bytes : new_id (some (0xde, 0xad, 0x05, 0xef)) 0 ≡ codes "dead05ef"
unfolding new_id
id_bytes = refl

id_time : new_id none 4294967311 ≡ codes "0000000f"
unfolding new_id
id_time = refl
