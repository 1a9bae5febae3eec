-- ===== src/Session/Chan.antt =====
-- A subscriber's channel, `chan []byte` of capacity 64. An operation that would panic is `none`.
use headless_terminal.Base.{
  ℕ, Bool, true, false, Option, none, some, List, [], ◌∷◌, ◌++◌, Bytes, length, ltb, if◌then◌else◌,
  update,
}

-- `received` are the chunks that the subscriber has taken, `queue` those that wait for it.
pub record Channel : Type 0 where
  pub received : List Bytes
  pub queue : List Bytes
  pub closed : Bool

-- make(chan []byte, 64).
abbrev pub capacity : ℕ
capacity = 64

abbrev pub new_channel : Channel
new_channel = record { received = []; queue = []; closed = false }

-- All that was ever sent.
abbrev pub history : Channel → List Bytes
history ch = ch.received ++ ch.queue

-- close(ch) panics on a closed channel.
unfoldable pub close : Channel → Option Channel
close ch = if ch.closed then none else some (record ch { closed = true })

-- ch <- chunk panics on a closed channel. It blocks at a full one: see `has_room`.
unfoldable pub push : Bytes → Channel → Option Channel
push chunk ch = if ch.closed then none else some (record ch { queue = ch.queue ++ chunk ∷ [] })

-- The send does not block.
abbrev pub has_room : Channel → Bool
has_room ch = ltb (length ch.queue) capacity

unfoldable pub take_first : Channel → List Bytes → Channel
take_first ch [] = ch
take_first ch (b ∷ bs) = record ch { received = ch.received ++ b ∷ []; queue = bs }

-- <-ch by the subscriber, where a chunk is there.
unfoldable pub receive : Channel → Channel
unfolding take_first
receive ch = take_first ch ch.queue

-- The channels of a session, by the number of the subscription.
abbrev pub Channels : Type 0
Channels = ℕ → Channel

unfoldable pub close_at : ℕ → Channels → Option Channels
unfolding close
close_at id chans = elim (close (chans id)) [ none ↦ none | some ch ↦ some (update chans id ch) ]

-- The loop of waitLoop: `for id, ch := range s.subs { close(ch); delete(s.subs, id) }`.
unfoldable pub close_all : List ℕ → Channels → Option Channels
close_all [] chans = some chans
close_all (id ∷ ids) chans = elim (close_at id chans) [
  | none ↦ none
  | some chans' ↦ close_all ids chans'
]
