-- ===== src/Events/MemoryBus.antt =====
-- pkg/events/memory_bus.go: the bus that fans events out to channels. Channels are numbered in the
-- order in which they are made; each method holds the lock for all of its body.
use remote_runtime_engine.Base.{
  ℕ, suc, Bool, true, false, Option, none, some, List, [], ◌∷◌, ◌++◌, Text, ltb, ◌==◌, length,
  lookup, insert, delete, if◌then◌else◌,
}
use remote_runtime_engine.Events.{ExecutionEvent}

-- `make(chan *ExecutionEvent, 64)`, with the submission that it was made for and the `sync.Once` of its
-- clean-up.
pub record Channel (F : Type 0) : Type 0 where
  pub owner : Text
  pub buffer : List (ExecutionEvent F)
  pub is_open : Bool
  pub released : Bool

abbrev pub room : ℕ
room = 64

abbrev pub Heap : Type 0 → Type 0
Heap F = ℕ → Channel F

unfoldable pub put : {F : Type 0} → ℕ → Channel F → Heap F → Heap F
put i c heap j = if i == j then c else heap j

pub record MemoryEventBus (F : Type 0) : Type 0 where
  pub subscribers : List (Text × List ℕ)
  pub closed : Bool
  pub heap : Heap F
  pub made : ℕ

unfoldable pub new_memory_event_bus : {F : Type 0} → Heap F → MemoryEventBus F
new_memory_event_bus heap = record { subscribers = []; closed = false; heap = heap; made = 0 }

unfoldable pub subscribers_of : Text → List (Text × List ℕ) → List ℕ
subscribers_of id m = elim (lookup id m) [ none ↦ [] | some chs ↦ chs ]

unfoldable pub without : ℕ → List ℕ → List ℕ
without ch [] = []
without ch (c ∷ cs) = let rest = without ch cs in if c == ch then rest else c ∷ rest

-- `newSubs`, put back or, where it is empty, dropped.
unfoldable pub put_back : Text → List ℕ → List (Text × List ℕ) → List (Text × List ℕ)
put_back id [] m = delete id m
put_back id (c ∷ cs) m = insert id (c ∷ cs) m

-- All the subscribed channels.
unfoldable pub all_subscribers : List (Text × List ℕ) → List ℕ
all_subscribers [] = []
all_subscribers ((id, chs) ∷ m) = chs ++ all_subscribers m

module _ {F : Type 0} where
  -- `select { case ch <- event: default: }`; none is the panic of a send on a closed channel.
  unfoldable pub offer : ExecutionEvent F → Channel F → Option (Channel F)
  offer e c =
      if c.is_open
      then some (if ltb (length c.buffer) room then record c { buffer = c.buffer ++ e ∷ [] } else c)
      else none

  unfoldable pub offer_all : ExecutionEvent F → List ℕ → Heap F → Option (Heap F)
  unfolding offer put
  offer_all e [] heap = some heap
  offer_all e (ch ∷ chs) heap = elim (offer e (heap ch)) [
    | none ↦ none
    | some c ↦ offer_all e chs (put ch c heap)
  ]

  -- The event as `Publish` sends it at the time `now`.
  unfoldable pub stamped : ℕ → Text → ExecutionEvent F → ExecutionEvent F
  stamped now id e = record e {
    timestamp = if e.timestamp == 0 then now else e.timestamp;
    submission_id = id;
  }

  -- `Publish`; none is a panic.
  unfoldable pub publish :
      ℕ → Text → Option (ExecutionEvent F) → MemoryEventBus F → Option (MemoryEventBus F)
  unfolding offer_all subscribers_of
  publish now id none bus = some bus
  publish now id (some e) bus =
      if bus.closed
      then some bus
      else elim (offer_all (stamped now id e) (subscribers_of id bus.subscribers) bus.heap) [
        | none ↦ none
        | some heap ↦ some (record bus { heap = heap })
      ]

  -- `Subscribe`: the number of the new channel, and the bus.
  unfoldable pub subscribe : Text → MemoryEventBus F → ℕ × MemoryEventBus F
  unfolding put subscribers_of
  subscribe id bus = (
    bus.made,
    record bus {
      subscribers = insert id (subscribers_of id bus.subscribers ++ bus.made ∷ []) bus.subscribers;
      heap =
          put bus.made (record { owner = id; buffer = []; is_open = true; released = false })
            bus.heap;
      made = suc bus.made;
    },
  )

  -- A client's receive from the channel `ch`, in whose buffer these events wait.
  unfoldable pub after_receive :
      ℕ → MemoryEventBus F → List (ExecutionEvent F) → Option (ExecutionEvent F) × MemoryEventBus F
  unfolding put
  after_receive ch bus [] = (none, bus)
  after_receive ch bus (e ∷ rest) =
      (some e, record bus { heap = put ch (record (bus.heap ch) { buffer = rest }) bus.heap })

  -- `<-eventCh` of a client: the oldest event, if one waits, leaves the buffer, also once the channel
  -- is closed.
  unfoldable pub receive : ℕ → MemoryEventBus F → Option (ExecutionEvent F) × MemoryEventBus F
  unfolding after_receive
  receive ch bus = after_receive ch bus (bus.heap ch).buffer

  -- `close(ch)`; none is the panic of a second close.
  unfoldable pub close_channel : Channel F → Option (Channel F)
  close_channel c = if c.is_open then some (record c { is_open = false }) else none

  -- The clean-up function that `Subscribe` returns with the channel `ch`; none is a panic.
  unfoldable pub unsubscribe : ℕ → MemoryEventBus F → Option (MemoryEventBus F)
  unfolding put subscribers_of without put_back close_channel
  unsubscribe ch bus =
      let id = (bus.heap ch).owner in
      if (bus.heap ch).released then some bus else elim (close_channel (bus.heap ch)) [
        | none ↦ none
        | some c ↦ some (record bus {
          subscribers =
              put_back id (without ch (subscribers_of id bus.subscribers)) bus.subscribers;
          heap = put ch (record c { released = true }) bus.heap;
        })
      ]

  unfoldable pub close_all : List ℕ → Heap F → Option (Heap F)
  unfolding put close_channel
  close_all [] heap = some heap
  close_all (ch ∷ chs) heap = elim (close_channel (heap ch)) [
    | none ↦ none
    | some c ↦ close_all chs (put ch c heap)
  ]

  -- `Close`; none is a panic.
  unfoldable pub close : MemoryEventBus F → Option (MemoryEventBus F)
  unfolding close_all all_subscribers
  close bus =
      if bus.closed then some bus else elim (close_all (all_subscribers bus.subscribers) bus.heap) [
        | none ↦ none
        | some heap ↦ some (record bus { closed = true; heap = heap; subscribers = [] })
      ]
