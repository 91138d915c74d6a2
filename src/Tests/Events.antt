-- ===== src/Tests/Events.antt =====
-- The in-memory bus: the theorems at concrete inputs.
use remote_runtime_engine.Base.{
  ℕ, ◌<◌, if◌then◌else◌, ◌≡◌, refl, true, false, some, none, [], ◌∷◌, codes, text_eq, lookup,
  insert,
}
use remote_runtime_engine.Events.{plain_event, compiling, running}
use remote_runtime_engine.Events.MemoryBus.{
  Heap, put, stamped, MemoryEventBus, new_memory_event_bus, offer, offer_all, publish, subscribe,
  after_receive, receive, unsubscribe, close_channel, close, all_subscribers,
}
use remote_runtime_engine.Events.Delivery.{
  Reach, here, publishes, subscribes, receives, unsubscribes,
}
use remote_runtime_engine.Events.Shutdown.{includes, close-cleanup_panics}
use remote_runtime_engine.Events.Exact.Publish.{listens, accept, publish-accept}
use remote_runtime_engine.Tests.{whole}

-- No channel has been made yet; what is read there does not matter.
abbrev pub blank : Heap ℕ
blank = λ i. record { owner = []; buffer = []; is_open = false; released = false }

abbrev two : MemoryEventBus ℕ
two = (subscribe (codes "sub-1") (subscribe (codes "sub-1") (new_memory_event_bus blank)).1).1

-- The first of the two subscribers has left.
abbrev left : MemoryEventBus ℕ
left = record two {
  subscribers = (codes "sub-1", 1 ∷ []) ∷ [];
  heap =
      put 0 (record { owner = codes "sub-1"; buffer = []; is_open = false; released = true })
        two.heap;
}

left_reached : Reach (new_memory_event_bus blank) left
unfolding unsubscribe subscribe new_memory_event_bus put text_eq lookup insert
left_reached = unsubscribes 0 (subscribes (codes "sub-1") (subscribes (codes "sub-1") here)) refl

-- The other subscriber is still there when the bus is closed.
abbrev shut : MemoryEventBus ℕ
shut = record left {
  subscribers = [];
  closed = true;
  heap =
      put 1 (record { owner = codes "sub-1"; buffer = []; is_open = false; released = false })
        left.heap;
}

left_shut : close left ≡ some shut
unfolding close put close_channel subscribe text_eq new_memory_event_bus
left_shut = refl

left_open : left.closed ≡ false
unfolding new_memory_event_bus subscribe
left_open = refl

left_includes : includes 1 (all_subscribers left.subscribers) ≡ true
unfolding includes all_subscribers
left_includes = refl

left_kept : (left.heap 1).released ≡ false
unfolding put subscribe new_memory_event_bus
left_kept = refl

close-cleanup_panics_example : unsubscribe 1 shut ≡ none
close-cleanup_panics_example =
    close-cleanup_panics left shut 1 left_open left_shut left_includes left_kept

-- The bus after an event, which the second subscriber has read.
abbrev read : MemoryEventBus ℕ
read = record left {
  heap =
      put 1 (record { owner = codes "sub-1"; buffer = []; is_open = true; released = false })
        (put 1
          (record {
            owner = codes "sub-1";
            buffer = stamped 4 (codes "sub-1") (plain_event whole (codes "sub-1") compiling) ∷ [];
            is_open = true;
            released = false;
          })
          left.heap);
}

read_reached : Reach (new_memory_event_bus blank) read
unfolding unsubscribe subscribe new_memory_event_bus put text_eq lookup insert publish offer_all
    offer receive after_receive
read_reached = receives 1 (
    publishes 4 (codes "sub-1") (some (plain_event whole (codes "sub-1") compiling)) left_reached
      refl)

publish-accept_example :
    (bus' : MemoryEventBus ℕ) × (publish 5
        (codes "sub-1")
        (some (plain_event whole (codes "sub-1") running))
        read
      ≡ some bus')
    × ((ch : ℕ)
        → ch < read.made
        → bus'.heap ch ≡ (
            if listens (codes "sub-1") read ch
            then accept
                (stamped 5 (codes "sub-1") (plain_event whole (codes "sub-1") running))
                (read.heap ch)
            else read.heap ch))
publish-accept_example =
    publish-accept blank read read_reached 5 (codes "sub-1")
      (plain_event whole (codes "sub-1") running)
