-- ===== src/Tests/Broadcast.antt =====
-- A client that is subscribed before its job starts.
use remote_runtime_engine.Base.{ℕ, ◌≡◌, refl, true, some, codes, reverse, text_eq, arith}
use remote_runtime_engine.Events.MemoryBus.{MemoryEventBus, new_memory_event_bus, subscribe, put}
use remote_runtime_engine.Events.Delivery.{here, subscribes}
use remote_runtime_engine.Events.Exact.Publish.{listens}
use remote_runtime_engine.Worker.Process.{process_job}
use remote_runtime_engine.Worker.Evaluate.{cases_of}
use remote_runtime_engine.Worker.Stream.{published, EndsOnce}
use remote_runtime_engine.Worker.Broadcast.{broadcast, process_job-broadcast}
use remote_runtime_engine.Tests.{whole, sample_job}
use remote_runtime_engine.Tests.Worker.{wild, start}
use remote_runtime_engine.Tests.Events.{blank}

abbrev early : MemoryEventBus ℕ
early = (subscribe (codes "sub-1") (new_memory_event_bus blank)).1

early-listens : listens (codes "sub-1") early 0 ≡ true
unfolding listens subscribe new_memory_event_bus put text_eq
early-listens = refl

process_job-broadcast_example :
    (bus' : MemoryEventBus ℕ) × (broadcast
        (reverse (process_job whole wild (some sample_job) start).1.log)
        early
      ≡ some bus')
    × ((bus'.heap 0).buffer ≡ published (process_job whole wild (some sample_job) start).1.log)
    × EndsOnce (bus'.heap 0).buffer
unfolding subscribe new_memory_event_bus put cases_of
process_job-broadcast_example =
    process_job-broadcast whole wild sample_job 1 blank early 0 (subscribes (codes "sub-1") here)
      (omega arith) early-listens refl (omega arith)
