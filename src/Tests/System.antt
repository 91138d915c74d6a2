-- ===== src/Tests/System.antt =====
-- The parts put together at a concrete submission: it is posted, enqueued and taken by a worker.
use remote_runtime_engine.Base.{
  ℕ, ◌≡◌, refl, false, none, some, [], ◌∷◌, Text, codes, pos, text_eq, to_lower, trim_space,
  is_space, lower_rune, All, lookup,
}
use remote_runtime_engine.Models.Request.{normalize_language, alias}
use remote_runtime_engine.Languages.{get, find, name, registry, register}
use remote_runtime_engine.Queue.{SubmissionJob, normalize_job}
use remote_runtime_engine.Queue.Memory.{
  MemoryQueue, new_memory_queue, by_channel, enqueue, dequeue, select_send, receive,
}
use remote_runtime_engine.Queue.Refinement.{
  Circumstances, memory_queue, Buffers, memory_queue-IsFifo, outcome,
}
use remote_runtime_engine.Store.{
  SubmissionState, MemoryStore, not_found, new_memory_store, save_state, get_state,
}
use remote_runtime_engine.Store.Contract.{memory_store, Stores, memory_store-IsMap}
use remote_runtime_engine.Api.{submission_id, initial_state, job_of, invalid}
use remote_runtime_engine.System
use remote_runtime_engine.System.{System, Reach, Move, idle, post, start}
use remote_runtime_engine.System.Tracking.{IsTracked, IsDone}
use remote_runtime_engine.System.Tracking.Reached.{accepted-IsTracked}
use remote_runtime_engine.System.Settling.{Works, reached-settles}
use remote_runtime_engine.System.Deployed.{
  Deployed, Reaches, deploy, here, next, posts, enqueues, takes,
}
use remote_runtime_engine.System.Deployed.Refinement.{Shows, deployed_refines}
use remote_runtime_engine.System.Deployed.Served.{IsServed, accepted-IsServed}
use remote_runtime_engine.Tests.{whole, ascii}
use remote_runtime_engine.Tests.Api.{wish}
use remote_runtime_engine.Tests.Worker.{calm}

abbrev uuid : Text
uuid = codes "0f8fad5b-d9cb-469f"

wish_valid : invalid ascii wish ≡ none
unfolding invalid get find text_eq to_lower name normalize_language alias trim_space is_space
    lower_rune registry register
wish_valid = refl

abbrev wanted : SubmissionJob ℕ
wanted = job_of (submission_id uuid) 7 wish

abbrev posted : System ℕ
posted = post whole uuid 7 8 wish idle

abbrev waiting : System ℕ
waiting = record posted { pending = []; queue = wanted ∷ []; accepted = wanted ∷ [] }

abbrev at_work : System ℕ
at_work = record waiting { queue = []; running = start whole calm 1 wanted ∷ [] }

at_work-Reach : Reach ℕ whole ascii idle at_work
unfolding post idle
at_work-Reach =
    System.next
      (System.next (System.next System.here (System.posts idle uuid 7 8 wish wish_valid refl))
        (System.enqueues posted [] [] wanted wanted refl refl))
      (System.takes waiting calm 1 wanted [] refl)

accepted-IsTracked_example : All (IsTracked whole at_work) at_work.accepted
accepted-IsTracked_example = accepted-IsTracked ℕ whole ascii at_work at_work-Reach

reached-settles_example :
    (t : System ℕ) × Works ℕ whole ascii at_work t
    × (t.queue ≡ [])
    × (t.running ≡ [])
    × All (IsDone whole t) at_work.accepted
reached-settles_example = reached-settles ℕ whole ascii calm 1 at_work at_work-Reach

abbrev moment : Circumstances
moment = record { ctx_done = false; pick_ctx = false; now = 9; wake = by_channel }

abbrev first_state : SubmissionState ℕ
first_state = initial_state whole (submission_id uuid) 7 wish

abbrev set_up : Deployed (MemoryQueue ℕ) (MemoryStore ℕ) ℕ
set_up = deploy (new_memory_queue (pos 4)) new_memory_store

abbrev with_state : MemoryStore ℕ
with_state = save_state 8 (some first_state) new_memory_store

abbrev with_job : MemoryQueue ℕ
with_job = record (new_memory_queue (pos 4)) { ch = normalize_job whole 9 wanted ∷ [] }

abbrev served : Deployed (MemoryQueue ℕ) (MemoryStore ℕ) ℕ
served = record {
  pending = [];
  queue = record with_job { ch = [] };
  running = start whole calm 1 (normalize_job whole 9 wanted) ∷ [];
  store = with_state;
  accepted = normalize_job whole 9 wanted ∷ [];
}

served-Reaches : Reaches ℕ (memory_queue whole) memory_store whole ascii set_up served
unfolding deploy new_memory_queue new_memory_store get_state outcome enqueue dequeue select_send
    receive lookup
served-Reaches =
    next
      (next
        (next here (
          posts set_up uuid 7 8 wish not_found new_memory_store with_state wish_valid refl refl
            refl))
        (enqueues _ [] [] wanted moment with_job refl refl))
      (takes _ calm 1 (normalize_job whole 9 wanted) moment (record with_job { ch = [] }) refl)

normalize_job-submission_id :
    (c : Circumstances) (job : SubmissionJob ℕ)
    → (normalize_job whole c.now job).submission_id ≡ job.submission_id
unfolding normalize_job
normalize_job-submission_id c job = refl

empty_queue : Buffers {F = ℕ} (new_memory_queue (pos 4)) []
unfolding new_memory_queue
empty_queue = refl

empty_store : Stores {F = ℕ} new_memory_store (λ id. none)
unfolding new_memory_store lookup
empty_store = λ id. refl

deployed_refines_example :
    (s : System ℕ) × Reach ℕ whole ascii idle s
    × Shows ℕ (memory_queue whole) memory_store Buffers Stores whole ascii served s
deployed_refines_example =
    deployed_refines ℕ (memory_queue whole) memory_store Buffers Stores whole ascii
      (memory_queue-IsFifo whole) memory_store-IsMap normalize_job-submission_id
      (new_memory_queue (pos 4)) new_memory_store empty_queue empty_store served served-Reaches

accepted-IsServed_example : All (IsServed memory_store whole Buffers served) served.accepted
accepted-IsServed_example =
    accepted-IsServed ℕ (memory_queue whole) memory_store Buffers Stores whole ascii
      (memory_queue-IsFifo whole) memory_store-IsMap normalize_job-submission_id
      (new_memory_queue (pos 4)) new_memory_store empty_queue empty_store served served-Reaches
