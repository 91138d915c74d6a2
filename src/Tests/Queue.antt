-- ===== src/Tests/Queue.antt =====
-- The queue and the store: the theorems at concrete inputs.
use remote_runtime_engine.Base.{
  ℕ, suc, some, ◌≡◌, refl, true, false, List, [], ◌∷◌, pos, length, arith,
}
use remote_runtime_engine.Queue.{SubmissionJob, normalize_job, queue_closed, backpressure_exceeded}
use remote_runtime_engine.Queue.Memory.{MemoryQueue, by_channel, by_timer, select_send, close}
use remote_runtime_engine.Queue.Fifo.{
  IsSound, Call, enqueues, dequeues, closes, Balanced, run, opened, run-opened-Balanced,
  enqueue_lem, drain, drain-closed,
}
use remote_runtime_engine.Queue.Race
use remote_runtime_engine.Queue.Race.{
  sends, Shared, Reach, here, next, tests, land, fresh, crash-needs-close,
}
use remote_runtime_engine.Tests.{whole, sample_job}

-- Three jobs on a queue of two places: the third is refused; then a receive, a close, a refused job.
abbrev calls : List (Call ℕ)
calls =
    enqueues false false 1 sample_job
    ∷ enqueues false false 2 sample_job
    ∷ enqueues false false 3 sample_job
    ∷ dequeues by_channel
    ∷ closes
    ∷ enqueues false false 4 sample_job
    ∷ dequeues by_timer
    ∷ []

run-opened-Balanced_example : Balanced whole (run whole (opened whole (pos 2)) calls)
run-opened-Balanced_example = run-opened-Balanced whole (pos 2) calls

calls_ledger :
    (length (run whole (opened whole (pos 2)) calls).accepted ≡ 2)
    × (length (run whole (opened whole (pos 2)) calls).delivered ≡ 1)
unfolding run opened normalize_job remote_runtime_engine.Queue.Fifo.step
calls_ledger = (refl, refl)

abbrev full_queue : MemoryQueue ℕ
full_queue = record { ch = sample_job ∷ []; capacity = 1; ch_closed = false; closed = false }

full_queue-IsSound : IsSound full_queue
full_queue-IsSound = record { bounded = omega arith; agreed = refl; roomy = omega arith }

abbrev closed_queue : MemoryQueue ℕ
closed_queue = record full_queue { ch_closed = true; closed = true }

-- An enqueue between its test and its send.
abbrev midway : Shared ℕ
midway = record (fresh (pos 2)) { admitted = sample_job ∷ [] }

abbrev fallen : Shared ℕ
fallen = record {
  queue = record { ch = []; capacity = 2; ch_closed = true; closed = true };
  admitted = [];
  crashed = true;
}

fallen_reached : Reach (fresh (pos 2)) fallen
unfolding fresh close select_send land
fallen_reached =
    next (next (next here (tests (fresh (pos 2)) sample_job refl)) (Race.closes midway))
      (sends (record midway { queue = fallen.queue }) [] [] sample_job false false refl)

crash-needs-close_example : fallen.queue.closed ≡ true
crash-needs-close_example = crash-needs-close (pos 2) fallen fallen_reached refl

drain-closed_example :
    (let (q', jobs, e) = drain (suc (length closed_queue.ch)) closed_queue in
      (jobs ≡ closed_queue.ch) × (e ≡ some queue_closed))
drain-closed_example = drain-closed closed_queue refl
