-- ===== src/Tests/Pool.antt =====
-- The pool of workers at concrete inputs.
use remote_runtime_engine.Base.{◌≡◌, ◌⊎◌, ◌≤◌, ◌+◌, refl, true, false, some, [], pos}
use remote_runtime_engine.Worker.Pool.{
  PoolConfig, WorkerPool, new_worker_pool, start, stop, times, Reach, here, next, starts, works,
  WorkerStep, polls, dequeues, got_job, after_dequeue,
}
use remote_runtime_engine.Worker.Pool.Ends.{Works, rest, more, workers, pending, workers_end}
use remote_runtime_engine.Worker.Pool.Stops.{jobs_after_stop}

abbrev pair : PoolConfig
pair = record { concurrency = pos 2; poll_timeout = pos 1; worker_id = [] }

-- Two workers, of which one processes a job.
abbrev one_busy : WorkerPool
one_busy = record (new_worker_pool pair) {
  running = true;
  looping = 1;
  busy = 1;
  active_jobs = 1;
  total_jobs = 1;
}

one_busy_reached : Reach (new_worker_pool pair) one_busy
unfolding new_worker_pool start times after_dequeue
one_busy_reached =
    next
      (next (next here (starts (new_worker_pool pair)))
        (works (polls (start (new_worker_pool pair)) 1 refl refl)))
      (works (
        dequeues (record (start (new_worker_pool pair)) { looping = 1; polling = 1 }) 0 got_job
          refl))

-- A stopped pool with a worker in `Dequeue`, which takes one more job.
abbrev stopped : WorkerPool
stopped = record one_busy { running = false; stop_closed = true; looping = 0; polling = 1 }

abbrev late : WorkerPool
late = record stopped { polling = 0; busy = 2; active_jobs = 2; total_jobs = 2 }

late_reached : Reach stopped late
unfolding after_dequeue
late_reached = next here (works (dequeues stopped 0 got_job refl))

jobs_after_stop_example : late.total_jobs ≤ stopped.total_jobs + stopped.polling
jobs_after_stop_example = jobs_after_stop stopped late refl late_reached

one_busy_stopped : stop one_busy ≡ some (record one_busy { running = false; stop_closed = true })
unfolding stop new_worker_pool
one_busy_stopped = refl

late-Works : Works stopped 1 late
unfolding after_dequeue
late-Works = more rest (dequeues stopped 0 got_job refl)

workers_end_example :
    (1 ≤ pending stopped) × ((workers late ≡ 0) ⊎ ((t : WorkerPool) × WorkerStep late t))
workers_end_example = workers_end stopped late 1 refl late-Works
