-- ===== src/Worker/Pool.antt =====
-- pkg/worker/pool.go: the pool of workers. Its workers are counted by where they stand: at the head of
-- the loop, waiting in `Dequeue`, or in `ProcessJob`; `Worker.Process` is what they do there.
pub mod Stops
pub mod Ends
use remote_runtime_engine.Base.{
  ℕ, suc, ◌+◌, ◌-◌, ◌≡◌, ◌⊎◌, Bool, true, false, Option, none, some, Text, codes, ℤ, pos, leb_ℤ,
  if◌then◌else◌,
}
use remote_runtime_engine.Models.Request.{is_empty}

-- Times are nanoseconds.
pub record PoolConfig : Type 0 where
  pub concurrency : ℤ
  pub poll_timeout : ℤ
  pub worker_id : Text

pub record WorkerPool : Type 0 where
  pub cfg : PoolConfig
  pub stop_closed : Bool
  pub running : Bool
  pub looping : ℕ
  pub polling : ℕ
  pub busy : ℕ
  pub active_jobs : ℕ
  pub total_jobs : ℕ

-- `NewWorkerPool`.
unfoldable pub new_worker_pool : PoolConfig → WorkerPool
new_worker_pool cfg = record {
  cfg = record {
    concurrency = if leb_ℤ cfg.concurrency (pos 0) then pos 4 else cfg.concurrency;
    poll_timeout = if leb_ℤ cfg.poll_timeout (pos 0) then pos 2000000000 else cfg.poll_timeout;
    worker_id = if is_empty cfg.worker_id then codes "worker-daemon" else cfg.worker_id;
  };
  stop_closed = false;
  running = false;
  looping = 0;
  polling = 0;
  busy = 0;
  active_jobs = 0;
  total_jobs = 0;
}

-- How often `for i := 0; i < n; i++` runs.
unfoldable pub times : ℤ → ℕ
times (pos n) = n
times _ = 0

-- `Start`: the stop channel is not made anew.
unfoldable pub start : WorkerPool → WorkerPool
unfolding times
start p =
    if p.running
    then p
    else record p { running = true; looping = p.looping + times p.cfg.concurrency }

-- `Stop` up to the wait for the workers; none is the panic of a second close.
unfoldable pub stop : WorkerPool → Option WorkerPool
stop p =
    if p.running
    then (if p.stop_closed then none else some (record p { running = false; stop_closed = true }))
    else some p

-- `ActiveJobs` and `TotalProcessed`.
unfoldable pub busy_and_processed : WorkerPool → ℕ × ℕ
busy_and_processed p = (p.active_jobs, p.total_jobs)

-- What a `Dequeue` ends in. By `ErrQueueClosed` or a done context the worker ends; by any other error it
-- sleeps at most and polls again.
pub data Polled : Type 0 where
  got_job is_over failed_poll : Polled

-- The worker that waits goes on; its counters change with it.
unfoldable pub after_dequeue : Polled → WorkerPool → WorkerPool
after_dequeue got_job p = record p {
  polling = p.polling - 1;
  busy = suc p.busy;
  active_jobs = suc p.active_jobs;
  total_jobs = suc p.total_jobs;
}
after_dequeue is_over p = record p { polling = p.polling - 1 }
after_dequeue failed_poll p = record p { polling = p.polling - 1; looping = suc p.looping }

-- `ProcessJob` returns.
unfoldable pub after_job : WorkerPool → WorkerPool
after_job p = record p {
  busy = p.busy - 1;
  looping = suc p.looping;
  active_jobs = p.active_jobs - 1;
}

-- One step of a worker. The `select` takes its default only where neither the context is done nor the
-- stop channel is closed. A `Dequeue` returns at its timeout at the latest.
pub data WorkerStep : WorkerPool → WorkerPool → Type 0 where
  polls :
      (p : WorkerPool) (n : ℕ)
      → p.looping ≡ suc n
      → p.stop_closed ≡ false
      → WorkerStep p (record p { looping = n; polling = suc p.polling })
  leaves :
      (p : WorkerPool) (n : ℕ) (ctx_done : Bool)
      → p.looping ≡ suc n
      → (p.stop_closed ≡ true) ⊎ (ctx_done ≡ true)
      → WorkerStep p (record p { looping = n })
  dequeues :
      (p : WorkerPool) (n : ℕ) (r : Polled) → p.polling ≡ suc n → WorkerStep p (after_dequeue r p)
  finishes : (p : WorkerPool) (n : ℕ) → p.busy ≡ suc n → WorkerStep p (after_job p)

-- One step of the pool: a call of `Start` or `Stop`, or a worker's.
pub data Step : WorkerPool → WorkerPool → Type 0 where
  starts : (p : WorkerPool) → Step p (start p)
  stops : (p q : WorkerPool) → stop p ≡ some q → Step p q
  works : {p q : WorkerPool} → WorkerStep p q → Step p q

pub data Reach (p : WorkerPool) : WorkerPool → Type 0 where
  here : Reach p p
  next : {q t : WorkerPool} → Reach p q → Step q t → Reach p t
