-- ===== src/Worker/Pool/Stops.antt =====
-- The counters of the pool of pkg/worker/pool.go, and what it still does after `Stop`.
use remote_runtime_engine.Base.{
  ◌⊎◌, ◌+◌, ◌≤◌, ◌≡◌, refl, inl, inr, true, Bool-cases, none, some, arith,
}
use remote_runtime_engine.Worker.Pool.{
  PoolConfig, WorkerPool, new_worker_pool, start, stop, got_job, is_over, failed_poll,
  after_dequeue, after_job, Step, works, starts, stops, polls, leaves, dequeues, finishes, Reach,
  here, next,
}

-- The jobs in work are counted by `activeJobs`, and every one of them by `totalJobs`.
pub record IsCounted (p : WorkerPool) : Type 0 where
  pub active : p.active_jobs ≡ p.busy
  pub total : p.busy ≤ p.total_jobs
  pub begun : (p.stop_closed ≡ true) ⊎ (p.running ≡ true) ⊎ (p.looping + p.polling + p.busy ≡ 0)

Step-IsCounted : {p q : WorkerPool} → Step p q → IsCounted p → IsCounted q
unfolding start stop after_dequeue after_job
Step-IsCounted (starts p) v = ground (arith, v.active, v.total, v.begun)
Step-IsCounted (stops p q h) v = ground (arith, v.active, v.total, v.begun, h)
Step-IsCounted (works (polls p n e h)) v = ground (arith, v.active, v.total, v.begun)
Step-IsCounted (works (leaves p n c e h)) v = ground (arith, v.active, v.total, v.begun)
Step-IsCounted (works (dequeues p n got_job e)) v = ground (arith, v.active, v.total, v.begun)
Step-IsCounted (works (dequeues p n is_over e)) v = ground (arith, v.active, v.total, v.begun)
Step-IsCounted (works (dequeues p n failed_poll e)) v = ground (arith, v.active, v.total, v.begun)
Step-IsCounted (works (finishes p n e)) v = ground (arith, v.active, v.total, v.begun)

Reach-IsCounted : {p q : WorkerPool} → IsCounted p → Reach p q → IsCounted q
Reach-IsCounted v here = v
Reach-IsCounted v (next r s) = Step-IsCounted s (Reach-IsCounted v r)

-- Whatever a new pool does, `ActiveJobs` is the number of workers that process a job, `TotalProcessed`
-- is at least as large, and before the first `Start` no worker is there.
pub counters : (cfg : PoolConfig) (p : WorkerPool) → Reach (new_worker_pool cfg) p → IsCounted p
unfolding new_worker_pool
counters cfg p r =
    Reach-IsCounted (record { active = refl; total = omega arith; begun = inr (inr refl) }) r

-- What holds of a pool `q` after the stopped pool `p`.
record Stopped (p q : WorkerPool) : Type 0 where
  shut : q.stop_closed ≡ true
  spent : q.total_jobs + q.polling ≤ p.total_jobs + p.polling

Step-Stopped : {p q t : WorkerPool} → Stopped p q → Step q t → Stopped p t
unfolding start stop after_dequeue after_job
Step-Stopped v (starts q) = ground (arith, v.shut, v.spent)
Step-Stopped v (stops q t h) = ground (arith, v.shut, v.spent, h)
Step-Stopped v (works (polls q n e h)) = ground (arith, v.shut, v.spent)
Step-Stopped v (works (leaves q n c e h)) = ground (arith, v.shut, v.spent)
Step-Stopped v (works (dequeues q n got_job e)) = ground (arith, v.shut, v.spent)
Step-Stopped v (works (dequeues q n is_over e)) = ground (arith, v.shut, v.spent)
Step-Stopped v (works (dequeues q n failed_poll e)) = ground (arith, v.shut, v.spent)
Step-Stopped v (works (finishes q n e)) = ground (arith, v.shut, v.spent)

Reach-Stopped : {p q : WorkerPool} → p.stop_closed ≡ true → Reach p q → Stopped p q
Reach-Stopped h here = record { shut = h; spent = omega arith }
Reach-Stopped h (next r s) = Step-Stopped (Reach-Stopped h r) s

-- After the stop channel is closed, whatever follows, another `Start` too, the pool takes up at most one
-- job for every worker that was waiting in `Dequeue` at that time.
pub jobs_after_stop :
    (p q : WorkerPool) → p.stop_closed ≡ true → Reach p q → q.total_jobs ≤ p.total_jobs + p.polling
jobs_after_stop p q h r = omega (arith, (Reach-Stopped h r).spent)

-- A `Stop` of a running pool is followed by a panic, if the pool is started and stopped again.
pub restart_panics : (p q : WorkerPool) → p.running ≡ true → stop p ≡ some q → stop (start q) ≡ none
unfolding start stop
restart_panics p q h k = elim (Bool-cases p.stop_closed) [
  | inl e ↦ absurd (ground (arith, e, h, k))
  | inr e ↦ ground (arith, e, h, k)
]
