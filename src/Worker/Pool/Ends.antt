-- ===== src/Worker/Pool/Ends.antt =====
-- The end of the workers of pkg/worker/pool.go, for which `Stop` waits.
use remote_runtime_engine.Base.{
  ℕ, zero, suc, ◌+◌, ◌*◌, ◌≤◌, ◌<◌, ◌≡◌, refl, ◌⊎◌, inl, inr, true, false, arith, ltb, Bool-cases,
}
use remote_runtime_engine.Worker.Pool.{
  WorkerPool, got_job, is_over, failed_poll, after_dequeue, after_job, WorkerStep, polls, leaves,
  dequeues, finishes,
}

-- The workers of a pool, wherever they stand.
abbrev pub workers : WorkerPool → ℕ
workers p = p.looping + p.polling + p.busy

-- What the workers can still do at most, once the stop channel is closed.
abbrev pub pending : WorkerPool → ℕ
pending p = p.looping + 2 * p.busy + 3 * p.polling

-- `n` steps of the workers, with no call of `Start` or `Stop` between them.
pub data Works (p : WorkerPool) : ℕ → WorkerPool → Type 0 where
  rest : Works p zero p
  more : {n : ℕ} {q t : WorkerPool} → Works p n q → WorkerStep q t → Works p (suc n) t

WorkerStep-pending :
    {p q : WorkerPool}
    → WorkerStep p q
    → p.stop_closed ≡ true
    → (q.stop_closed ≡ true) × (suc (pending q) ≤ pending p)
unfolding after_dequeue after_job
WorkerStep-pending (polls p n e h) k = cc
WorkerStep-pending (leaves p n c e h) k = (k, omega (arith, e))
WorkerStep-pending (dequeues p n got_job e) k = (k, omega (arith, e))
WorkerStep-pending (dequeues p n is_over e) k = (k, omega (arith, e))
WorkerStep-pending (dequeues p n failed_poll e) k = (k, omega (arith, e))
WorkerStep-pending (finishes p n e) k = (k, omega (arith, e))

Works-pending :
    {p q : WorkerPool} {n : ℕ}
    → p.stop_closed ≡ true
    → Works p n q
    → (q.stop_closed ≡ true) × (n + pending q ≤ pending p)
Works-pending h rest = (h, omega arith)
Works-pending h (more w s) =
    let (k, le) = Works-pending h w in let (k', lt) = WorkerStep-pending s k in (k', omega arith)

step_from :
    (q : WorkerPool) (l m b : ℕ)
    → q.looping ≡ l
    → q.polling ≡ m
    → q.busy ≡ b
    → q.stop_closed ≡ true
    → 0 < l + m + b
    → (t : WorkerPool) × WorkerStep q t
step_from q (suc l) m b e _ _ h _ = (_, leaves q l false e (inl h))
step_from q zero (suc m) b _ e _ h _ = (_, dequeues q m is_over e)
step_from q zero zero (suc b) _ _ e h _ = (_, finishes q b e)
step_from q zero zero zero _ _ _ h lt = absurd (omega arith)

-- Once the stop channel is closed the workers end: they make at most one step for each that stands at
-- the head of its loop, two for each in a job and three for each in `Dequeue`; and as long as one of
-- them is left, one of them can make a step.
pub workers_end :
    (p q : WorkerPool) (n : ℕ)
    → p.stop_closed ≡ true
    → Works p n q
    → (n ≤ pending p) × ((workers q ≡ 0) ⊎ ((t : WorkerPool) × WorkerStep q t))
workers_end p q n h w =
    let (k, le) = Works-pending h w in
    (
      omega arith,
      elim (Bool-cases (ltb 0 (workers q))) [
        | inl some_left ↦
            inr (step_from q q.looping q.polling q.busy refl refl refl k (ground arith))
        | inr none_left ↦ inl (ground arith)
      ],
    )
