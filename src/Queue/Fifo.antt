-- ===== src/Queue/Fifo.antt =====
-- The queue of pkg/queue/memory_queue.go as a bounded first-in first-out list of jobs.
use remote_runtime_engine.Base.{
  ℕ, suc, ◌≤◌, ◌<◌, ◌≡◌, refl, Bool, true, false, Option, none, some, List, [], ◌∷◌, ◌++◌, ℤ, Float,
  Result, ok, err, ltb, length, length-append, append_assoc, arith, List-cases, zero, if◌then◌else◌,
  inl, inr,
}
use remote_runtime_engine.Queue.{
  SubmissionJob, QueueError, normalize_job, queue_closed, backpressure_exceeded,
}
use remote_runtime_engine.Queue.Memory.{
  MemoryQueue, Outcome, returned, panicked, Wake, by_channel, by_context, by_timer,
  new_memory_queue, enqueue, dequeue, close, queue_depth,
}

-- What holds of a queue between two calls.
pub record IsSound {F : Type 0} (q : MemoryQueue F) : Type 0 where
  pub bounded : length q.ch ≤ q.capacity
  pub agreed : q.ch_closed ≡ q.closed
  pub roomy : 0 < q.capacity

-- A caller's operation, with what the environment decides in it.
pub data Call (F : Type 0) : Type 0 where
  enqueues : Bool → Bool → ℕ → SubmissionJob F → Call F
  dequeues : Wake → Call F
  closes : Call F

-- The jobs that calls were told of: accepted by an enqueue, delivered by a dequeue.
pub record Ledger (F : Type 0) : Type 0 where
  pub queue : MemoryQueue F
  pub accepted : List (SubmissionJob F)
  pub delivered : List (SubmissionJob F)
  pub crashed : Bool

module _ {F : Type 0} (fl : Float F) where
  unfoldable pub settle : Ledger F → SubmissionJob F → Outcome F → Ledger F
  settle l job (returned none q) = record l { queue = q; accepted = l.accepted ++ job ∷ [] }
  settle l job (returned (some e) q) = record l { queue = q }
  settle l job panicked = record l { crashed = true }

  unfoldable pub hand_out :
      Ledger F → Option (Result QueueError (SubmissionJob F) × MemoryQueue F) → Ledger F
  hand_out l none = l
  hand_out l (some (ok job, q)) = record l { queue = q; delivered = l.delivered ++ job ∷ [] }
  hand_out l (some (err e, q)) = record l { queue = q }

  -- A dequeue that is not ready stays blocked and changes nothing.
  unfoldable pub step : Ledger F → Call F → Ledger F
  unfolding settle hand_out enqueue dequeue close
  step l (enqueues ctx_done pick now job) =
      settle l (normalize_job fl now job) (enqueue fl ctx_done pick now job l.queue)
  step l (dequeues wake) = hand_out l (dequeue wake l.queue)
  step l closes = record l { queue = close l.queue }

  unfoldable pub run : Ledger F → List (Call F) → Ledger F
  run l [] = l
  run l (c ∷ cs) = run (step l c) cs

  -- The ledger balances: what was delivered, then what waits, is what was accepted, in order.
  pub record Balanced (l : Ledger F) : Type 0 where
    pub sound : IsSound l.queue
    pub fifo : l.delivered ++ l.queue.ch ≡ l.accepted
    pub alive : l.crashed ≡ false

  step-Balanced : (l : Ledger F) (c : Call F) → Balanced l → Balanced (step l c)
  unfolding step
  step-Balanced l (enqueues ctx_done pick now job) b =
      let job' = normalize_job fl now job in
      ground (
        arith,
        append_assoc l.delivered l.queue.ch (job' ∷ []),
        length-append l.queue.ch (job' ∷ []),
      )
  step-Balanced l (dequeues by_channel) b = elim (List-cases l.queue.ch) [
    | inl e ↦ ground arith
    | inr (x, rest, e) ↦ ground (arith, append_assoc l.delivered (x ∷ []) rest)
  ]
  step-Balanced l (dequeues by_context) b = b
  step-Balanced l (dequeues by_timer) b = b
  step-Balanced l closes b = ground arith

  run-Balanced : (l : Ledger F) (cs : List (Call F)) → Balanced l → Balanced (run l cs)
  unfolding run
  run-Balanced l [] b = b
  run-Balanced l (c ∷ cs) b = run-Balanced (step l c) cs (step-Balanced l c b)

  -- `NewMemoryQueue(n)`, before any call.
  unfoldable pub opened : ℤ → Ledger F
  unfolding new_memory_queue
  opened n = record { queue = new_memory_queue n; accepted = []; delivered = []; crashed = false }

  opened-Balanced : (n : ℤ) → Balanced (opened n)
  unfolding opened
  opened-Balanced n = record {
    sound = record { bounded = omega arith; agreed = refl; roomy = ground arith };
    fifo = refl;
    alive = refl;
  }

  -- Over any calls one after another on a new queue, the jobs delivered, followed by those that
  -- wait, are the accepted jobs in the order of their acceptance; no call panics, and the queue never
  -- holds more jobs than its capacity.
  pub run-opened-Balanced : (n : ℤ) (cs : List (Call F)) → Balanced (run (opened n) cs)
  run-opened-Balanced n cs = run-Balanced (opened n) cs (opened-Balanced n)

module _ {F : Type 0} (fl : Float F) (q : MemoryQueue F) (v : IsSound q) (now : ℕ)
    (job : SubmissionJob F) where
  -- What an enqueue answers while its context is alive: the closed queue refuses, the full queue
  -- reports backpressure, and any other takes the job with its defaults at the end.
  pub enqueue_lem :
      (pick : Bool)
      → enqueue fl false pick now job q ≡ (
          if q.closed
          then returned (some queue_closed) q
          else if ltb (queue_depth q) q.capacity
          then returned none (record q { ch = q.ch ++ normalize_job fl now job ∷ [] })
          else returned (some backpressure_exceeded) q)
  unfolding enqueue queue_depth
  enqueue_lem pick = ground (arith, v.agreed)

module _ {F : Type 0} where
  -- `n` receives in a row.
  unfoldable pub drain :
      ℕ → MemoryQueue F → MemoryQueue F × List (SubmissionJob F) × Option QueueError
  drain zero q = (q, [], none)
  drain (suc n) q = elim (dequeue by_channel q) [
    | none ↦ (q, [], none)
    | some (err e, q') ↦ (q', [], some e)
    | some (ok job, q') ↦ (let (q'', jobs, e) = drain n q' in (q'', job ∷ jobs, e))
  ]

  drain_all :
      (xs : List (SubmissionJob F)) (q : MemoryQueue F)
      → q.ch ≡ xs
      → q.ch_closed ≡ true
      → ((drain (suc (length xs)) q).1 ≡ xs) × ((drain (suc (length xs)) q).2 ≡ some queue_closed)
  unfolding drain dequeue
  drain_all [] q e h = ground arith
  drain_all (x ∷ xs) q e h = ground (arith, drain_all xs (record q { ch = xs }) refl h)

  -- A closed queue still delivers every job that it holds, in order, and only then reports that it
  -- is closed.
  pub drain-closed :
      (q : MemoryQueue F)
      → q.ch_closed ≡ true
      → (let (q', jobs, e) = drain (suc (length q.ch)) q in (jobs ≡ q.ch) × (e ≡ some queue_closed))
  drain-closed q h = drain_all q.ch q refl h
