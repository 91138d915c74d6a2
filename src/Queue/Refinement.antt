-- ===== src/Queue/Refinement.antt =====
-- The queue of pkg/queue/memory_queue.go as an implementation of the interface `JobQueue`.
use remote_runtime_engine.Base.{
  ℕ, ◌≡◌, Bool, Option, none, some, ok, err, List, [], ◌∷◌, ◌++◌, List-cases, Float, inl, inr,
  arith,
}
use remote_runtime_engine.Queue.{SubmissionJob, QueueError, normalize_job}
use remote_runtime_engine.Queue.Memory
use remote_runtime_engine.Queue.Memory.{
  MemoryQueue, Outcome, returned, panicked, Wake, by_context, by_timer, by_channel, select_send,
  receive,
}
use remote_runtime_engine.Queue.Contract.{JobQueue, IsFifo}

-- What the environment decides in a call: whether the context is done, which ready case a `select`
-- takes, the time, and what wakes a `Dequeue`.
pub record Circumstances : Type 0 where
  pub ctx_done : Bool
  pub pick_ctx : Bool
  pub now : ℕ
  pub wake : Wake

module _ {F : Type 0} where
  unfoldable pub outcome : Outcome F → Option (Option QueueError × MemoryQueue F)
  outcome (returned e q) = some (e, q)
  outcome panicked = none

  -- The in-memory queue.
  abbrev pub memory_queue : Float F → JobQueue (MemoryQueue F) Circumstances QueueError F
  memory_queue fl = record {
    stored = λ c job. normalize_job fl c.now job;
    enqueue = λ c job q. outcome (Memory.enqueue fl c.ctx_done c.pick_ctx c.now job q);
    dequeue = λ c q. Memory.dequeue c.wake q;
    queue_depth = λ q. (ok (Memory.queue_depth q), q);
    close = Memory.close;
  }

  abbrev pub Buffers : MemoryQueue F → List (SubmissionJob F) → Type 0
  Buffers q xs = q.ch ≡ xs

  memory-adds :
      (fl : Float F) (c : Circumstances) (job : SubmissionJob F) (q q' : MemoryQueue F)
      (xs : List (SubmissionJob F))
      → (memory_queue fl).enqueue c job q ≡ some (none, q')
      → Buffers q xs
      → Buffers q' (xs ++ normalize_job fl c.now job ∷ [])
  unfolding outcome Memory.enqueue select_send
  memory-adds fl c job q q' xs h e = ground arith

  memory-refuses :
      (fl : Float F) (c : Circumstances) (job : SubmissionJob F) (q q' : MemoryQueue F)
      (x : QueueError) (xs : List (SubmissionJob F))
      → (memory_queue fl).enqueue c job q ≡ some (some x, q')
      → Buffers q xs
      → Buffers q' xs
  unfolding outcome Memory.enqueue select_send
  memory-refuses fl c job q q' x xs h e = ground arith

  memory-takes :
      (w : Wake) (q q' : MemoryQueue F) (job : SubmissionJob F) (xs : List (SubmissionJob F))
      → Memory.dequeue w q ≡ some (ok job, q')
      → Buffers q xs
      → (rest : List (SubmissionJob F)) × (xs ≡ job ∷ rest) × Buffers q' rest
  unfolding Memory.dequeue receive
  memory-takes by_context q q' job xs h e = cc
  memory-takes by_timer q q' job xs h e = cc
  memory-takes by_channel q q' job xs h e = elim (List-cases q.ch) [
    | inl k ↦ absurd (ground arith)
    | inr (x, rest, k) ↦ (rest, ground arith, ground arith)
  ]

  memory-fails :
      (w : Wake) (q q' : MemoryQueue F) (x : QueueError) (xs : List (SubmissionJob F))
      → Memory.dequeue w q ≡ some (err x, q')
      → Buffers q xs
      → Buffers q' xs
  unfolding Memory.dequeue receive
  memory-fails by_context q q' x xs h e = ground arith
  memory-fails by_timer q q' x xs h e = ground arith
  memory-fails by_channel q q' x xs h e = elim (List-cases q.ch) [
    | inl k ↦ ground arith
    | inr (y, rest, k) ↦ absurd (ground arith)
  ]

  -- The in-memory queue is a first-in first-out list: what it holds is what its channel buffers.
  pub memory_queue-IsFifo : (fl : Float F) → IsFifo (memory_queue fl) Buffers
  unfolding Memory.close Memory.queue_depth
  memory_queue-IsFifo fl = record {
    adds = memory-adds fl;
    refuses = memory-refuses fl;
    takes = λ c. memory-takes c.wake;
    fails = λ c. memory-fails c.wake;
    counts = λ q q' n xs h e. ground arith;
    closes = λ q xs e. ground arith;
  }
