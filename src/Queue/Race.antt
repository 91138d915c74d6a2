-- ===== src/Queue/Race.antt =====
-- Calls of pkg/queue/memory_queue.go that overlap. `Enqueue` releases the lock between its test of
-- `closed` and its send, so that other goroutines run in between.
use remote_runtime_engine.Base.{
  ◌≡◌, refl, Bool, true, false, some, Result, List-cases, List, [], ◌∷◌, ◌++◌, ℤ, arith, inl, inr,
}
use remote_runtime_engine.Queue.{SubmissionJob, QueueError}
use remote_runtime_engine.Queue.Memory.{
  MemoryQueue, Outcome, returned, panicked, Wake, by_channel, new_memory_queue, select_send,
  dequeue, close,
}

-- The queue, the jobs whose `Enqueue` has passed the test of `closed` and not yet sent, and whether a
-- goroutine has panicked.
pub record Shared (F : Type 0) : Type 0 where
  pub queue : MemoryQueue F
  pub admitted : List (SubmissionJob F)
  pub crashed : Bool

module _ {F : Type 0} where
  unfoldable pub land : Shared F → Outcome F → Shared F
  land s (returned e q) = record s { queue = q }
  land s panicked = record s { crashed = true }

  pub data Step : Shared F → Shared F → Type 0 where
    tests :
        (s : Shared F) (job : SubmissionJob F)
        → s.queue.closed ≡ false
        → Step s (record s { admitted = job ∷ s.admitted })
    sends :
        (s : Shared F) (before after : List (SubmissionJob F)) (job : SubmissionJob F)
        (ctx_done pick : Bool)
        → s.admitted ≡ before ++ job ∷ after
        → Step s
            (land (record s { admitted = before ++ after }) (select_send ctx_done pick job s.queue))
    receives :
        (s : Shared F) (wake : Wake) (r : Result QueueError (SubmissionJob F)) (q : MemoryQueue F)
        → dequeue wake s.queue ≡ some (r, q)
        → Step s (record s { queue = q })
    closes : (s : Shared F) → Step s (record s { queue = close s.queue })

  pub data Reach (s : Shared F) : Shared F → Type 0 where
    here : Reach s s
    next : {t u : Shared F} → Reach s t → Step t u → Reach s u

  -- What holds at every moment: the channel is closed with the queue, and nobody has panicked while
  -- it is open.
  record Steady (s : Shared F) : Type 0 where
    agreed : s.queue.ch_closed ≡ s.queue.closed
    blamed : s.crashed ≡ true → s.queue.closed ≡ true

  Step-Steady : {s t : Shared F} → Step s t → Steady s → Steady t
  unfolding land select_send close dequeue
  Step-Steady (tests s job h) v = record { agreed = v.agreed; blamed = v.blamed }
  Step-Steady (sends s before after job ctx_done pick h) v = ground (arith, v.agreed)
  Step-Steady (receives s by_channel r q h) v = elim (List-cases s.queue.ch) [
    | inl e ↦ ground arith
    | inr (x, rest, e) ↦ ground arith
  ]
  Step-Steady (receives s _ r q h) v = ground arith
  Step-Steady (closes s) v = ground arith

  Reach-Steady : {s t : Shared F} → Steady s → Reach s t → Steady t
  Reach-Steady v here = v
  Reach-Steady v (next r st) = Step-Steady st (Reach-Steady v r)

  -- A new queue that nobody has called yet.
  unfoldable pub fresh : ℤ → Shared F
  unfolding new_memory_queue
  fresh n = record { queue = new_memory_queue n; admitted = []; crashed = false }

  -- However the calls on a new queue overlap, no goroutine panics before the queue is closed.
  pub crash-needs-close :
      (n : ℤ) (t : Shared F) → Reach (fresh n) t → t.crashed ≡ true → t.queue.closed ≡ true
  unfolding fresh
  crash-needs-close n t r h = (Reach-Steady (record { agreed = refl; blamed = λ e. cc }) r).blamed h
