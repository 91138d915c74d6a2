-- ===== src/Queue/Memory.antt =====
-- pkg/queue/memory_queue.go: the queue over a buffered channel. Where several cases of a `select` are
-- ready, an argument says which one Go picks.
use remote_runtime_engine.Base.{
  ℕ, Bool, true, false, ◌&&◌, Option, none, some, List, [], ◌∷◌, ◌++◌, ℤ, pos, pos_part, leb_ℤ,
  Float, Result, ok, err, ltb, length, if◌then◌else◌,
}
use remote_runtime_engine.Queue.{
  SubmissionJob, QueueError, queue_empty, queue_closed, backpressure_exceeded, context_done,
  normalize_job,
}

pub record MemoryQueue (F : Type 0) : Type 0 where
  pub ch : List (SubmissionJob F)
  pub capacity : ℕ
  pub ch_closed : Bool
  pub closed : Bool

unfoldable pub new_memory_queue : {F : Type 0} → ℤ → MemoryQueue F
new_memory_queue capacity = record {
  ch = [];
  capacity = if leb_ℤ capacity (pos 0) then 10000 else pos_part capacity;
  ch_closed = false;
  closed = false;
}

-- A call that returns an error or nil, and the queue it leaves; or a panic.
pub data Outcome (F : Type 0) : Type 0 where
  returned : Option QueueError → MemoryQueue F → Outcome F
  panicked : Outcome F

-- The `select` of `Enqueue`: the context, the send, or the default. A send on a closed channel is
-- ready and panics.
unfoldable pub select_send :
    {F : Type 0} → Bool → Bool → SubmissionJob F → MemoryQueue F → Outcome F
select_send ctx_done pick_ctx job q =
    if ctx_done && pick_ctx
    then returned (some context_done) q
    else if q.ch_closed
    then panicked
    else if ltb (length q.ch) q.capacity
    then returned none (record q { ch = q.ch ++ job ∷ [] })
    else if ctx_done
    then returned (some context_done) q
    else returned (some backpressure_exceeded) q

-- `Enqueue`, where nothing comes between the test of `closed` and the `select`.
unfoldable pub enqueue :
    {F : Type 0} → Float F → Bool → Bool → ℕ → SubmissionJob F → MemoryQueue F → Outcome F
unfolding select_send
enqueue fl ctx_done pick_ctx now job q =
    if q.closed
    then returned (some queue_closed) q
    else select_send ctx_done pick_ctx (normalize_job fl now job) q

-- The case by which the `select` of `Dequeue` wakes up.
pub data Wake : Type 0 where
  by_context by_timer by_channel : Wake

-- A receive: none while the channel is open and empty, for then it is not ready.
unfoldable pub receive :
    {F : Type 0}
    → Bool
    → List (SubmissionJob F)
    → Option (Result QueueError (SubmissionJob F) × List (SubmissionJob F))
receive ch_closed (job ∷ rest) = some (ok job, rest)
receive true [] = some (err queue_closed, [])
receive false [] = none

-- `Dequeue`: none where the case cannot be the one that wakes the call.
unfoldable pub dequeue :
    {F : Type 0}
    → Wake
    → MemoryQueue F
    → Option (Result QueueError (SubmissionJob F) × MemoryQueue F)
unfolding receive
dequeue by_context q = some (err context_done, q)
dequeue by_timer q = some (err queue_empty, q)
dequeue by_channel q = elim (receive q.ch_closed q.ch) [
  | none ↦ none
  | some (r, rest) ↦ some (r, record q { ch = rest })
]

unfoldable pub queue_depth : {F : Type 0} → MemoryQueue F → ℕ
queue_depth q = length q.ch

-- `Close`.
unfoldable pub close : {F : Type 0} → MemoryQueue F → MemoryQueue F
close q = if q.closed then q else record q { closed = true; ch_closed = true }
