-- ===== src/Queue/Redis.antt =====
-- pkg/queue/redis_queue.go: the queue over a Redis list. The Redis client and the JSON codec are
-- arguments.
pub mod Refinement
use remote_runtime_engine.Base.{
  ℕ, Bool, ◌||◌, Option, none, some, List, [], ◌∷◌, Text, codes, Float, Result, ok, err,
  if◌then◌else◌,
}
use remote_runtime_engine.Models.Request.{is_empty}
use remote_runtime_engine.Queue.{SubmissionJob, normalize_job}

-- The reply of `BRPOP`: the key and the value, `redis.Nil` at the timeout, or an error.
pub data Popped : Type 0 where
  popped : List Text → Popped
  nil_reply : Popped
  failed : Text → Popped

-- The commands that the queue sends, over the state `S` of the server and the connection.
pub record RedisLists (S : Type 0) : Type 0 where
  pub lpush : Text → Text → S → Option Text × S
  pub brpop : Text → S → Popped × S
  pub llen : Text → S → Result Text ℕ × S
  pub close : S → S

-- `json.Marshal` and `json.Unmarshal` for a job.
pub record JobCodec (F : Type 0) : Type 0 where
  pub marshal : SubmissionJob F → Result Text Text
  pub unmarshal : Text → Result Text (SubmissionJob F)

pub data RedisQueueError : Type 0 where
  nil_job queue_empty : RedisQueueError
  marshal_failed dequeue_failed unmarshal_failed client_failed : Text → RedisQueueError

abbrev pub default_redis_queue_key : Text
default_redis_queue_key = codes "speedcode:queue:submissions"

-- The key of `NewRedisQueue`.
unfoldable pub queue_key : Text → Text
queue_key key = if is_empty key then default_redis_queue_key else key

module _ {S F : Type 0} (client : RedisLists S) (codec : JobCodec F) (key : Text) where
  -- What `LPush` answers.
  unfoldable pub pushed : Option Text × S → Option RedisQueueError × S
  pushed (none, s) = (none, s)
  pushed (some e, s) = (some (client_failed e), s)

  unfoldable pub push_encoded : Result Text Text → S → Option RedisQueueError × S
  unfolding pushed
  push_encoded (err e) s = (some (marshal_failed e), s)
  push_encoded (ok t) s = pushed (client.lpush key t s)

  -- `Enqueue` at the time `now`.
  unfoldable pub enqueue : Float F → ℕ → Option (SubmissionJob F) → S → Option RedisQueueError × S
  unfolding push_encoded
  enqueue fl now none s = (some nil_job, s)
  enqueue fl now (some job) s = push_encoded (codec.marshal (normalize_job fl now job)) s

  unfoldable pub decoded : Result Text (SubmissionJob F) → Result RedisQueueError (SubmissionJob F)
  decoded (ok job) = ok job
  decoded (err e) = err (unmarshal_failed e)

  -- What `Dequeue` makes of a reply, where the context is done or not.
  unfoldable pub after_pop : Bool → Popped → Result RedisQueueError (SubmissionJob F)
  unfolding decoded
  after_pop ctx_done nil_reply = err queue_empty
  after_pop ctx_done (failed e) = if ctx_done then err queue_empty else err (dequeue_failed e)
  after_pop ctx_done (popped []) = err queue_empty
  after_pop ctx_done (popped (k ∷ [])) = err queue_empty
  after_pop ctx_done (popped (k ∷ t ∷ r)) = decoded (codec.unmarshal t)

  -- `Dequeue`.
  unfoldable pub dequeue : Bool → S → Result RedisQueueError (SubmissionJob F) × S
  unfolding after_pop
  dequeue ctx_done s = let (r, s') = client.brpop key s in (after_pop ctx_done r, s')

  unfoldable pub counted : Result Text ℕ × S → Result RedisQueueError ℕ × S
  counted (ok n, s) = (ok n, s)
  counted (err e, s) = (err (client_failed e), s)

  -- `QueueDepth`.
  unfoldable pub queue_depth : S → Result RedisQueueError ℕ × S
  unfolding counted
  queue_depth s = counted (client.llen key s)

  -- `Close`.
  unfoldable pub close : S → S
  close s = client.close s
