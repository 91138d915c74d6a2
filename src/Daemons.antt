-- ===== src/Daemons.antt =====
-- cmd/api/main.go and cmd/worker/main.go: what the two servers do, as the list of their actions from the
-- parsed flags on, with the deferred calls where they run. What they log is left out, and the log of a
-- fatal error, which ends the program at once without the deferred calls, is an action. The URL of
-- Redis is parsed and the server is pinged by the client, which is a parameter.
pub mod ApiMain
pub mod WorkerMain
pub mod Shutdown
use remote_runtime_engine.Base.{
  Option, none, some, List, [], ◌∷◌, Text, codes, ◌++◌, ℤ, pos, Result, ok, err, if◌then◌else◌,
}
use remote_runtime_engine.Models.Request.{is_empty}
use remote_runtime_engine.Queue.Redis.{default_redis_queue_key}
use remote_runtime_engine.Worker.Pool.{PoolConfig}
use remote_runtime_engine.Api.{ServerConfig}

-- The queue, the bus and the store: over Redis, under a key and with a time to live, or in memory, with
-- a capacity of the queue.
pub data Backing : Type 0 where
  on_redis : Text → ℤ → Backing
  in_memory : ℤ → Backing

pub data Action : Type 0 where
  fatal : Text → Action
  opens_parts : Backing → Action
  starts_pool : PoolConfig → Action
  starts_server : ServerConfig → Action
  awaits_signal : Action
  shuts_down_server : Action
  cancels_context : Action
  stops_pool : Action
  closes_queue : Action
  closes_bus : Action
  closes_store : Action

-- `redis.ParseURL`, and `Ping` of the client for its options.
pub record RedisDialer (R : Type 0) : Type 0 where
  pub parse_url : Text → Result Text R
  pub ping : R → Option Text

module _ {R : Type 0} (dialer : RedisDialer R) (url : Text) where
  -- What follows `Ping`: an error is fatal.
  unfoldable pub after_ping : Option Text → Result Text Backing
  after_ping (some e) = err (codes "Failed to connect to Redis at " ++ (url ++ (codes ": " ++ e)))
  after_ping none = ok (on_redis default_redis_queue_key (pos 86400000000000))

  -- What follows `ParseURL`.
  unfoldable pub after_parse : Result Text R → Result Text Backing
  unfolding after_ping
  after_parse (err e) = err (codes "Invalid Redis URL: " ++ e)
  after_parse (ok opt) = after_ping (dialer.ping opt)

  -- The choice of both programs.
  unfoldable pub backing_of : Result Text Backing
  unfolding after_parse
  backing_of =
      if is_empty url then ok (in_memory (pos 1000)) else after_parse (dialer.parse_url url)
