-- ===== src/Daemons/ApiMain.antt =====
-- cmd/api/main.go.
use remote_runtime_engine.Base.{
  Bool, true, false, Option, none, some, List, [], ◌∷◌, ◌++◌, Text, codes, ℤ, pos, ltb_ℤ, Result,
  ok, err, if◌then◌else◌,
}
use remote_runtime_engine.Sandbox.Docker.{decimal}
use remote_runtime_engine.Worker.Pool.{PoolConfig}
use remote_runtime_engine.Api.{ServerConfig}
use remote_runtime_engine.Daemons.{
  Backing, on_redis, in_memory, Action, fatal, opens_parts, starts_pool, starts_server,
  awaits_signal, shuts_down_server, cancels_context, stops_pool, closes_queue, closes_bus,
  closes_store, RedisDialer, backing_of,
}

pub record ApiFlags : Type 0 where
  pub port : ℤ
  pub redis_url : Text
  pub max_queue_depth : ℤ
  pub workers : ℤ

-- Whether there are workers in the program itself.
unfoldable pub embeds_workers : ApiFlags → Backing → Bool
embeds_workers f (on_redis key ttl) = false
embeds_workers f (in_memory capacity) = ltb_ℤ (pos 0) f.workers

-- The poll timeout is left to the defaults of the pool.
unfoldable pub embedded_pool : ApiFlags → PoolConfig
embedded_pool f = record {
  concurrency = f.workers;
  poll_timeout = pos 0;
  worker_id = codes "embedded-worker-pool";
}

unfoldable pub server_config : ApiFlags → ServerConfig
server_config f = record { addr = codes ":" ++ decimal f.port; max_queue_depth = f.max_queue_depth }

-- From the signal on: the deferred calls are the last, the latest of them first.
unfoldable pub api_shutdown : Bool → List Action
api_shutdown embedded =
    shuts_down_server
    ∷ closes_queue
    ∷ closes_bus
    ∷ closes_store
    ∷ (if embedded then stops_pool ∷ cancels_context ∷ [] else cancels_context ∷ [])

-- The server runs until the signal, unless it cannot start.
unfoldable pub api_serve : ApiFlags → Option Text → Bool → List Action
unfolding server_config api_shutdown
api_serve f (some e) embedded =
    starts_server (server_config f) ∷ fatal (codes "Server startup failed: " ++ e) ∷ []
api_serve f none embedded = starts_server (server_config f) ∷ awaits_signal ∷ api_shutdown embedded

-- What follows the choice of the parts.
unfoldable pub after_backing : ApiFlags → Option Text → Result Text Backing → List Action
unfolding embeds_workers embedded_pool api_serve
after_backing f startup (err e) = fatal e ∷ []
after_backing f startup (ok b) =
    opens_parts b
    ∷ (if embeds_workers f b
        then starts_pool (embedded_pool f) ∷ api_serve f startup true
        else api_serve f startup false)

-- `main`, for what `Start` of the server returns before the signal.
unfoldable pub api_main : {R : Type 0} → RedisDialer R → ApiFlags → Option Text → List Action
unfolding after_backing
api_main dialer f startup = after_backing f startup (backing_of dialer f.redis_url)
