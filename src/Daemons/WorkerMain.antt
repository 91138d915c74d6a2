-- ===== src/Daemons/WorkerMain.antt =====
-- cmd/worker/main.go.
use remote_runtime_engine.Base.{
  List, [], ◌∷◌, ◌++◌, Text, codes, ℤ, pos, Result, ok, err, take, if◌then◌else◌,
}
use remote_runtime_engine.Models.Request.{is_empty}
use remote_runtime_engine.Worker.Pool.{PoolConfig}
use remote_runtime_engine.Daemons.{
  Backing, Action, fatal, opens_parts, starts_pool, awaits_signal, cancels_context, stops_pool,
  closes_queue, closes_bus, closes_store, RedisDialer, backing_of,
}

pub record WorkerFlags : Type 0 where
  pub redis_url : Text
  pub concurrency : ℤ
  pub worker_id : Text

-- The name of a worker that is given none, on a host of some name and with a new UUID.
unfoldable pub worker_name : Text → Text → Text → Text
worker_name host uuid given = if is_empty given then host ++ (codes "-" ++ take 8 uuid) else given

unfoldable pub pool_config : WorkerFlags → Text → PoolConfig
pool_config f id = record {
  concurrency = f.concurrency;
  poll_timeout = pos 2000000000;
  worker_id = id;
}

-- From the signal on; the deferred `cancel` cancels once more.
abbrev pub worker_shutdown : List Action
worker_shutdown =
    cancels_context ∷ stops_pool ∷ closes_queue ∷ closes_bus ∷ closes_store ∷ cancels_context ∷ []

-- What follows the choice of the parts.
unfoldable pub with_backing : WorkerFlags → Text → Result Text Backing → List Action
unfolding pool_config
with_backing f id (err e) = fatal e ∷ []
with_backing f id (ok b) =
    opens_parts b ∷ starts_pool (pool_config f id) ∷ awaits_signal ∷ worker_shutdown

-- `main`.
unfoldable pub worker_main : {R : Type 0} → RedisDialer R → WorkerFlags → Text → Text → List Action
unfolding with_backing worker_name
worker_main dialer f host uuid =
    with_backing f (worker_name host uuid f.worker_id) (backing_of dialer f.redis_url)
