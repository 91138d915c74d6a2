-- ===== src/Tests/Daemons.antt =====
-- The two servers at concrete flags.
use remote_runtime_engine.Base.{◌≡◌, true, false, ◌&&◌, none, [], Text, codes, pos, ok, ltb_ℤ}
use remote_runtime_engine.Models.Request.{is_empty}
use remote_runtime_engine.Daemons.{RedisDialer}
use remote_runtime_engine.Daemons.ApiMain.{ApiFlags, api_main}
use remote_runtime_engine.Daemons.WorkerMain.{WorkerFlags, worker_main}
use remote_runtime_engine.Daemons.Shutdown.{
  closed_under_pool, left_running, has_started, api_main-closed_under_pool,
  worker_main-closed_under_pool,
}

abbrev reachable : RedisDialer Text
reachable = record { parse_url = λ url. ok url; ping = λ opt. none }

abbrev standalone : ApiFlags
standalone = record { port = pos 8080; redis_url = []; max_queue_depth = pos 500; workers = pos 4 }

api_main-closed_under_pool_example :
    (closed_under_pool false (api_main reachable standalone none)
      ≡ is_empty standalone.redis_url && (ltb_ℤ (pos 0) standalone.workers && has_started none))
    × (left_running false (api_main reachable standalone none) ≡ false)
api_main-closed_under_pool_example = api_main-closed_under_pool reachable standalone none

-- The defaults of the flags close the store under the workers.
standalone_late : closed_under_pool false (api_main reachable standalone none) ≡ true
unfolding has_started
standalone_late = (api_main-closed_under_pool reachable standalone none).0

abbrev remote_worker : WorkerFlags
remote_worker = record {
  redis_url = codes "redis://localhost:6379/0";
  concurrency = pos 4;
  worker_id = [];
}

worker_main-closed_under_pool_example :
    (closed_under_pool false (worker_main reachable remote_worker (codes "host") (codes "0f8fad5b"))
      ≡ false)
    × (left_running false (worker_main reachable remote_worker (codes "host") (codes "0f8fad5b"))
        ≡ false)
worker_main-closed_under_pool_example =
    worker_main-closed_under_pool reachable remote_worker (codes "host") (codes "0f8fad5b")
