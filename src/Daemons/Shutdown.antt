-- ===== src/Daemons/Shutdown.antt =====
-- The order in which the servers of cmd/api/main.go and cmd/worker/main.go end.
use remote_runtime_engine.Base.{
  ◌≡◌, ◌⊎◌, ℤ, refl, Bool, true, false, ◌&&◌, ◌||◌, Bool-cases, inl, inr, Option, none, some, List,
  [], ◌∷◌, Text, Result, ok, err, Result-cases, pos, ltb_ℤ,
}
use remote_runtime_engine.Models.Request.{is_empty}
use remote_runtime_engine.Daemons.{
  Backing, on_redis, in_memory, Action, fatal, starts_pool, stops_pool, closes_store, RedisDialer,
  backing_of, after_parse, after_ping,
}
use remote_runtime_engine.Daemons.ApiMain.{
  ApiFlags, embeds_workers, api_shutdown, api_serve, after_backing, api_main,
}
use remote_runtime_engine.Daemons.WorkerMain.{WorkerFlags, with_backing, worker_main}

-- Whether the store is closed under running workers, where a pool runs at first or not.
unfoldable pub closed_under_pool : Bool → List Action → Bool
closed_under_pool running [] = false
closed_under_pool running (starts_pool c ∷ rest) = closed_under_pool true rest
closed_under_pool running (stops_pool ∷ rest) = closed_under_pool false rest
closed_under_pool running (closes_store ∷ rest) = running || closed_under_pool running rest
closed_under_pool running (_ ∷ rest) = closed_under_pool running rest

-- Whether the program ends by itself with a pool that was never stopped; a fatal error takes the pool
-- with it.
unfoldable pub left_running : Bool → List Action → Bool
left_running running [] = running
left_running running (fatal e ∷ rest) = false
left_running running (starts_pool c ∷ rest) = left_running true rest
left_running running (stops_pool ∷ rest) = left_running false rest
left_running running (_ ∷ rest) = left_running running rest

unfoldable pub has_started : Option Text → Bool
has_started none = true
has_started (some e) = false

module _ {R : Type 0} (dialer : RedisDialer R) where
  abbrev OnRedis : Result Text Backing → Type 0
  OnRedis b = ((e : Text) × (b ≡ err e)) ⊎ (key : Text) × (ttl : ℤ) × (b ≡ ok (on_redis key ttl))

  after_ping_cases : (url : Text) (e : Option Text) → OnRedis (after_ping dialer url e)
  unfolding after_ping
  after_ping_cases url (some e) = inl (_, refl)
  after_ping_cases url none = inr (_, _, refl)

  -- A URL leads to Redis or to a fatal error.
  after_parse_cases : (url : Text) (r : Result Text R) → OnRedis (after_parse dialer url r)
  unfolding after_parse
  after_parse_cases url (err e) = inl (_, refl)
  after_parse_cases url (ok opt) = after_ping_cases url (dialer.ping opt)

  on_url :
      (f : ApiFlags) (startup : Option Text) (b : Result Text Backing)
      → OnRedis b
      → (closed_under_pool false (after_backing f startup b) ≡ false)
        × (left_running false (after_backing f startup b) ≡ false)
  unfolding closed_under_pool left_running after_backing embeds_workers api_serve api_shutdown
  on_url f startup b (inl (e, k)) = rw (k, after_backing) (refl, refl)
  on_url f (some e) b (inr (key, ttl, k)) = rw (k, after_backing) (refl, refl)
  on_url f none b (inr (key, ttl, k)) = rw (k, after_backing) (refl, refl)

  in_process :
      (f : ApiFlags) (startup : Option Text) (capacity : ℤ)
      → (closed_under_pool false (after_backing f startup (ok (in_memory capacity)))
          ≡ ltb_ℤ (pos 0) f.workers && has_started startup)
        × (left_running false (after_backing f startup (ok (in_memory capacity))) ≡ false)
  unfolding closed_under_pool left_running after_backing embeds_workers api_serve api_shutdown
      has_started
  in_process f (some e) capacity = elim (Bool-cases (ltb_ℤ (pos 0) f.workers)) [
    | inl k ↦ rw (k, after_backing) (refl, refl)
    | inr k ↦ rw (k, after_backing) (refl, refl)
  ]
  in_process f none capacity = elim (Bool-cases (ltb_ℤ (pos 0) f.workers)) [
    | inl k ↦ rw (k, after_backing) (refl, refl)
    | inr k ↦ rw (k, after_backing) (refl, refl)
  ]

  -- The API closes the store under running workers exactly if it runs in memory, with at least one
  -- worker, and its server started; over Redis never. It always stops the pool that it started, unless
  -- a fatal error ends the program.
  pub api_main-closed_under_pool :
      (f : ApiFlags) (startup : Option Text)
      → (closed_under_pool false (api_main dialer f startup)
          ≡ is_empty f.redis_url && (ltb_ℤ (pos 0) f.workers && has_started startup))
        × (left_running false (api_main dialer f startup) ≡ false)
  unfolding api_main backing_of
  api_main-closed_under_pool f startup = elim (Bool-cases (is_empty f.redis_url)) [
    | inl k ↦ rw (k, api_main, backing_of) (in_process f startup (pos 1000))
    | inr k ↦
        rw (k, api_main, backing_of)
          (on_url f startup (after_parse dialer f.redis_url (dialer.parse_url f.redis_url))
            (after_parse_cases f.redis_url (dialer.parse_url f.redis_url)))
  ]

  -- The worker never does, in memory or over Redis: it stops its pool before it closes the store.
  pub worker_main-closed_under_pool :
      (f : WorkerFlags) (host uuid : Text)
      → (closed_under_pool false (worker_main dialer f host uuid) ≡ false)
        × (left_running false (worker_main dialer f host uuid) ≡ false)
  unfolding worker_main with_backing closed_under_pool left_running
  worker_main-closed_under_pool f host uuid = elim (Result-cases (backing_of dialer f.redis_url)) [
    | inl (b, k) ↦ rw (k, with_backing) (refl, refl)
    | inr (e, k) ↦ rw (k, with_backing) (refl, refl)
  ]
