-- ===== src/Tests/Redis.antt =====
-- A subscription that has received two events and sent the first.
use remote_runtime_engine.Base.{ℕ, refl, [], ◌∷◌, codes, arith}
use remote_runtime_engine.Events.{ExecutionEvent, plain_event, running}
use remote_runtime_engine.Events.Redis.{
  Subscription, subscribed, waiting, holding, receives, sends, Reach, here, next,
}
use remote_runtime_engine.Events.Redis.Order.{IsOrdered, Reach-IsOrdered}
use remote_runtime_engine.Tests.{whole}

abbrev started : ExecutionEvent ℕ
started = plain_event whole (codes "sub-1") running

abbrev held : Subscription ℕ
held = record subscribed { forwarder = holding started; received = started ∷ [] }

abbrev passed_on : Subscription ℕ
passed_on = record held { forwarder = waiting; buffer = started ∷ [] }

abbrev twice : Subscription ℕ
twice = record passed_on { forwarder = holding started; received = started ∷ started ∷ [] }

twice_reached : Reach subscribed twice
unfolding subscribed
twice_reached =
    next
      (next (next here (receives subscribed started refl))
        (sends held started refl refl (omega arith)))
      (receives passed_on started refl)

Reach-IsOrdered_example : IsOrdered twice
Reach-IsOrdered_example = Reach-IsOrdered twice_reached
