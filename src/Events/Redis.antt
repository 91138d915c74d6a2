-- ===== src/Events/Redis.antt =====
-- pkg/events/redis_bus.go: the bus over Redis. The client, its subscription and the JSON encoding are
-- parameters. A subscription is a state with the steps of its goroutine and of its reader.
pub mod Order
use remote_runtime_engine.Base.{
  ℕ, suc, ◌+◌, ◌<◌, ◌≤◌, ◌≡◌, refl, ap, sym, ◌∙◌, ◌⊎◌, inl, inr, Bool, true, false, Option, none,
  some, List, [], ◌∷◌, ◌++◌, append-nil, append_assoc, length, length-append, Text, codes, Result,
  ok, err, ◌==◌, if◌then◌else◌, arith,
}
use remote_runtime_engine.Events.{ExecutionEvent}

abbrev pub redis_event_channel_prefix : Text
redis_event_channel_prefix = codes "speedcode:events:"

pub data RedisBusError : Type 0 where
  marshal_failed client_failed : Text → RedisBusError

module _ {S F : Type 0} (marshal : ExecutionEvent F → Result Text Text)
    (send : Text → Text → S → Option Text × S) where
  unfoldable pub sent : Option Text × S → Option RedisBusError × S
  sent (none, s) = (none, s)
  sent (some e, s) = (some (client_failed e), s)

  unfoldable pub send_encoded : Text → Result Text Text → S → Option RedisBusError × S
  unfolding sent
  send_encoded id (err e) s = (some (marshal_failed e), s)
  send_encoded id (ok t) s = sent (send (redis_event_channel_prefix ++ id) t s)

  -- `Close`, which closes the client.
  unfoldable pub close : (S → Option Text × S) → S → Option RedisBusError × S
  unfolding sent
  close client_close s = sent (client_close s)

  -- The event under its submission, with the time where it has none.
  abbrev pub addressed : Text → ℕ → ExecutionEvent F → ExecutionEvent F
  addressed id now e = record e {
    submission_id = id;
    timestamp = if e.timestamp == 0 then now else e.timestamp;
  }

  -- `Publish` at the time `now`; nothing happens for a nil event.
  unfoldable pub publish : ℕ → Text → Option (ExecutionEvent F) → S → Option RedisBusError × S
  unfolding send_encoded
  publish now id none s = (none, s)
  publish now id (some e) s = send_encoded id (marshal (addressed id now e)) s

-- Where the goroutine of a subscription stands: waiting for a message, about to send an event, or
-- returned, with the event that it dropped.
pub data Forwarder (F : Type 0) : Type 0 where
  waiting : Forwarder F
  holding : ExecutionEvent F → Forwarder F
  returned : Option (ExecutionEvent F) → Forwarder F

-- `received` are the events that have been decoded, `taken` those that the reader took.
pub record Subscription (F : Type 0) : Type 0 where
  pub buffer : List (ExecutionEvent F)
  pub closed : Bool
  pub ctx_done : Bool
  pub forwarder : Forwarder F
  pub unsubscribed : Bool
  pub crashed : Bool
  pub received : List (ExecutionEvent F)
  pub taken : List (ExecutionEvent F)

-- The capacity of the channel.
abbrev pub room : ℕ
room = 64

module _ {F : Type 0} where
  -- What `Subscribe` returns.
  unfoldable pub subscribed : Subscription F
  subscribed = record {
    buffer = [];
    closed = false;
    ctx_done = false;
    forwarder = waiting;
    unsubscribed = false;
    crashed = false;
    received = [];
    taken = [];
  }

  -- `Subscribe`, for the error that the confirmation of the client ends in.
  unfoldable pub subscribe : Option Text → Result Text (Subscription F)
  unfolding subscribed
  subscribe (some e) = err (codes "failed to subscribe to redis pubsub: " ++ e)
  subscribe none = ok subscribed

  -- `cleanup`, whose body runs once: a second call finds the channel closed.
  unfoldable pub cleanup : Subscription F → Subscription F
  cleanup s = record s { closed = true }

  -- What the goroutine holds or has dropped.
  abbrev pub kept : Forwarder F → List (ExecutionEvent F)
  kept waiting = []
  kept (holding e) = e ∷ []
  kept (returned none) = []
  kept (returned (some e)) = e ∷ []

  -- The steps: the context is cancelled; the reader unsubscribes or takes an event; the goroutine
  -- receives a message, which decodes or does not, sends its event, or returns. A send on the closed
  -- channel panics.
  pub data Step : Subscription F → Subscription F → Type 0 where
    cancels : (s : Subscription F) → Step s (record s { ctx_done = true })
    unsubscribes : (s : Subscription F) → Step s (record (cleanup s) { unsubscribed = true })
    takes :
        (s : Subscription F) (e : ExecutionEvent F) (rest : List (ExecutionEvent F))
        → s.buffer ≡ e ∷ rest
        → Step s (record s { buffer = rest; taken = s.taken ++ e ∷ [] })
    skips : (s : Subscription F) → s.forwarder ≡ waiting → Step s s
    receives :
        (s : Subscription F) (e : ExecutionEvent F)
        → s.forwarder ≡ waiting
        → Step s (record s { forwarder = holding e; received = s.received ++ e ∷ [] })
    sends :
        (s : Subscription F) (e : ExecutionEvent F)
        → s.forwarder ≡ holding e
        → s.closed ≡ false
        → length s.buffer < room
        → Step s (record s { forwarder = waiting; buffer = s.buffer ++ e ∷ [] })
    panics :
        (s : Subscription F) (e : ExecutionEvent F)
        → s.forwarder ≡ holding e
        → s.closed ≡ true
        → Step s (record s { crashed = true })
    returns_idle :
        (s : Subscription F)
        → s.forwarder ≡ waiting
        → (s.ctx_done ≡ true) ⊎ (s.closed ≡ true)
        → Step s (record (cleanup s) { forwarder = returned none })
    returns_full :
        (s : Subscription F) (e : ExecutionEvent F)
        → s.forwarder ≡ holding e
        → s.ctx_done ≡ true
        → Step s (record (cleanup s) { forwarder = returned (some e) })

  pub data Reach (s : Subscription F) : Subscription F → Type 0 where
    here : Reach s s
    next : {t u : Subscription F} → Reach s t → Step t u → Reach s u
