-- ===== src/Events/Delivery.antt =====
-- The bus of pkg/events/memory_bus.go over any calls, one after another, and any receives of its
-- clients (pkg/api/websocket.go) between them.
use remote_runtime_engine.Base.{
  some_injective, ℕ, ◌≡◌, ◌≢◌, sym, subst, ◌∙◌, Option, none, some, Text, lookup,
}
use remote_runtime_engine.Events.{ExecutionEvent}
use remote_runtime_engine.Events.MemoryBus.{
  Heap, MemoryEventBus, new_memory_event_bus, subscribers_of, publish, subscribe, receive,
  unsubscribe, close,
}
use remote_runtime_engine.Events.Sound.{
  IsSound, publish-IsSound, subscribe-IsSound, receive-IsSound, unsubscribe-IsSound, close-IsSound,
}

-- A bus, and the buses that calls and receives, one after another, lead to; none of them has panicked.
pub data Reach {F : Type 0} (bus : MemoryEventBus F) : MemoryEventBus F → Type 0 where
  here : Reach bus bus
  publishes :
      {mid end : MemoryEventBus F} (now : ℕ) (id : Text) (e : Option (ExecutionEvent F))
      → Reach bus mid
      → publish now id e mid ≡ some end
      → Reach bus end
  subscribes : {mid : MemoryEventBus F} (id : Text) → Reach bus mid → Reach bus (subscribe id mid).1
  receives : {mid : MemoryEventBus F} (ch : ℕ) → Reach bus mid → Reach bus (receive ch mid).1
  unsubscribes :
      {mid end : MemoryEventBus F} (ch : ℕ)
      → Reach bus mid
      → unsubscribe ch mid ≡ some end
      → Reach bus end
  closes : {mid end : MemoryEventBus F} → Reach bus mid → close mid ≡ some end → Reach bus end

module _ {F : Type 0} where
  pub Reach-IsSound : {bus end : MemoryEventBus F} → IsSound bus → Reach bus end → IsSound end
  Reach-IsSound v here = v
  Reach-IsSound {bus} v (publishes {mid} now id e r h) =
      let (end', eq, v') = publish-IsSound now id e mid (Reach-IsSound v r) in
      subst IsSound (some_injective (sym eq ∙ h)) v'
  Reach-IsSound v (subscribes {mid} id r) = subscribe-IsSound id mid (Reach-IsSound v r)
  Reach-IsSound v (receives {mid} ch r) = receive-IsSound ch mid (Reach-IsSound v r)
  Reach-IsSound v (unsubscribes {mid} {end} ch r h) =
      unsubscribe-IsSound ch mid end (Reach-IsSound v r) h
  Reach-IsSound v (closes {mid} {end} r h) = close-IsSound mid end (Reach-IsSound v r) h

  pub new_memory_event_bus-IsSound : (heap : Heap F) → IsSound (new_memory_event_bus heap)
  unfolding new_memory_event_bus subscribers_of lookup
  new_memory_event_bus-IsSound heap = record { mine = λ id. tt }

  -- After any calls and receives on a new bus, none of which has panicked, no publication panics: an event is never
  -- sent on a closed channel, also after clean-ups and after the bus is closed.
  pub publish-never_panics :
      (heap : Heap F) (bus : MemoryEventBus F)
      → Reach (new_memory_event_bus heap) bus
      → (now : ℕ) (id : Text) (e : Option (ExecutionEvent F)) → publish now id e bus ≢ none
  publish-never_panics heap bus r now id e h =
      let (bus', eq, v) =
        publish-IsSound now id e bus (Reach-IsSound (new_memory_event_bus-IsSound heap) r) in
      cc
