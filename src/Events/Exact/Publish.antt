-- ===== src/Events/Exact/Publish.antt =====
-- Which channels a publication of pkg/events/memory_bus.go reaches.
use remote_runtime_engine.Base.{
  ℕ, ◌<◌, ◌≡◌, refl, sym, ap, subst, ◌∙◌, Bool, Bool-cases, Option-cases, inl, inr, true, false,
  ◌&&◌, ◌||◌, not, Option, none, some, some_injective, List, [], ◌∷◌, ◌++◌, Text, text_eq,
  text_eq_iff, text_eq_sound, ◌==◌, ltb, length, arith, if◌then◌else◌,
}
use remote_runtime_engine.Events.{ExecutionEvent}
use remote_runtime_engine.Events.MemoryBus.{
  Channel, Heap, put, room, MemoryEventBus, new_memory_event_bus, offer, offer_all, stamped,
  subscribers_of, publish,
}
use remote_runtime_engine.Events.Sound.{IsSound, Mine, publish-IsSound}
use remote_runtime_engine.Events.Shutdown.{includes, All-includes}
use remote_runtime_engine.Events.Delivery.{
  Reach, here, publishes, subscribes, receives, unsubscribes, closes, Reach-IsSound,
  new_memory_event_bus-IsSound,
}
use remote_runtime_engine.Events.Exact.{
  Distinct, IsExact, new-IsExact, subscribe-IsExact, receive-IsExact, put-same, put-other,
}
use remote_runtime_engine.Events.Exact.Calls.{unsubscribe-IsExact, close-IsExact}

if-true {ℓ} : {A : Type ℓ} (b : Bool) (x y : A) → b ≡ true → (if b then x else y) ≡ x
if-true b x y h = rw (h) refl

if-false {ℓ} : {A : Type ℓ} (b : Bool) (x y : A) → b ≡ false → (if b then x else y) ≡ y
if-false b x y h = rw (h) refl

module _ {F : Type 0} where
  -- The channel with the event at the end, where there is room.
  unfoldable pub accept : ExecutionEvent F → Channel F → Channel F
  accept e c = if ltb (length c.buffer) room then record c { buffer = c.buffer ++ e ∷ [] } else c

  accept_keeps :
      (e : ExecutionEvent F) (c : Channel F)
      → ((accept e c).owner ≡ c.owner) × ((accept e c).is_open ≡ c.is_open)
  unfolding accept
  accept_keeps e c = (ground arith, ground arith)

  offer-accept : (e : ExecutionEvent F) (c c' : Channel F) → offer e c ≡ some c' → c' ≡ accept e c
  unfolding offer accept
  offer-accept e c c' h = ground (arith, h)

  -- Every channel of the list is offered the event once.
  offer_all-accept :
      (e : ExecutionEvent F) (chs : List ℕ) (heap heap' : Heap F)
      → offer_all e chs heap ≡ some heap'
      → Distinct chs
      → (j : ℕ) → heap' j ≡ (if includes j chs then accept e (heap j) else heap j)
  unfolding offer_all includes
  offer_all-accept e [] heap heap' h d j = ap (λ f. f j) (sym (some_injective h))
  offer_all-accept e (ch ∷ chs) heap heap' h d j = elim (Option-cases (offer e (heap ch))) [
    | inl k ↦ absurd (ground (arith, k, h))
    | inr (c, k) ↦
        (let heap₁ = put ch c heap in
          let rest = offer_all-accept e chs heap₁ heap' (ground (arith, k, h)) d.1 j in
          elim (Bool-cases (ch == j)) [
            | inl same ↦
                (let eq : ch ≡ j = ground (arith, same) in
                  let f : includes j chs ≡ false = ap (λ i. includes i chs) (sym eq) ∙ d.0 in
                  rest
                  ∙ if-false (includes j chs) (accept e (heap₁ j)) (heap₁ j) f
                  ∙ ap heap₁ (sym eq)
                  ∙ put-same ch c heap
                  ∙ offer-accept e (heap ch) c k
                  ∙ ap (λ i. accept e (heap i)) eq
                  ∙ sym (
                      if-true ((ch == j) || includes j chs) (accept e (heap j)) (heap j)
                        (ground (arith, same))))
            | inr other ↦
                rest
                ∙ ap (λ b. if includes j chs then accept e b else b) (put-other ch j c heap other)
                ∙ ap (λ b. if b then accept e (heap j) else heap j)
                    (let g : includes j chs ≡ ((ch == j) || includes j chs) =
                        ground (arith, other) in
                      g)
          ])
  ]

  -- A channel that takes part in a publication for `id`.
  unfoldable pub listens : Text → MemoryEventBus F → ℕ → Bool
  listens id bus ch = not bus.closed && (text_eq (bus.heap ch).owner id && (bus.heap ch).is_open)

  -- The channels of a submission are the open ones that were made for it.
  includes-listens :
      (id : Text) (bus : MemoryEventBus F) (ch : ℕ)
      → IsSound bus
      → IsExact bus
      → ch < bus.made
      → includes ch (subscribers_of id bus.subscribers)
        ≡ text_eq (bus.heap ch).owner id && (bus.heap ch).is_open
  includes-listens id bus ch v x h =
      let own = (bus.heap ch).owner in
      elim (Bool-cases (text_eq own id)) [
        | inl e ↦
            ap (λ o. includes ch (subscribers_of o bus.subscribers)) (sym (text_eq_sound own id e))
            ∙ x.opened ch h
            ∙ ground (arith, e)
        | inr e ↦ elim (Bool-cases (includes ch (subscribers_of id bus.subscribers))) [
          | inl k ↦
              (let m = All-includes (Mine bus.heap bus.made id) ch _ (v.mine id) k in
                absurd (ground (arith, e, (text_eq_iff own id).1 m.0)))
          | inr k ↦ k ∙ ground (arith, e)
        ]
      ]

  -- What a publication leaves: the same subscribers, and every channel that listens with the event.
  pub record IsPublished (now : ℕ) (id : Text) (e : ExecutionEvent F) (bus bus' : MemoryEventBus F)
      : Type 0 where
    pub subscribers : bus'.subscribers ≡ bus.subscribers
    pub made : bus'.made ≡ bus.made
    pub closed : bus'.closed ≡ bus.closed
    pub heap :
        (ch : ℕ)
        → ch < bus.made
        → bus'.heap ch
          ≡ (if listens id bus ch then accept (stamped now id e) (bus.heap ch) else bus.heap ch)

  publish-IsPublished :
      (now : ℕ) (id : Text) (e : ExecutionEvent F) (bus bus' : MemoryEventBus F)
      → IsSound bus
      → IsExact bus
      → publish now id (some e) bus ≡ some bus'
      → IsPublished now id e bus bus'
  unfolding publish listens
  publish-IsPublished now id e bus bus' v x h = elim (Bool-cases bus.closed) [
    | inl k ↦
        (let eq : bus ≡ bus' = ground (arith, k, h) in
          record {
            subscribers = ap (λ b. b.subscribers) (sym eq);
            made = ap (λ b. b.made) (sym eq);
            closed = ap (λ b. b.closed) (sym eq);
            heap = λ ch lt.
                ap (λ b. b.heap ch) (sym eq)
                ∙ sym (if-false (listens id bus ch) _ (bus.heap ch) (ground (arith, k)));
          })
    | inr k ↦
        elim (Option-cases
          (offer_all (stamped now id e) (subscribers_of id bus.subscribers) bus.heap)) [
            | inl n ↦ absurd (ground (arith, k, n, h))
            | inr (heap', n) ↦
                (let eq : record bus { heap = heap' } ≡ bus' = ground (arith, k, n, h) in
                  record {
                    subscribers = ap (λ b. b.subscribers) (sym eq);
                    made = ap (λ b. b.made) (sym eq);
                    closed = ap (λ b. b.closed) (sym eq);
                    heap = λ ch lt.
                        ap (λ b. b.heap ch) (sym eq)
                        ∙ offer_all-accept (stamped now id e) (subscribers_of id bus.subscribers)
                            bus.heap heap' n (x.distinct id) ch
                        ∙ ap
                            (λ b.
                              if b then accept (stamped now id e) (bus.heap ch) else bus.heap ch)
                            (includes-listens id bus ch v x lt
                              ∙ (let g : (text_eq (bus.heap ch).owner id && (bus.heap ch).is_open)
                                      ≡ listens id bus ch =
                                    ground (arith, k) in
                                  g));
                  })
          ]
  ]

  either_keeps :
      (b : Bool) (e : ExecutionEvent F) (c : Channel F)
      → ((if b then accept e c else c).owner ≡ c.owner)
        × ((if b then accept e c else c).is_open ≡ c.is_open)
  either_keeps true e c = accept_keeps e c
  either_keeps false e c = (refl, refl)

  IsPublished-IsExact :
      (now : ℕ) (id : Text) (e : ExecutionEvent F) (bus bus' : MemoryEventBus F)
      → IsPublished now id e bus bus'
      → IsExact bus
      → IsExact bus'
  IsPublished-IsExact now id e bus bus' p x = record {
    distinct = λ j. subst (λ m. Distinct (subscribers_of j m)) (sym p.subscribers) (x.distinct j);
    opened = λ ch h.
        let lt : ch < bus.made = subst (λ n. ch < n) p.made h in
        let (o, k) = either_keeps (listens id bus ch) (stamped now id e) (bus.heap ch) in
        ap (λ m. includes ch (subscribers_of (bus'.heap ch).owner m)) p.subscribers
        ∙ ap (λ own. includes ch (subscribers_of own bus.subscribers))
            (ap (λ c. Channel.owner c) (p.heap ch lt) ∙ o)
        ∙ x.opened ch lt
        ∙ sym (ap (λ c. Channel.is_open c) (p.heap ch lt) ∙ k);
  }

  publish-IsExact :
      (now : ℕ) (id : Text) (e : Option (ExecutionEvent F)) (bus bus' : MemoryEventBus F)
      → IsSound bus
      → IsExact bus
      → publish now id e bus ≡ some bus'
      → IsExact bus'
  unfolding publish
  publish-IsExact now id none bus bus' v x h = subst IsExact (some_injective h) x
  publish-IsExact now id (some e) bus bus' v x h =
      IsPublished-IsExact now id e bus bus' (publish-IsPublished now id e bus bus' v x h) x

  Reach-IsExact :
      (heap : Heap F) (bus : MemoryEventBus F) → Reach (new_memory_event_bus heap) bus → IsExact bus
  Reach-IsExact heap _ here = new-IsExact heap
  Reach-IsExact heap bus (publishes {mid} now id e r h) =
      publish-IsExact now id e mid bus (Reach-IsSound (new_memory_event_bus-IsSound heap) r)
        (Reach-IsExact heap mid r) h
  Reach-IsExact heap _ (subscribes {mid} id r) =
      subscribe-IsExact id mid (Reach-IsSound (new_memory_event_bus-IsSound heap) r)
        (Reach-IsExact heap mid r)
  Reach-IsExact heap _ (receives {mid} ch r) = receive-IsExact ch mid (Reach-IsExact heap mid r)
  Reach-IsExact heap bus (unsubscribes {mid} ch r h) =
      unsubscribe-IsExact ch mid bus (Reach-IsExact heap mid r) h
  Reach-IsExact heap bus (closes {mid} r h) = close-IsExact mid bus (Reach-IsExact heap mid r) h

  pub publish-reached :
      (heap : Heap F) (bus : MemoryEventBus F)
      → Reach (new_memory_event_bus heap) bus
      → (now : ℕ) (id : Text) (e : ExecutionEvent F)
      → (bus' : MemoryEventBus F) × (publish now id (some e) bus ≡ some bus')
        × IsPublished now id e bus bus'
  publish-reached heap bus r now id e =
      let v = Reach-IsSound (new_memory_event_bus-IsSound heap) r in
      let (bus', eq, _) = publish-IsSound now id (some e) bus v in
      (bus', eq, publish-IsPublished now id e bus bus' v (Reach-IsExact heap bus r) eq)

  -- After any calls on a new bus and any receives of its clients, none of which has panicked, a
  -- publication does not panic, and every
  -- channel that was made then holds the event as its last, stamped, if the bus is not closed, the
  -- channel was made for the submission, it is open and fewer than 64 events wait in it; every other
  -- channel is as before. So an event reaches each listener of its submission exactly once and nobody
  -- else, and one that lags loses it.
  pub publish-accept :
      (heap : Heap F) (bus : MemoryEventBus F)
      → Reach (new_memory_event_bus heap) bus
      → (now : ℕ) (id : Text) (e : ExecutionEvent F)
      → (bus' : MemoryEventBus F) × (publish now id (some e) bus ≡ some bus')
        × ((ch : ℕ)
            → ch < bus.made
            → bus'.heap ch ≡ (
                if listens id bus ch then accept (stamped now id e) (bus.heap ch) else bus.heap ch))
  publish-accept heap bus r now id e =
      let (bus', eq, p) = publish-reached heap bus r now id e in (bus', eq, p.heap)
