-- ===== src/Events/Exact/Calls.antt =====
-- Clean-ups and the closing of the bus of pkg/events/memory_bus.go keep its channels exact.
use remote_runtime_engine.Base.{
  ℕ, ◌≡◌, sym, ap, subst, ◌∙◌, Bool-cases, Option-cases, inl, inr, false, some, some_injective,
  List, [], ◌∷◌, text_eq_iff, arith, lookup,
}
use remote_runtime_engine.Events.MemoryBus.{
  Channel, Heap, put, MemoryEventBus, subscribers_of, without, put_back, unsubscribe, close_channel,
  close_all, all_subscribers, close,
}
use remote_runtime_engine.Events.Sound.{released, shut_down}
use remote_runtime_engine.Events.Shutdown.{includes, All-includes, close_all-Shuts}
use remote_runtime_engine.Events.Exact.{
  Distinct, IsExact, includes-without, Distinct-without, includes-all_subscribers, at_put_back,
  changed,
}

module _ {F : Type 0} where
  reduced-IsExact :
      (ch : ℕ) (c : Channel F) (bus : MemoryEventBus F)
      → c.owner ≡ (bus.heap ch).owner
      → c.is_open ≡ false
      → IsExact bus
      → IsExact (record bus {
        subscribers =
            put_back
              (bus.heap ch).owner
              (without ch (subscribers_of (bus.heap ch).owner bus.subscribers))
              bus.subscribers;
        heap = put ch c bus.heap;
      })
  reduced-IsExact ch c bus own shut x =
      let id = (bus.heap ch).owner in
      let m = bus.subscribers in
      let chs = without ch (subscribers_of id m) in
      record {
        distinct = λ j.
            at_put_back Distinct id j chs m (λ _. Distinct-without ch _ (x.distinct id))
              (λ _. x.distinct j);
        opened = λ j h.
            changed ch j c bus.heap (put_back id chs m)
              (λ same.
                at_put_back (λ l. includes j l ≡ c.is_open) id c.owner chs m
                  (λ _. includes-without j ch (subscribers_of id m) ∙ ground (arith, same, shut))
                  (λ n. absurd (ground (arith, n, (text_eq_iff id c.owner).1 (sym own)))))
              (λ n.
                at_put_back (λ l. includes j l ≡ (bus.heap j).is_open) id (bus.heap j).owner chs m
                  (λ same.
                    includes-without j ch (subscribers_of id m)
                    ∙ ground
                        (arith, n, ap (λ o. includes j (subscribers_of o m)) same, x.opened j h))
                  (λ _. x.opened j h));
      }

  pub unsubscribe-IsExact :
      (ch : ℕ) (bus bus' : MemoryEventBus F)
      → IsExact bus
      → unsubscribe ch bus ≡ some bus'
      → IsExact bus'
  unsubscribe-IsExact ch bus bus' x h = elim (released ch bus bus' h) [
    | inl e ↦ rw (e) x
    | inr (c, o, k, e) ↦ rw (e) (reduced-IsExact ch c bus o k x)
  ]

  -- Closing channels changes no owner.
  close_channel-owner : (c c' : Channel F) → close_channel c ≡ some c' → c'.owner ≡ c.owner
  unfolding close_channel
  close_channel-owner c c' h = ground (arith, h)

  put-owner :
      (ch j : ℕ) (c : Channel F) (heap : Heap F)
      → c.owner ≡ (heap ch).owner
      → (put ch c heap j).owner ≡ (heap j).owner
  unfolding put
  put-owner ch j c heap h = ground (arith, h)

  close_all-owner :
      (chs : List ℕ) (heap heap' : Heap F)
      → close_all chs heap ≡ some heap'
      → (j : ℕ) → (heap' j).owner ≡ (heap j).owner
  unfolding close_all
  close_all-owner [] heap heap' h j = ap (λ f. (f j).owner) (sym (some_injective h))
  close_all-owner (ch ∷ chs) heap heap' h j = elim (Option-cases (close_channel (heap ch))) [
    | inl k ↦ absurd (ground (arith, k, h))
    | inr (c, k) ↦
        close_all-owner chs (put ch c heap) heap' (ground (arith, k, h)) j
        ∙ put-owner ch j c heap (close_channel-owner (heap ch) c k)
  ]

  shut_down-IsExact :
      (bus : MemoryEventBus F) (heap : Heap F)
      → close_all (all_subscribers bus.subscribers) bus.heap ≡ some heap
      → IsExact bus
      → IsExact (shut_down bus heap)
  unfolding subscribers_of lookup includes
  shut_down-IsExact bus heap h x =
      let (s, all) = close_all-Shuts (all_subscribers bus.subscribers) bus.heap heap h in
      record {
        distinct = λ id. tt;
        opened = λ j k. sym (elim (Bool-cases (bus.heap j).is_open) [
          | inl e ↦
              All-includes (λ ch. (heap ch).is_open ≡ false) j (all_subscribers bus.subscribers) all
                (includes-all_subscribers j (bus.heap j).owner bus.subscribers (x.opened j k ∙ e))
          | inr e ↦ s.shut j e
        ]);
      }

  pub close-IsExact :
      (bus bus' : MemoryEventBus F) → IsExact bus → close bus ≡ some bus' → IsExact bus'
  unfolding close
  close-IsExact bus bus' x h = elim (Bool-cases bus.closed) [
    | inl e ↦ (let eq : bus ≡ bus' = ground (arith, e, h) in subst IsExact eq x)
    | inr e ↦ elim (Option-cases (close_all (all_subscribers bus.subscribers) bus.heap)) [
      | inl k ↦ absurd (ground (arith, e, k, h))
      | inr (heap, k) ↦
          (let eq : shut_down bus heap ≡ bus' = ground (arith, e, k, h) in
            subst IsExact eq (shut_down-IsExact bus heap k x))
    ]
  ]
