-- ===== src/Events/Sound.antt =====
-- The bus of pkg/events/memory_bus.go: every call keeps the channels that it sends to open.
use remote_runtime_engine.Base.{
  ℕ, suc, ◌<◌, ◌≡◌, ◌≢◌, ◌⊎◌, refl, sym, subst, ◌∙◌, Bool-cases, Option-cases, inl, inr, true,
  false, Option, none, some, List, [], ◌∷◌, ◌++◌, Text, text_eq, text_eq_iff, All, All-append, ◌==◌,
  arith, lookup, insert, lookup-insert, lookup-delete, if◌then◌else◌, length, ltb,
}
use remote_runtime_engine.Events.{ExecutionEvent}
use remote_runtime_engine.Events.MemoryBus.{
  Channel, Heap, room, put, MemoryEventBus, offer, offer_all, subscribers_of, stamped, publish,
  subscribe, after_receive, receive, close_channel, without, put_back, unsubscribe, close_all,
  all_subscribers, close,
}

-- A channel that was made for a submission and has not been closed.
abbrev pub Mine : {F : Type 0} → Heap F → ℕ → Text → ℕ → Type 0
Mine heap made id ch = ((heap ch).owner ≡ id) × ((heap ch).is_open ≡ true) × (ch < made)

-- The channels of every submission are its own, and open.
pub record IsSound {F : Type 0} (bus : MemoryEventBus F) : Type 0 where
  pub mine : (id : Text) → All (Mine bus.heap bus.made id) (subscribers_of id bus.subscribers)

All-map : {P Q : ℕ → Type 0} → ((x : ℕ) → P x → Q x) → (xs : List ℕ) → All P xs → All Q xs
All-map f [] h = tt
All-map f (x ∷ xs) h = (f x h.0, All-map f xs h.1)

pub subscribers_of-insert :
    (id j : Text) (chs : List ℕ) (m : List (Text × List ℕ))
    → subscribers_of j (insert id chs m) ≡ (if text_eq id j then chs else subscribers_of j m)
unfolding subscribers_of
subscribers_of-insert id j chs m = ground (arith, lookup-insert id j chs m)

pub subscribers_of-put_back :
    (id j : Text) (chs : List ℕ) (m : List (Text × List ℕ))
    → subscribers_of j (put_back id chs m) ≡ (if text_eq id j then chs else subscribers_of j m)
unfolding subscribers_of put_back
subscribers_of-put_back id j [] m = ground (arith, lookup-delete id j m)
subscribers_of-put_back id j (c ∷ cs) m = ground (arith, lookup-insert id j (c ∷ cs) m)

module _ {F : Type 0} where
  -- Sends leave the owners and the openness alone.
  record Same (heap heap' : Heap F) : Type 0 where
    owner : (i : ℕ) → (heap' i).owner ≡ (heap i).owner
    is_open : (i : ℕ) → (heap' i).is_open ≡ (heap i).is_open

  Same-Mine :
      {heap heap' : Heap F} (made : ℕ) (id : Text) (ch : ℕ)
      → Same heap heap'
      → Mine heap made id ch
      → Mine heap' made id ch
  Same-Mine made id ch s h = (s.owner ch ∙ h.0, s.is_open ch ∙ h.1, h.2)

  pub offered :
      (e : ExecutionEvent F) (c : Channel F)
      → c.is_open ≡ true
      → (c' : Channel F) × (offer e c ≡ some c') × (c'.owner ≡ c.owner) × (c'.is_open ≡ true)
  unfolding offer
  offered e c h = (
    if ltb (length c.buffer) room then record c { buffer = c.buffer ++ e ∷ [] } else c,
    ground arith,
    ground arith,
    ground arith,
  )

  put-Same :
      (i : ℕ) (c : Channel F) (heap : Heap F)
      → c.owner ≡ (heap i).owner
      → c.is_open ≡ (heap i).is_open
      → Same heap (put i c heap)
  unfolding put
  put-Same i c heap h k = record { owner = λ j. ground arith; is_open = λ j. ground arith }

  offer_all_lem :
      (e : ExecutionEvent F) (chs : List ℕ) (heap : Heap F) (made : ℕ) (id : Text)
      → All (Mine heap made id) chs
      → (heap' : Heap F) × (offer_all e chs heap ≡ some heap') × Same heap heap'
  unfolding offer_all
  offer_all_lem e [] heap made id h =
      (heap, refl, record { owner = λ i. refl; is_open = λ i. refl })
  offer_all_lem e (ch ∷ chs) heap made id h =
      let (c, eq, o, op) = offered e (heap ch) h.0.1 in
      let s = put-Same ch c heap o (op ∙ sym h.0.1) in
      let (heap', eq', s') =
        offer_all_lem e chs (put ch c heap) made id
          (All-map (λ i. Same-Mine made id i s) chs h.1) in
      (
        heap',
        rw (eq, offer_all) eq',
        record { owner = λ i. s'.owner i ∙ s.owner i; is_open = λ i. s'.is_open i ∙ s.is_open i },
      )

  published :
      (now : ℕ) (id : Text) (e : ExecutionEvent F) (bus : MemoryEventBus F) (heap : Heap F)
      → bus.closed ≡ false
      → offer_all (stamped now id e) (subscribers_of id bus.subscribers) bus.heap ≡ some heap
      → publish now id (some e) bus ≡ some (record bus { heap = heap })
  unfolding publish
  published now id e bus heap h eq = rw (publish, eq) (simp (h) refl)

  -- A sound bus never panics on an event: it takes it and stays sound.
  pub publish-IsSound :
      (now : ℕ) (id : Text) (e : Option (ExecutionEvent F)) (bus : MemoryEventBus F)
      → IsSound bus
      → (bus' : MemoryEventBus F) × (publish now id e bus ≡ some bus') × IsSound bus'
  unfolding publish
  publish-IsSound now id none bus v = (bus, refl, v)
  publish-IsSound now id (some e) bus v = elim (Bool-cases bus.closed) [
    | inl h ↦ (bus, rw (h) refl, v)
    | inr h ↦
        (let (heap, eq, s) =
            offer_all_lem (stamped now id e) (subscribers_of id bus.subscribers) bus.heap bus.made
              id (v.mine id) in
          (
            record bus { heap = heap },
            published now id e bus heap h eq,
            record { mine = λ j. All-map (λ i. Same-Mine bus.made j i s) _ (v.mine j) },
          ))
  ]

  -- A new channel is no other's.
  grown-Mine :
      (heap : Heap F) (made : ℕ) (c : Channel F) (id : Text) (ch : ℕ)
      → Mine heap made id ch
      → Mine (put made c heap) (suc made) id ch
  unfolding put
  grown-Mine heap made c id ch h =
      (ground (arith, h.0, h.2), ground (arith, h.1, h.2), omega (arith, h.2))

  joined-Mine :
      (id : Text) (bus : MemoryEventBus F)
      → IsSound bus
      → All
          (Mine (subscribe id bus).1.heap (suc bus.made) id)
          (subscribers_of id bus.subscribers ++ bus.made ∷ [])
  unfolding subscribe put
  joined-Mine id bus v =
      All-append _ (subscribers_of id bus.subscribers) (bus.made ∷ [])
        (All-map (grown-Mine bus.heap bus.made _ id) _ (v.mine id))
        ((ground arith, ground arith, omega arith), tt)

  pub subscribe-IsSound :
      (id : Text) (bus : MemoryEventBus F) → IsSound bus → IsSound (subscribe id bus).1
  unfolding subscribe
  subscribe-IsSound id bus v =
      let chs = subscribers_of id bus.subscribers ++ bus.made ∷ [] in
      record {
        mine = λ j.
            rw (subscribers_of-insert id j chs bus.subscribers) (elim (Bool-cases (text_eq id j)) [
              | inl e ↦ simp (e) (
                  subst (λ k. All (Mine (subscribe id bus).1.heap (suc bus.made) k) chs)
                    ((text_eq_iff id j).0 e) (joined-Mine id bus v))
              | inr e ↦ simp (e) (All-map (grown-Mine bus.heap bus.made _ j) _ (v.mine j))
            ]);
      }

  after_receive-IsSound :
      (ch : ℕ) (bus : MemoryEventBus F) (l : List (ExecutionEvent F))
      → IsSound bus
      → IsSound (after_receive ch bus l).1
  unfolding after_receive
  after_receive-IsSound ch bus [] v = v
  after_receive-IsSound ch bus (e ∷ rest) v =
      let s = put-Same ch (record (bus.heap ch) { buffer = rest }) bus.heap refl refl in
      record { mine = λ j. All-map (λ i. Same-Mine bus.made j i s) _ (v.mine j) }

  pub receive-IsSound : (ch : ℕ) (bus : MemoryEventBus F) → IsSound bus → IsSound (receive ch bus).1
  unfolding receive
  receive-IsSound ch bus v = after_receive-IsSound ch bus (bus.heap ch).buffer v

  -- The channels that stay are not the one that is closed.
  without-Mine :
      (heap : Heap F) (made ch : ℕ) (c : Channel F) (id : Text) (chs : List ℕ)
      → All (Mine heap made id) chs
      → All (Mine (put ch c heap) made id) (without ch chs)
  unfolding put without
  without-Mine heap made ch c id [] h = tt
  without-Mine heap made ch c id (x ∷ xs) h =
      let rest = without-Mine heap made ch c id xs h.1 in
      elim (Bool-cases (x == ch)) [
        | inl e ↦ rw (e) rest
        | inr e ↦
            rw (e, without) ((ground (arith, h.0.0, e), ground (arith, h.0.1, e), h.0.2), rest)
      ]

  others-Mine :
      (heap : Heap F) (made ch : ℕ) (c : Channel F) (id : Text)
      → (heap ch).owner ≢ id
      → (i : ℕ) → Mine heap made id i
      → Mine (put ch c heap) made id i
  unfolding put
  others-Mine heap made ch c id n i h = (ground (arith, h.0), ground (arith, h.0, h.1), h.2)

  -- Where the channel was open, the bus that a clean-up leaves.
  pub released :
      (ch : ℕ) (bus bus' : MemoryEventBus F)
      → unsubscribe ch bus ≡ some bus'
      → (bus' ≡ bus)
        ⊎ ((c : Channel F) × (c.owner ≡ (bus.heap ch).owner)
            × (c.is_open ≡ false)
            × (bus' ≡ record bus {
              subscribers =
                  put_back
                    (bus.heap ch).owner
                    (without ch (subscribers_of (bus.heap ch).owner bus.subscribers))
                    bus.subscribers;
              heap = put ch c bus.heap;
            }))
  unfolding unsubscribe close_channel
  released ch bus bus' h = elim (Bool-cases (bus.heap ch).released) [
    | inl e ↦ inl (ground (arith, e, h))
    | inr e ↦ elim (Bool-cases (bus.heap ch).is_open) [
      | inl k ↦ inr (
        record (bus.heap ch) { is_open = false; released = true },
        refl,
        refl,
        ground (arith, e, k, h),
      )
      | inr k ↦ absurd (ground (arith, e, k, h))
    ]
  ]

  reduced-IsSound :
      (ch : ℕ) (c : Channel F) (bus : MemoryEventBus F)
      → IsSound bus
      → IsSound (record bus {
        subscribers =
            put_back
              (bus.heap ch).owner
              (without ch (subscribers_of (bus.heap ch).owner bus.subscribers))
              bus.subscribers;
        heap = put ch c bus.heap;
      })
  reduced-IsSound ch c bus v =
      let id = (bus.heap ch).owner in
      let chs = without ch (subscribers_of id bus.subscribers) in
      let kept = without-Mine bus.heap bus.made ch c id _ (v.mine id) in
      record {
        mine = λ j.
            rw (subscribers_of-put_back id j chs bus.subscribers)
              (elim (Bool-cases (text_eq id j)) [
                | inl e ↦ simp (e) (
                    subst (λ k. All (Mine (put ch c bus.heap) bus.made k) chs)
                      ((text_eq_iff id j).0 e) kept)
                | inr e ↦ simp (e) (
                    All-map
                      (others-Mine bus.heap bus.made ch c j
                        (λ same. ground (arith, e, (text_eq_iff id j).1 same)))
                      _ (v.mine j))
              ]);
      }

  pub unsubscribe-IsSound :
      (ch : ℕ) (bus bus' : MemoryEventBus F)
      → IsSound bus
      → unsubscribe ch bus ≡ some bus'
      → IsSound bus'
  unsubscribe-IsSound ch bus bus' v h = elim (released ch bus bus' h) [
    | inl e ↦ rw (e) v
    | inr (c, o, k, e) ↦ rw (e) (reduced-IsSound ch c bus v)
  ]

  abbrev pub shut_down : (bus : MemoryEventBus F) (heap : Heap F) → MemoryEventBus F
  shut_down bus heap = record bus { closed = true; heap = heap; subscribers = [] }

  shut_down-IsSound : (bus : MemoryEventBus F) (heap : Heap F) → IsSound (shut_down bus heap)
  unfolding subscribers_of lookup
  shut_down-IsSound bus heap = record { mine = λ id. tt }

  pub close-IsSound :
      (bus bus' : MemoryEventBus F) → IsSound bus → close bus ≡ some bus' → IsSound bus'
  unfolding close
  close-IsSound bus bus' v h = elim (Bool-cases bus.closed) [
    | inl e ↦ (let eq : bus ≡ bus' = ground (arith, e, h) in subst IsSound eq v)
    | inr e ↦ elim (Option-cases (close_all (all_subscribers bus.subscribers) bus.heap)) [
      | inl k ↦ absurd (ground (arith, e, k, h))
      | inr (heap, k) ↦
          (let eq : shut_down bus heap ≡ bus' = ground (arith, e, k, h) in
            subst IsSound eq (shut_down-IsSound bus heap))
    ]
  ]
