-- ===== src/Events/Exact.antt =====
-- The bus of pkg/events/memory_bus.go: which channels an event reaches.
pub mod Calls
pub mod Publish
use remote_runtime_engine.Base.{
  ℕ, suc, ◌<◌, ◌≡◌, ◌≢◌, ◌⊎◌, refl, sym, ap, subst, ◌∙◌, Bool, Bool-cases, Option-cases, inl, inr,
  true, false, ◌&&◌, ◌||◌, not, Option, none, some, List, [], ◌∷◌, ◌++◌, Text, text_eq, text_eq_iff,
  text_eq_sound, All, ◌==◌, arith, lookup, insert, if◌then◌else◌,
}
use remote_runtime_engine.Events.{ExecutionEvent}
use remote_runtime_engine.Events.MemoryBus.{
  Channel, Heap, put, MemoryEventBus, new_memory_event_bus, subscribers_of, subscribe,
  after_receive, receive, without, put_back, unsubscribe, close_all, all_subscribers, close,
}
use remote_runtime_engine.Events.Sound.{
  IsSound, Mine, subscribers_of-insert, subscribers_of-put_back, released, shut_down,
}
use remote_runtime_engine.Events.Shutdown.{includes, All-includes, close_all-Shuts}

-- No channel twice.
abbrev pub Distinct : List ℕ → Type 0
Distinct [] = Unit {0}
Distinct (c ∷ cs) = (includes c cs ≡ false) × Distinct cs

pub includes-append :
    (x : ℕ) (xs ys : List ℕ) → includes x (xs ++ ys) ≡ includes x xs || includes x ys
unfolding includes
includes-append x [] ys = refl
includes-append x (y ∷ xs) ys = ground (arith, includes-append x xs ys)

pub includes-without :
    (x c : ℕ) (xs : List ℕ) → includes x (without c xs) ≡ not (c == x) && includes x xs
unfolding includes without
includes-without x c [] = ground arith
includes-without x c (y ∷ xs) = ground (arith, includes-without x c xs)

Distinct-snoc :
    (c : ℕ) (xs : List ℕ) → Distinct xs → includes c xs ≡ false → Distinct (xs ++ c ∷ [])
unfolding includes
Distinct-snoc c [] d h = (refl, tt)
Distinct-snoc c (x ∷ xs) d h = (
  ground (arith, includes-append x xs (c ∷ []), d.0, h),
  Distinct-snoc c xs d.1 (ground (arith, h)),
)

pub Distinct-without : (c : ℕ) (xs : List ℕ) → Distinct xs → Distinct (without c xs)
unfolding without includes
Distinct-without c [] d = tt
Distinct-without c (x ∷ xs) d =
    let rest = Distinct-without c xs d.1 in
    elim (Bool-cases (x == c)) [
      | inl e ↦ rw (e) rest
      | inr e ↦ rw (e, without) (ground (arith, includes-without x c xs, d.0), rest)
    ]

none-included : (x : ℕ) (id : Text) → includes x (subscribers_of id []) ≢ true
unfolding subscribers_of lookup includes
none-included x id h = cc

subscribers_of-cons :
    (id j : Text) (chs : List ℕ) (m : List (Text × List ℕ))
    → subscribers_of id ((j, chs) ∷ m) ≡ (if text_eq j id then chs else subscribers_of id m)
unfolding subscribers_of lookup
subscribers_of-cons id j chs m = ground (arith, Bool-cases (text_eq j id))

-- A channel of a submission is one of all.
pub includes-all_subscribers :
    (x : ℕ) (id : Text) (m : List (Text × List ℕ))
    → includes x (subscribers_of id m) ≡ true
    → includes x (all_subscribers m) ≡ true
unfolding all_subscribers
includes-all_subscribers x id [] h = absurd (none-included x id h)
includes-all_subscribers x id ((j, chs) ∷ m) h =
    let k : includes x (if text_eq j id then chs else subscribers_of id m) ≡ true =
      ap (includes x) (sym (subscribers_of-cons id j chs m)) ∙ h in
    includes-append x chs (all_subscribers m) ∙ (elim (Bool-cases (text_eq j id)) [
      | inl e ↦ ground (arith, e, k)
      | inr e ↦ ground (arith, e, k, includes-all_subscribers x id m)
    ])

-- What holds of the channels of one submission and of those of the others.
split_at :
    (P : List ℕ → Type 0) (id o : Text) (chs rest : List ℕ)
    → (id ≡ o → P chs)
    → (text_eq id o ≡ false → P rest)
    → P (if text_eq id o then chs else rest)
split_at P id o chs rest h k = elim (Bool-cases (text_eq id o)) [
  | inl e ↦ rw (e) (h (text_eq_sound id o e))
  | inr e ↦ rw (e) (k e)
]

at_inserted :
    (P : List ℕ → Type 0) (id o : Text) (chs : List ℕ) (m : List (Text × List ℕ))
    → (id ≡ o → P chs)
    → (text_eq id o ≡ false → P (subscribers_of o m))
    → P (subscribers_of o (insert id chs m))
at_inserted P id o chs m h k =
    subst P (sym (subscribers_of-insert id o chs m)) (split_at P id o chs (subscribers_of o m) h k)

pub at_put_back :
    (P : List ℕ → Type 0) (id o : Text) (chs : List ℕ) (m : List (Text × List ℕ))
    → (id ≡ o → P chs)
    → (text_eq id o ≡ false → P (subscribers_of o m))
    → P (subscribers_of o (put_back id chs m))
at_put_back P id o chs m h k =
    subst P (sym (subscribers_of-put_back id o chs m))
      (split_at P id o chs (subscribers_of o m) h k)

pub apart : (a b : ℕ) → (a == b) ≡ false → a ≢ b
apart a b h = ground (arith, h)

module _ {F : Type 0} where
  -- The open channels are those that are subscribed, each once.
  pub record IsExact (bus : MemoryEventBus F) : Type 0 where
    pub distinct : (id : Text) → Distinct (subscribers_of id bus.subscribers)
    pub opened :
        (ch : ℕ)
        → ch < bus.made
        → includes ch (subscribers_of (bus.heap ch).owner bus.subscribers) ≡ (bus.heap ch).is_open

  pub new-IsExact : (heap : Heap F) → IsExact (new_memory_event_bus heap)
  unfolding new_memory_event_bus subscribers_of lookup
  new-IsExact heap = record { distinct = λ id. tt; opened = λ ch h. absurd (omega arith) }

  -- A channel that is not yet made is nobody's.
  unmade :
      (bus : MemoryEventBus F) (id : Text)
      → IsSound bus
      → includes bus.made (subscribers_of id bus.subscribers) ≡ false
  unmade bus id v = elim (Bool-cases (includes bus.made (subscribers_of id bus.subscribers))) [
    | inl e ↦
        (let h = All-includes (Mine bus.heap bus.made id) bus.made _ (v.mine id) e in
          absurd (omega (arith, h.2)))
    | inr e ↦ e
  ]

  pub put-same : (i : ℕ) (c : Channel F) (heap : Heap F) → put i c heap i ≡ c
  unfolding put
  put-same i c heap = ground arith

  pub put-other :
      (i j : ℕ) (c : Channel F) (heap : Heap F) → (i == j) ≡ false → put i c heap j ≡ heap j
  unfolding put
  put-other i j c heap h = rw (h) refl

  -- A change of the subscribers and of one channel.
  pub changed :
      (ch j : ℕ) (c : Channel F) (heap : Heap F) (m : List (Text × List ℕ))
      → (ch ≡ j → includes j (subscribers_of c.owner m) ≡ c.is_open)
      → ((ch == j) ≡ false → includes j (subscribers_of (heap j).owner m) ≡ (heap j).is_open)
      → includes j (subscribers_of (put ch c heap j).owner m) ≡ (put ch c heap j).is_open
  changed ch j c heap m h k = elim (Bool-cases (ch == j)) [
    | inl e ↦
        (let same : ch ≡ j = ground (arith, e) in
          subst (λ d. includes j (subscribers_of (Channel.owner d) m) ≡ Channel.is_open d)
            (sym (put-same ch c heap) ∙ ap (put ch c heap) same) (h same))
    | inr e ↦
        subst (λ d. includes j (subscribers_of (Channel.owner d) m) ≡ Channel.is_open d)
          (sym (put-other ch j c heap e)) (k e)
  ]

  pub subscribe-IsExact :
      (id : Text) (bus : MemoryEventBus F)
      → IsSound bus
      → IsExact bus
      → IsExact (subscribe id bus).1
  unfolding subscribe includes
  subscribe-IsExact id bus v x =
      let chs = subscribers_of id bus.subscribers ++ bus.made ∷ [] in
      let m = bus.subscribers in
      record {
        distinct = λ j.
            at_inserted Distinct id j chs m
              (λ _. Distinct-snoc bus.made _ (x.distinct id) (unmade bus id v)) (λ _. x.distinct j);
        opened = λ ch h.
            changed bus.made ch _ bus.heap (insert id chs m)
              (λ same.
                at_inserted (λ l. includes ch l ≡ true) id id chs m
                  (λ _.
                    includes-append ch (subscribers_of id m) (bus.made ∷ []) ∙ ground (arith, same))
                  (λ n. absurd (ground (arith, n, (text_eq_iff id id).1 refl))))
              (λ n.
                at_inserted (λ l. includes ch l ≡ (bus.heap ch).is_open) id (bus.heap ch).owner chs
                  m
                  (λ same.
                    includes-append ch (subscribers_of id m) (bus.made ∷ [])
                    ∙ ground (
                      arith,
                      n,
                      ap (λ o. includes ch (subscribers_of o m)) same,
                      x.opened ch (omega (arith, h, apart bus.made ch n)),
                    ))
                  (λ _. x.opened ch (omega (arith, h, apart bus.made ch n))));
      }

  after_receive-IsExact :
      (ch : ℕ) (bus : MemoryEventBus F) (l : List (ExecutionEvent F))
      → IsExact bus
      → IsExact (after_receive ch bus l).1
  unfolding after_receive
  after_receive-IsExact ch bus [] x = x
  after_receive-IsExact ch bus (e ∷ rest) x = record {
    distinct = x.distinct;
    opened = λ j h.
        changed ch j (record (bus.heap ch) { buffer = rest }) bus.heap bus.subscribers
          (λ same.
            subst
              (λ i.
                includes i (subscribers_of (bus.heap ch).owner bus.subscribers)
                ≡ (bus.heap ch).is_open)
              same (x.opened ch (subst (λ i. i < bus.made) (sym same) h)))
          (λ _. x.opened j h);
  }

  pub receive-IsExact : (ch : ℕ) (bus : MemoryEventBus F) → IsExact bus → IsExact (receive ch bus).1
  unfolding receive
  receive-IsExact ch bus x = after_receive-IsExact ch bus (bus.heap ch).buffer x
