-- ===== src/Events/Shutdown.antt =====
-- The clean-ups that subscribers of pkg/events/memory_bus.go call after the bus is closed.
use remote_runtime_engine.Base.{
  some_injective, Bool, true, ◌==◌, ◌||◌, Bool-cases, subst, ℕ, ◌≡◌, refl, sym, ap, ◌∙◌, false,
  Option-cases, inl, inr, none, some, List, [], ◌∷◌, All, arith,
}
use remote_runtime_engine.Events.MemoryBus.{
  Channel, Heap, put, MemoryEventBus, close_channel, unsubscribe, close_all, all_subscribers, close,
}

unfoldable pub includes : ℕ → List ℕ → Bool
includes ch [] = false
includes ch (c ∷ cs) = (c == ch) || includes ch cs

pub All-includes :
    (P : ℕ → Type 0) (ch : ℕ) (chs : List ℕ) → All P chs → includes ch chs ≡ true → P ch
unfolding includes
All-includes P ch [] h k = cc
All-includes P ch (c ∷ cs) h k = elim (Bool-cases (c == ch)) [
  | inl e ↦ (let eq : c ≡ ch = ground (arith, e) in subst P eq h.0)
  | inr e ↦ All-includes P ch cs h.1 (ground (arith, e, k))
]

module _ {F : Type 0} where
  -- Closing channels opens none, and runs no clean-up.
  pub record Shuts (heap heap' : Heap F) : Type 0 where
    pub shut : (i : ℕ) → (heap i).is_open ≡ false → (heap' i).is_open ≡ false
    pub kept : (i : ℕ) → (heap' i).released ≡ (heap i).released

  shut_one :
      (ch : ℕ) (c : Channel F) (heap : Heap F)
      → close_channel (heap ch) ≡ some c
      → (Shuts heap (put ch c heap)) × ((put ch c heap ch).is_open ≡ false)
  unfolding put close_channel
  shut_one ch c heap h = (
    record { shut = λ i e. ground (arith, e, h); kept = λ i. ground (arith, h) },
    ground (arith, h),
  )

  close_all-cons :
      (ch : ℕ) (chs : List ℕ) (c : Channel F) (heap : Heap F)
      → close_channel (heap ch) ≡ some c
      → close_all (ch ∷ chs) heap ≡ close_all chs (put ch c heap)
  unfolding close_all
  close_all-cons ch chs c heap k = rw (k, close_all) refl

  pub close_all-Shuts :
      (chs : List ℕ) (heap heap' : Heap F)
      → close_all chs heap ≡ some heap'
      → Shuts heap heap' × All (λ ch. (heap' ch).is_open ≡ false) chs
  unfolding close_all
  close_all-Shuts [] heap heap' h =
      let e = some_injective h in
      (
        record {
          shut = λ i k. ap (λ f. (f i).is_open) (sym e) ∙ k;
          kept = λ i. ap (λ f. (f i).released) (sym e);
        },
        tt,
      )
  close_all-Shuts (ch ∷ chs) heap heap' h = elim (Option-cases (close_channel (heap ch))) [
    | inl k ↦ absurd (ground (arith, k, h))
    | inr (c, k) ↦
        (let (s, e) = shut_one ch c heap k in
          let (s', es) =
            close_all-Shuts chs (put ch c heap) heap' (sym (close_all-cons ch chs c heap k) ∙ h) in
          (
            record { shut = λ i x. s'.shut i (s.shut i x); kept = λ i. s'.kept i ∙ s.kept i },
            (s'.shut ch e, es),
          ))
  ]

  cleanup_panics :
      (ch : ℕ) (bus : MemoryEventBus F)
      → (bus.heap ch).is_open ≡ false
      → (bus.heap ch).released ≡ false
      → unsubscribe ch bus ≡ none
  unfolding unsubscribe close_channel
  cleanup_panics ch bus h k = ground (arith, h, k)

  closed_heap :
      (bus bus' : MemoryEventBus F)
      → bus.closed ≡ false
      → close bus ≡ some bus'
      → close_all (all_subscribers bus.subscribers) bus.heap ≡ some bus'.heap
  unfolding close
  closed_heap bus bus' e h =
      elim (Option-cases (close_all (all_subscribers bus.subscribers) bus.heap)) [
        | inl k ↦ absurd (ground (arith, e, k, h))
        | inr (heap, k) ↦ k ∙ ground (arith, e, k, h)
      ]

  -- After an open bus is closed, the clean-up of a subscriber that had not left before panics: it closes
  -- its channel a second time.
  pub close-cleanup_panics :
      (bus bus' : MemoryEventBus F) (ch : ℕ)
      → bus.closed ≡ false
      → close bus ≡ some bus'
      → includes ch (all_subscribers bus.subscribers) ≡ true
      → (bus.heap ch).released ≡ false
      → unsubscribe ch bus' ≡ none
  close-cleanup_panics bus bus' ch e h k r =
      let chs = all_subscribers bus.subscribers in
      let (s, es) = close_all-Shuts chs bus.heap bus'.heap (closed_heap bus bus' e h) in
      cleanup_panics ch bus' (All-includes _ ch chs es k) (s.kept ch ∙ r)
