-- ===== src/Events/Redis/Order.antt =====
-- The order of the events of a subscription of pkg/events/redis_bus.go, and its panic.
use remote_runtime_engine.Base.{
  suc, ◌≤◌, ◌≡◌, refl, ap, sym, subst, ◌∙◌, ◌⊎◌, inl, inr, true, false, List, [], ◌∷◌, ◌++◌,
  append-nil, append_assoc, length, length-append, arith,
}
use remote_runtime_engine.Events.{ExecutionEvent}
use remote_runtime_engine.Events.Redis.{
  Forwarder, waiting, holding, returned, Subscription, subscribed, cleanup, kept, room, Step,
  cancels, unsubscribes, takes, skips, receives, sends, panics, returns_idle, returns_full, Reach,
  here, next,
}

module _ {F : Type 0} where
  -- Whether the goroutine has returned.
  abbrev HasReturned : Forwarder F → Type 0
  HasReturned waiting = ⊥
  HasReturned (holding e) = ⊥
  HasReturned (returned o) = Unit {0}

  -- The events that were received are those that were taken, those that wait and the one that the
  -- goroutine holds or has dropped, in this order. The channel has room for what waits. It is closed
  -- only by the reader or after the goroutine has returned, and the goroutine panics only after the
  -- reader has unsubscribed.
  pub record IsOrdered (s : Subscription F) : Type 0 where
    pub order : s.received ≡ s.taken ++ (s.buffer ++ kept s.forwarder)
    pub bounded : length s.buffer ≤ room
    pub closing : (s.closed ≡ false) ⊎ ((s.unsubscribed ≡ true) ⊎ HasReturned s.forwarder)
    pub safe : (s.crashed ≡ false) ⊎ (s.unsubscribed ≡ true)

  append-last :
      (t b k : List (ExecutionEvent F)) (e : ExecutionEvent F)
      → (t ++ (b ++ k)) ++ e ∷ [] ≡ t ++ (b ++ (k ++ e ∷ []))
  append-last t b k e =
      append_assoc t (b ++ k) (e ∷ []) ∙ ap (λ l. t ++ l) (append_assoc b k (e ∷ []))

  -- What an invariant says where the place of the goroutine is known.
  told :
      (s : Subscription F) (f : Forwarder F)
      → s.received ≡ s.taken ++ (s.buffer ++ kept s.forwarder)
      → s.forwarder ≡ f
      → s.received ≡ s.taken ++ (s.buffer ++ kept f)
  told s f o h = o ∙ ap (λ g. s.taken ++ (s.buffer ++ kept g)) h

  open_channel :
      (s : Subscription F) (f : Forwarder F)
      → (s.closed ≡ false) ⊎ ((s.unsubscribed ≡ true) ⊎ HasReturned s.forwarder)
      → s.forwarder ≡ f
      → (s.closed ≡ false) ⊎ ((s.unsubscribed ≡ true) ⊎ HasReturned f)
  open_channel s f o h =
      subst (λ g. (s.closed ≡ false) ⊎ ((s.unsubscribed ≡ true) ⊎ HasReturned g)) h o

  Step-IsOrdered : {s t : Subscription F} → IsOrdered s → Step s t → IsOrdered t
  unfolding cleanup
  Step-IsOrdered o (cancels s) = record {
    order = o.order;
    bounded = o.bounded;
    closing = o.closing;
    safe = o.safe;
  }
  Step-IsOrdered o (unsubscribes s) = record {
    order = o.order;
    bounded = o.bounded;
    closing = inr (inl refl);
    safe = inr refl;
  }
  Step-IsOrdered o (takes s e rest h) = record {
    order =
        o.order
        ∙ ap (λ b. s.taken ++ (b ++ kept s.forwarder)) h
        ∙ sym (append_assoc s.taken (e ∷ []) (rest ++ kept s.forwarder));
    bounded =
        let l : length s.buffer ≡ suc (length rest) = ap length h in omega (arith, l, o.bounded);
    closing = o.closing;
    safe = o.safe;
  }
  Step-IsOrdered o (skips s h) = o
  Step-IsOrdered o (receives s e h) = record {
    order = ap (λ l. l ++ e ∷ []) (told s waiting o.order h) ∙ append-last s.taken s.buffer [] e;
    bounded = o.bounded;
    closing = elim (open_channel s waiting o.closing h) [
      | inl c ↦ inl c
      | inr (inl u) ↦ inr (inl u)
      | inr (inr x) ↦ absurd x
    ];
    safe = o.safe;
  }
  Step-IsOrdered o (sends s e h c l) = record {
    order =
        told s (holding e) o.order h
        ∙ ap (λ b. s.taken ++ b) (sym (append-nil (s.buffer ++ e ∷ [])));
    bounded = omega (arith, length-append s.buffer (e ∷ []), l);
    closing = inl c;
    safe = o.safe;
  }
  Step-IsOrdered o (panics s e h c) = record {
    order = o.order;
    bounded = o.bounded;
    closing = o.closing;
    safe = elim (open_channel s (holding e) o.closing h) [
      | inl x ↦ absurd (cc)
      | inr (inl u) ↦ inr u
      | inr (inr x) ↦ absurd x
    ];
  }
  Step-IsOrdered o (returns_idle s h d) = record {
    order = told s waiting o.order h;
    bounded = o.bounded;
    closing = inr (inr tt);
    safe = o.safe;
  }
  Step-IsOrdered o (returns_full s e h d) = record {
    order = told s (holding e) o.order h;
    bounded = o.bounded;
    closing = inr (inr tt);
    safe = o.safe;
  }

  -- Whatever a subscription does, its reader has taken a prefix of the events received, in their order
  -- and without a gap; and as long as it has not unsubscribed, the goroutine has not panicked.
  pub Reach-IsOrdered : {s : Subscription F} → Reach subscribed s → IsOrdered s
  unfolding subscribed
  Reach-IsOrdered here = record {
    order = refl;
    bounded = omega arith;
    closing = inl refl;
    safe = inl refl;
  }
  Reach-IsOrdered (next r t) = Step-IsOrdered (Reach-IsOrdered r) t
