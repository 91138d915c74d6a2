-- ===== src/Queue/Contract.antt =====
-- The interface `JobQueue` of pkg/queue/queue.go, the first-in first-out list that it stands for, and
-- what its users see over any calls one after another.
use remote_runtime_engine.Base.{
  ℕ, ◌≡◌, refl, sym, ap, ◌∙◌, Option, none, some, Result, ok, err, List, [], ◌∷◌, ◌++◌,
  append_assoc, length,
}
use remote_runtime_engine.Queue.{SubmissionJob}

-- `C` is what the environment decides in a call, `E` the errors, `Q` the queue with all that it works
-- on. No result is a call that does not return.
pub record JobQueue (Q C E F : Type 0) : Type 0 where
  pub stored : C → SubmissionJob F → SubmissionJob F
  pub enqueue : C → SubmissionJob F → Q → Option (Option E × Q)
  pub dequeue : C → Q → Option (Result E (SubmissionJob F) × Q)
  pub queue_depth : Q → Result E ℕ × Q
  pub close : Q → Q

-- The queue simulates a list of jobs: `R q xs` says that `q` holds the jobs `xs`, the oldest first.
pub record IsFifo {Q C E F : Type 0} (i : JobQueue Q C E F)
    (R : Q → List (SubmissionJob F) → Type 0) : Type 0 where
  pub adds :
      (c : C) (job : SubmissionJob F) (q q' : Q) (xs : List (SubmissionJob F))
      → i.enqueue c job q ≡ some (none, q')
      → R q xs
      → R q' (xs ++ i.stored c job ∷ [])
  pub refuses :
      (c : C) (job : SubmissionJob F) (q q' : Q) (e : E) (xs : List (SubmissionJob F))
      → i.enqueue c job q ≡ some (some e, q')
      → R q xs
      → R q' xs
  pub takes :
      (c : C) (q q' : Q) (job : SubmissionJob F) (xs : List (SubmissionJob F))
      → i.dequeue c q ≡ some (ok job, q')
      → R q xs
      → (rest : List (SubmissionJob F)) × (xs ≡ job ∷ rest) × R q' rest
  pub fails :
      (c : C) (q q' : Q) (e : E) (xs : List (SubmissionJob F))
      → i.dequeue c q ≡ some (err e, q')
      → R q xs
      → R q' xs
  pub counts :
      (q q' : Q) (n : ℕ) (xs : List (SubmissionJob F))
      → i.queue_depth q ≡ (ok n, q')
      → R q xs
      → (n ≡ length xs) × R q' xs
  pub closes : (q : Q) (xs : List (SubmissionJob F)) → R q xs → R (i.close q) xs

pub data Call (C F : Type 0) : Type 0 where
  enqueues : C → SubmissionJob F → Call C F
  dequeues : C → Call C F
  closes : Call C F

-- The jobs that callers were told of.
pub record Ledger (Q F : Type 0) : Type 0 where
  pub queue : Q
  pub accepted : List (SubmissionJob F)
  pub delivered : List (SubmissionJob F)

module _ {Q C E F : Type 0} (i : JobQueue Q C E F) where
  unfoldable pub book : SubmissionJob F → Ledger Q F → Option (Option E × Q) → Ledger Q F
  book job l none = l
  book job l (some (none, q)) = record l { queue = q; accepted = l.accepted ++ job ∷ [] }
  book job l (some (some e, q)) = record l { queue = q }

  unfoldable pub hand_out : Ledger Q F → Option (Result E (SubmissionJob F) × Q) → Ledger Q F
  hand_out l none = l
  hand_out l (some (ok job, q)) = record l { queue = q; delivered = l.delivered ++ job ∷ [] }
  hand_out l (some (err e, q)) = record l { queue = q }

  unfoldable pub step : Ledger Q F → Call C F → Ledger Q F
  unfolding book hand_out
  step l (enqueues c job) = book (i.stored c job) l (i.enqueue c job l.queue)
  step l (dequeues c) = hand_out l (i.dequeue c l.queue)
  step l closes = record l { queue = i.close l.queue }

  unfoldable pub run : Ledger Q F → List (Call C F) → Ledger Q F
  run l [] = l
  run l (c ∷ cs) = run (step l c) cs

  module _ (R : Q → List (SubmissionJob F) → Type 0) where
    -- What was delivered, then what waits, is what was accepted.
    abbrev pub Balanced : Ledger Q F → Type 0
    Balanced l =
        (waiting : List (SubmissionJob F)) × R l.queue waiting
        × (l.delivered ++ waiting ≡ l.accepted)

    module _ (laws : IsFifo i R) where
      book-Balanced :
          (c : C) (job : SubmissionJob F) (l : Ledger Q F) (r : Option (Option E × Q))
          → i.enqueue c job l.queue ≡ r
          → Balanced l
          → Balanced (book (i.stored c job) l r)
      unfolding book
      book-Balanced c job l none h b = b
      book-Balanced c job l (some (none, q)) h (xs, r, e) = (
        xs ++ i.stored c job ∷ [],
        laws.adds c job l.queue q xs h r,
        sym (append_assoc l.delivered xs (i.stored c job ∷ []))
            ∙ ap (λ ys. ys ++ i.stored c job ∷ []) e,
      )
      book-Balanced c job l (some (some x, q)) h (xs, r, e) =
          (xs, laws.refuses c job l.queue q x xs h r, e)

      hand_out-Balanced :
          (c : C) (l : Ledger Q F) (r : Option (Result E (SubmissionJob F) × Q))
          → i.dequeue c l.queue ≡ r
          → Balanced l
          → Balanced (hand_out l r)
      unfolding hand_out
      hand_out-Balanced c l none h b = b
      hand_out-Balanced c l (some (ok job, q)) h (xs, r, e) =
          let (rest, eq, r') = laws.takes c l.queue q job xs h r in
          (
            rest,
            r',
            append_assoc l.delivered (job ∷ []) rest ∙ ap (λ ys. l.delivered ++ ys) (sym eq) ∙ e,
          )
      hand_out-Balanced c l (some (err x, q)) h (xs, r, e) =
          (xs, laws.fails c l.queue q x xs h r, e)

      step-Balanced : (l : Ledger Q F) (c : Call C F) → Balanced l → Balanced (step l c)
      unfolding step
      step-Balanced l (enqueues c job) b = book-Balanced c job l (i.enqueue c job l.queue) refl b
      step-Balanced l (dequeues c) b = hand_out-Balanced c l (i.dequeue c l.queue) refl b
      step-Balanced l closes (xs, r, e) = (xs, laws.closes l.queue xs r, e)

      run-Balanced_from : (l : Ledger Q F) (cs : List (Call C F)) → Balanced l → Balanced (run l cs)
      unfolding run
      run-Balanced_from l [] b = b
      run-Balanced_from l (c ∷ cs) b = run-Balanced_from (step l c) cs (step-Balanced l c b)

      -- Over any calls one after another on a queue that is empty at first, whatever implements it, the
      -- jobs delivered, followed by the jobs that it holds, are the accepted jobs as they are stored, in
      -- the order of their acceptance: no job is lost, made up, delivered twice or out of order.
      pub run_refines :
          (q : Q) (cs : List (Call C F))
          → R q []
          → Balanced (run (record { queue = q; accepted = []; delivered = [] }) cs)
      run_refines q cs r = run-Balanced_from _ cs ([], r, refl)
