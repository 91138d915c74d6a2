-- ===== src/System/Deployed/Served.antt =====
-- What a reader of the deployed system finds of a submission.
use remote_runtime_engine.Base.{
  ◌≡◌, subst, false, Bool-cases, ◌⊎◌, inl, inr, Option, none, ok, err, List, [], Text, Float,
  CaseTable, All, All-map, Any,
}
use remote_runtime_engine.Queue.{SubmissionJob}
use remote_runtime_engine.Queue.Contract.{JobQueue, IsFifo}
use remote_runtime_engine.Store.{SubmissionState}
use remote_runtime_engine.Store.Contract.{StateStore, IsMap}
use remote_runtime_engine.Worker.Outcome.{Settled}
use remote_runtime_engine.System.{Run, System}
use remote_runtime_engine.System.Tracking.{IsSettled, IsTracked}
use remote_runtime_engine.System.Tracking.Reached.{accepted-IsTracked}
use remote_runtime_engine.System.Tracking.Moves.{settled-none}
use remote_runtime_engine.System.Deployed.{Deployed, deploy, Reaches}
use remote_runtime_engine.System.Deployed.Refinement.{Shows, deployed_refines}

module _ {M D F : Type 0} (k : StateStore M D F) (fl : Float F) where
  -- A state that is read is settled, and the store does not say that there is none.
  pub record Answers (j : SubmissionJob F) (m : M) : Type 0 where
    pub found :
        (s : SubmissionState F) (m' : M)
        → k.get_state j.submission_id m ≡ (ok s, m')
        → Settled fl j s
    pub kept :
        (e : D) (m' : M) → k.get_state j.submission_id m ≡ (err e, m') → k.is_not_found e ≡ false

  -- The job is in the queue, or with a worker, or readers are given its settled state.
  abbrev pub IsServed :
      {Q : Type 0}
      → (Q → List (SubmissionJob F) → Type 0)
      → Deployed Q M F
      → SubmissionJob F
      → Type 0
  IsServed R d j =
      ((xs : List (SubmissionJob F)) × R d.queue xs × Any (λ x. x ≡ j) xs)
      ⊎ Any (λ r. Run.job r ≡ j) d.running
      ⊎ Answers j d.store

module _ (S : Type 0) {Q C E M D F : Type 0} (i : JobQueue Q C E F) (k : StateStore M D F)
    (R : Q → List (SubmissionJob F) → Type 0) (T : M → (Text → Option (SubmissionState F)) → Type 0)
    (fl : Float F) (table : CaseTable) (fifo : IsFifo i R) (is_map : IsMap k T) where
  settled-Answers :
      (j : SubmissionJob F) (m : M) (f : Text → Option (SubmissionState F))
      → T m f
      → IsSettled fl j (f j.submission_id)
      → Answers k fl j m
  settled-Answers j m f h settled = record {
    found = λ s m' e. subst (IsSettled fl j) (is_map.finds j.submission_id s m m' f e h).0 settled;
    kept = λ e m' g. elim (Bool-cases (k.is_not_found e)) [
      | inl nf ↦ absurd (
          settled-none fl j (f j.submission_id) settled
            (is_map.misses j.submission_id m m' e f g nf h).0)
      | inr nf ↦ nf
    ];
  }

  tracked-IsServed :
      (d : Deployed Q M F) (s : System F) (j : SubmissionJob F)
      → Shows S i k R T fl table d s
      → IsTracked fl s j
      → IsServed k fl R d j
  tracked-IsServed d s j h (inl q) = inl (s.queue, h.queue, q)
  tracked-IsServed d s j h (inr (inl r)) = inr (inl (subst (Any (λ x. Run.job x ≡ j)) h.running r))
  tracked-IsServed d s j h (inr (inr done)) =
      inr (inr (settled-Answers j d.store s.store h.store done.1))

  -- With any queue and store that implement the interfaces and are empty at first, in every state
  -- that requests and workers reach, closing of the queue included: a submission that the queue
  -- accepted is in the queue, or with a worker, or whoever reads its state is given a settled one,
  -- failed or completed with an account of all its cases, and is not told that it was not found. The
  -- saves of workers succeed, a new UUID names no state that the store finds, and the queue keeps the
  -- submission of a job.
  pub accepted-IsServed :
      ((c : C) (job : SubmissionJob F) → (i.stored c job).submission_id ≡ job.submission_id)
      → (q : Q) (m : M) → R q []
      → T m (λ id. none)
      → (d : Deployed Q M F) → Reaches S i k fl table (deploy q m) d
      → All (IsServed k fl R d) d.accepted
  accepted-IsServed keeps_id q m empty blank d r =
      let (s, p, h) =
        deployed_refines S i k R T fl table fifo is_map keeps_id q m empty blank d r in
      subst (All (IsServed k fl R d)) h.accepted (
        All-map (IsTracked fl s) (IsServed k fl R d) (λ j. tracked-IsServed d s j h) s.accepted
          (accepted-IsTracked S fl table s p))
