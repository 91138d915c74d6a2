-- ===== src/System/Tracking/Acts.antt =====
-- The steps of a run keep track of every submission.
use remote_runtime_engine.Base.{
  ◌≡◌, refl, ◌∙◌, subst, ◌+◌, inl, inr, false, List, [], ◌∷◌, ◌++◌, Text, Float, text_eq, All,
  All-middle, All-insert, Any, Any-middle, Any-insert, arith,
}
use remote_runtime_engine.Queue.{SubmissionJob}
use remote_runtime_engine.Worker.{Effect}
use remote_runtime_engine.System.{Run, System, apply}
use remote_runtime_engine.System.Tracking.{load, finally, IsSettled, IsDue, IsDone, Consistent}
use remote_runtime_engine.System.Tracking.Runs.{apply-other, apply-none, finally-apply}
use remote_runtime_engine.System.Tracking.Load.{
  one, one-same, one-zero, load-acts, load-ends, others-none,
}
use remote_runtime_engine.System.Tracking.Moves.{IsDue-other, IsDone-same, IsTracked-map}

module _ {F : Type 0} (fl : Float F) (s : System F) (c : Consistent fl s)
    (before after : List (Run F)) where
  -- A submission without jobs is not the one of a run.
  unlike :
      (run : Run F)
      → s.running ≡ before ++ run ∷ after
      → (j : SubmissionJob F) → IsDone fl s j
      → text_eq run.job.submission_id j.submission_id ≡ false
  unlike run h j d =
      one-zero run.job.submission_id j.submission_id
        (omega (arith, load-ends s before after run j.submission_id h, d.0))

  pub acts-Consistent :
      (job : SubmissionJob F) (e : Effect F) (rest : List (Effect F))
      → s.running ≡ before ++ record { job = job; rest = e ∷ rest } ∷ after
      → Consistent fl (record s {
        running = before ++ record { job = job; rest = rest } ∷ after;
        store = apply e s.store;
      })
  unfolding finally
  acts-Consistent job e rest h =
      let id = job.submission_id in
      let run : Run F = record { job = job; rest = e ∷ rest } in
      let run' : Run F = record { job = job; rest = rest } in
      let s' : System F = record s { running = before ++ run' ∷ after; store = apply e s.store } in
      let kept : (other : Text) → load s' other ≡ load s other =
        λ other. load-acts s before after run run' (apply e s.store) other h refl in
      let (d, ds) =
        All-middle (IsDue fl s.store) before after run (subst (All (IsDue fl s.store)) h c.due) in
      let same : (other : Text) → text_eq id other ≡ false → apply e s.store other ≡ s.store other =
        λ other k. apply-other job e s.store other d.proper.0 k in
      record {
        single = λ other. omega (arith, kept other, c.single other);
        known = λ other k. kept other ∙ c.known other (apply-none e s.store other k);
        due =
            All-insert (IsDue fl s'.store) before after run'
              (record {
                proper = d.proper.1;
                settles =
                    subst (IsSettled fl job) (finally-apply job e rest s.store d.proper.0)
                      d.settles;
              })
              (IsDue-other fl s.store s'.store id (before ++ after) same
                (others-none s before after run h (c.single id)) ds);
        tracked =
            IsTracked-map fl s s' (λ j q. inl q)
              (λ j r. inr (
                inl (
                  Any-insert (λ x. Run.job x ≡ j) before after run'
                    (Any-middle (λ x. Run.job x ≡ j) before after run
                      (subst (Any (λ x. Run.job x ≡ j)) h r)))))
              (λ j k.
                IsDone-same fl s s' j (kept j.submission_id ∙ k.0)
                  (same j.submission_id (unlike run h j k)) k)
              s.accepted c.tracked;
      }

  pub ends-Consistent :
      (job : SubmissionJob F)
      → s.running ≡ before ++ record { job = job; rest = [] } ∷ after
      → Consistent fl (record s { running = before ++ after })
  unfolding finally
  ends-Consistent job h =
      let id = job.submission_id in
      let run : Run F = record { job = job; rest = [] } in
      let s' : System F = record s { running = before ++ after } in
      let split : (other : Text) → load s other ≡ one id other + load s' other =
        λ other. load-ends s before after run other h in
      let (d, ds) =
        All-middle (IsDue fl s.store) before after run (subst (All (IsDue fl s.store)) h c.due) in
      let is_done : IsDone fl s' job =
        (omega (arith, split id, one-same id, c.single id), d.settles) in
      record {
        single = λ other. omega (arith, split other, c.single other);
        known = λ other k. omega (arith, split other, c.known other k);
        due = ds;
        tracked =
            IsTracked-map fl s s' (λ j q. inl q)
              (λ j r.
                elim (Any-middle (λ x. Run.job x ≡ j) before after run
                  (subst (Any (λ x. Run.job x ≡ j)) h r)) [
                    | inl same ↦ inr (inr (subst (IsDone fl s') same is_done))
                    | inr k ↦ inr (inl k)
                  ])
              (λ j k. IsDone-same fl s s' j (omega (arith, split j.submission_id, k.0)) refl k)
              s.accepted c.tracked;
      }
