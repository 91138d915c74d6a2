-- ===== src/System/Tracking/Moves.antt =====
-- Every step keeps track of every submission.
use remote_runtime_engine.Base.{
  ℕ, ◌≡◌, refl, sym, ap, ◌∙◌, subst, ◌≤◌, inl, inr, false, Bool-cases, Option, none, some, List, [],
  ◌∷◌, ◌++◌, Text, Float, text_eq, text_eq_sound, All, All-map, All-zip, Any, Any-left, Any-right,
  arith,
}
use remote_runtime_engine.Queue.{SubmissionJob}
use remote_runtime_engine.Store.{SubmissionState}
use remote_runtime_engine.Api.{SubmitRequest, submission_id}
use remote_runtime_engine.System.{Run, System, post}
use remote_runtime_engine.System.Tracking.{
  run_id, load, finally, IsSettled, IsDue, IsDone, IsTracked, Consistent,
}
use remote_runtime_engine.System.Tracking.Runs.{text_eq_flip, update-other, update-none}
use remote_runtime_engine.System.Tracking.Load.{
  one-true, one-false, load-post, load-enqueues, load-drops, load-takes, running-none,
}

module _ {F : Type 0} (fl : Float F) where
  -- Runs of other submissions than the one whose state changes.
  pub IsDue-other :
      (f g : Text → Option (SubmissionState F)) (id : Text) (runs : List (Run F))
      → ((other : Text) → text_eq id other ≡ false → g other ≡ f other)
      → All (λ r. text_eq (run_id r) id ≡ false) runs
      → All (IsDue fl f) runs
      → All (IsDue fl g) runs
  IsDue-other f g id runs same others due =
      All-map (λ r. (text_eq (run_id r) id ≡ false) × IsDue fl f r) (IsDue fl g)
        (λ r (h, d). record {
          proper = d.proper;
          settles =
              subst (λ o. IsSettled fl r.job (finally r.rest o))
                (sym (same (run_id r) (text_eq_flip (run_id r) id h))) d.settles;
        })
        runs (All-zip (λ r. text_eq (run_id r) id ≡ false) (IsDue fl f) runs others due)

  -- A submission that is done stays so where it has no more jobs and its state is the same.
  pub IsDone-same :
      (s s' : System F) (j : SubmissionJob F)
      → load s' j.submission_id ≡ 0
      → s'.store j.submission_id ≡ s.store j.submission_id
      → IsDone fl s j
      → IsDone fl s' j
  IsDone-same s s' j l e d = (l, subst (IsSettled fl j) (sym e) d.1)

  pub settled-none :
      (j : SubmissionJob F) (o : Option (SubmissionState F)) → IsSettled fl j o → o ≡ none → ⊥
  settled-none j none d h = d
  settled-none j (some t) d h = absurd (cc)

  pub IsTracked-map :
      (s s' : System F)
      → ((j : SubmissionJob F) → Any (λ q. q ≡ j) s.queue → IsTracked fl s' j)
      → ((j : SubmissionJob F) → Any (λ r. Run.job r ≡ j) s.running → IsTracked fl s' j)
      → ((j : SubmissionJob F) → IsDone fl s j → IsDone fl s' j)
      → (js : List (SubmissionJob F)) → All (IsTracked fl s) js
      → All (IsTracked fl s') js
  IsTracked-map s s' waits runs done = All-map (IsTracked fl s) (IsTracked fl s') (λ j t. elim t [
    | inl q ↦ waits j q
    | inr (inl r) ↦ runs j r
    | inr (inr d) ↦ inr (inr (done j d))
  ])

  module _ (s : System F) (c : Consistent fl s) where
    pub post-Consistent :
        (uuid : Text) (now t : ℕ) (req : SubmitRequest F)
        → s.store (submission_id uuid) ≡ none
        → Consistent fl (post fl uuid now t req s)
    unfolding post
    post-Consistent uuid now t req fresh =
        let id = submission_id uuid in
        let s' = post fl uuid now t req s in
        let zero_load = c.known id fresh in
        let same : (other : Text) → text_eq id other ≡ false → s'.store other ≡ s.store other =
          λ other h. update-other s.store id other _ h in
        let unlike : (j : SubmissionJob F) → IsDone fl s j → text_eq id j.submission_id ≡ false =
          λ j d. elim (Bool-cases (text_eq id j.submission_id)) [
            | inl e ↦ absurd (
                settled-none j (s.store j.submission_id) d.1
                  (ap s.store (sym (text_eq_sound id j.submission_id e)) ∙ fresh))
            | inr e ↦ e
          ] in
        let idle_load : (other : Text)
            → text_eq id other ≡ false
            → load s other ≡ 0
            → load s' other ≡ 0 =
          λ other e h. omega (arith, load-post fl uuid now t req s other, one-false id other e) in
        record {
          single = λ other. elim (Bool-cases (text_eq id other)) [
            | inl e ↦ omega (
              arith,
              load-post fl uuid now t req s other,
              one-true id other e,
              ap (load s) (sym (text_eq_sound id other e)) ∙ zero_load,
            )
            | inr e ↦
                omega
                  (arith, load-post fl uuid now t req s other, one-false id other e, c.single other)
          ];
          known = λ other h.
              let (e, k) = update-none s.store id other _ h in idle_load other e (c.known other k);
          due = IsDue-other s.store s'.store id s.running same (running-none s id zero_load) c.due;
          tracked =
              IsTracked-map s s' (λ j q. inl q) (λ j r. inr (inl r))
                (λ j d.
                  IsDone-same s s' j (idle_load j.submission_id (unlike j d) d.0)
                    (same j.submission_id (unlike j d)) d)
                s.accepted c.tracked;
        }

    pub enqueues-Consistent :
        (before after : List (SubmissionJob F)) (job stored : SubmissionJob F)
        → s.pending ≡ before ++ job ∷ after
        → stored.submission_id ≡ job.submission_id
        → Consistent fl (record s {
          pending = before ++ after;
          queue = s.queue ++ stored ∷ [];
          accepted = stored ∷ s.accepted;
        })
    enqueues-Consistent before after job stored h same =
        let s' : System F = record s {
          pending = before ++ after;
          queue = s.queue ++ stored ∷ [];
          accepted = stored ∷ s.accepted;
        } in
        let kept : (id : Text) → load s' id ≡ load s id =
          λ id. load-enqueues s before after job stored (stored ∷ s.accepted) id h same in
        record {
          single = λ id. omega (arith, kept id, c.single id);
          known = λ id k. kept id ∙ c.known id k;
          due = c.due;
          tracked = (
            inl (Any-right (λ q. q ≡ stored) s.queue (stored ∷ []) (inl refl)),
            IsTracked-map s s' (λ j q. inl (Any-left (λ q. q ≡ j) s.queue (stored ∷ []) q))
                (λ j r. inr (inl r)) (λ j d. IsDone-same s s' j (kept j.submission_id ∙ d.0) refl d)
                s.accepted c.tracked,
          );
        }

    pub drops-Consistent :
        (before after : List (SubmissionJob F)) (job : SubmissionJob F)
        → s.pending ≡ before ++ job ∷ after
        → Consistent fl (record s { pending = before ++ after })
    drops-Consistent before after job h =
        let s' : System F = record s { pending = before ++ after } in
        let less : (id : Text) → load s' id ≤ load s id =
          λ id. load-drops s before after job id h in
        record {
          single = λ id. omega (arith, less id, c.single id);
          known = λ id k. omega (arith, less id, c.known id k);
          due = c.due;
          tracked =
              IsTracked-map s s' (λ j q. inl q) (λ j r. inr (inl r))
                (λ j d. IsDone-same s s' j (omega (arith, less j.submission_id, d.0)) refl d)
                s.accepted c.tracked;
        }

    pub takes-Consistent :
        (run : Run F) (rest : List (SubmissionJob F))
        → s.queue ≡ run.job ∷ rest
        → IsDue fl s.store run
        → Consistent fl (record s { queue = rest; running = run ∷ s.running })
    takes-Consistent run rest h due =
        let s' : System F = record s { queue = rest; running = run ∷ s.running } in
        let kept : (id : Text) → load s' id ≡ load s id = λ id. load-takes s run rest id h in
        record {
          single = λ id. omega (arith, kept id, c.single id);
          known = λ id k. kept id ∙ c.known id k;
          due = (due, c.due);
          tracked =
              IsTracked-map s s'
                (λ j q. elim (subst (Any (λ q. q ≡ j)) h q) [
                  | inl e ↦ inr (inl (inl e))
                  | inr k ↦ inl k
                ])
                (λ j r. inr (inl (inr r)))
                (λ j d. IsDone-same s s' j (kept j.submission_id ∙ d.0) refl d) s.accepted
                c.tracked;
        }
