-- ===== src/System/Settling.antt =====
-- The workers can always settle every submission.
use remote_runtime_engine.Base.{
  ◌≡◌, refl, ◌∙◌, subst, inl, inr, List, [], ◌∷◌, Float, CaseTable, All, All-map, Any,
}
use remote_runtime_engine.Queue.{SubmissionJob}
use remote_runtime_engine.Worker.{Env, Effect}
use remote_runtime_engine.System.{
  Run, System, idle, takes, acts, ends, Reach, here, next, apply, start,
}
use remote_runtime_engine.System.Tracking.{IsDone, IsTracked}
use remote_runtime_engine.System.Tracking.Reached.{Reach-Consistent}

module _ (S : Type 0) {F : Type 0} (fl : Float F) (table : CaseTable) where
  pub Reach-trans :
      (s t u : System F) → Reach S fl table s t → Reach S fl table t u → Reach S fl table s u
  Reach-trans s t _ r here = r
  Reach-trans s t u (r) (next q m) = next (Reach-trans s t _ r q) m

  -- Steps that leave the requests and what was accepted.
  pub record Works (s t : System F) : Type 0 where
    pub steps : Reach S fl table s t
    pub pending : t.pending ≡ s.pending
    pub accepted : t.accepted ≡ s.accepted

  Works-trans : (s t u : System F) → Works s t → Works t u → Works s u
  Works-trans s t u a b = record {
    steps = Reach-trans s t u a.steps b.steps;
    pending = b.pending ∙ a.pending;
    accepted = b.accepted ∙ a.accepted;
  }

  -- The first run comes to its end.
  finish :
      (s : System F) (job : SubmissionJob F) (rest : List (Effect F)) (runs : List (Run F))
      → s.running ≡ record { job = job; rest = rest } ∷ runs
      → (t : System F) × Works s t × (t.running ≡ runs) × (t.queue ≡ s.queue)
  finish s job [] runs h = (
    record s { running = runs },
    record { steps = next here (ends s [] runs job h); pending = refl; accepted = refl },
    refl,
    refl,
  )
  finish s job (e ∷ rest) runs h =
      let s' : System F = record s {
        running = record { job = job; rest = rest } ∷ runs;
        store = apply e s.store;
      } in
      let one : Works s s' = record {
        steps = next here (acts s [] runs job e rest h);
        pending = refl;
        accepted = refl;
      } in
      let (t, w, r, q) = finish s' job rest runs refl in (t, Works-trans s s' t one w, r, q)

  finish_all :
      (s : System F) (runs : List (Run F))
      → s.running ≡ runs
      → (t : System F) × Works s t × (t.running ≡ []) × (t.queue ≡ s.queue)
  finish_all s [] h = (s, record { steps = here; pending = refl; accepted = refl }, h, refl)
  finish_all s (run ∷ runs) h =
      let (t, w, r, q) = finish s run.job run.rest runs h in
      let (u, v, r', q') = finish_all t runs r in (u, Works-trans s t u w v, r', q' ∙ q)

  module _ (env : Env S F) (os : S) where
    drain :
        (s : System F) (jobs : List (SubmissionJob F))
        → s.running ≡ []
        → s.queue ≡ jobs
        → (t : System F) × Works s t × (t.running ≡ []) × (t.queue ≡ [])
    unfolding start
    drain s [] h k = (s, record { steps = here; pending = refl; accepted = refl }, h, k)
    drain s (job ∷ jobs) h k =
        let run = start fl env os job in
        let s' : System F = record s { queue = jobs; running = run ∷ s.running } in
        let one : Works s s' = record {
          steps = next here (takes s env os job jobs k);
          pending = refl;
          accepted = refl;
        } in
        let (t, w, r, q) = finish s' job run.rest s.running refl in
        let (u, v, r', q') = drain t jobs (r ∙ h) q in
        (u, Works-trans s s' u one (Works-trans s' t u w v), r', q')

    -- With no job waiting and none with a worker, what was accepted is done.
    IsDone-at_rest :
        (s : System F)
        → s.running ≡ []
        → s.queue ≡ []
        → All (IsTracked fl s) s.accepted
        → All (IsDone fl s) s.accepted
    IsDone-at_rest s h k =
        All-map (IsTracked fl s) (IsDone fl s)
          (λ j t. elim t [
            | inl q ↦ absurd (subst (Any (λ q. q ≡ j)) k q)
            | inr (inl r) ↦ absurd (subst (Any (λ r. Run.job r ≡ j)) h r)
            | inr (inr d) ↦ d
          ])
          s.accepted

    -- From every state that an idle system reaches, the workers can go on, on any host, to a state
    -- where no job waits or is with a worker and every job that had been accepted has its settled
    -- state in the store: no interleaving leads where a submission can no longer be settled.
    pub reached-settles :
        (s : System F)
        → Reach S fl table idle s
        → (t : System F) × Works s t
          × (t.queue ≡ [])
          × (t.running ≡ [])
          × All (IsDone fl t) s.accepted
    reached-settles s r =
        let (t, w, h, q) = finish_all s s.running refl in
        let (u, v, h', q') = drain t t.queue h refl in
        let all = Works-trans s t u w v in
        let c = Reach-Consistent S fl table u (Reach-trans idle s u r all.steps) in
        (u, all, q', h', subst (All (IsDone fl u)) all.accepted (IsDone-at_rest u h' q' c.tracked))
