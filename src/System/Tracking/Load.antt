-- ===== src/System/Tracking/Load.antt =====
-- How many jobs of a submission are on their way, before and after each step.
use remote_runtime_engine.Base.{
  ℕ, ◌≡◌, ap, ◌∙◌, ◌+◌, ◌≤◌, true, false, Bool-cases, Option, List, [], ◌∷◌, ◌++◌, Text, Float,
  text_eq, text_eq_refl, All, tally, tally-append, tally-middle, tally-none, arith, if◌then◌else◌,
}
use remote_runtime_engine.Queue.{SubmissionJob}
use remote_runtime_engine.Store.{SubmissionState}
use remote_runtime_engine.Api.{SubmitRequest, submission_id}
use remote_runtime_engine.System.{Run, System, post}
use remote_runtime_engine.System.Tracking.{job_id, run_id, load}

abbrev pub one : Text → Text → ℕ
one a id = if text_eq a id then 1 else 0

pub one-true : (a id : Text) → text_eq a id ≡ true → one a id ≡ 1
one-true a id h = rw h

pub one-false : (a id : Text) → text_eq a id ≡ false → one a id ≡ 0
one-false a id h = rw h

pub one-same : (a : Text) → one a a ≡ 1
one-same a = one-true a a (text_eq_refl a)

pub one-zero : (a id : Text) → one a id ≡ 0 → text_eq a id ≡ false
one-zero a id h = ground (arith, Bool-cases (text_eq a id))

module _ {F : Type 0} where
  pub load-post :
      (fl : Float F) (uuid : Text) (now t : ℕ) (req : SubmitRequest F) (s : System F) (id : Text)
      → load (post fl uuid now t req s) id ≡ one (submission_id uuid) id + load s id
  unfolding load post tally
  load-post fl uuid now t req s id = omega arith

  -- A job with the same submission moves from the requests to the queue.
  pub load-enqueues :
      (s : System F) (before after : List (SubmissionJob F)) (job stored : SubmissionJob F)
      (accepted : List (SubmissionJob F)) (id : Text)
      → s.pending ≡ before ++ job ∷ after
      → stored.submission_id ≡ job.submission_id
      → load
          (record s {
            pending = before ++ after;
            queue = s.queue ++ stored ∷ [];
            accepted = accepted;
          })
          id
        ≡ load s id
  unfolding load tally
  load-enqueues s before after job stored accepted id h same =
      let p : tally job_id id s.pending
          ≡ one job.submission_id id + tally job_id id (before ++ after) =
        ap (tally job_id id) h ∙ tally-middle job_id id before after job in
      let q : one stored.submission_id id ≡ one job.submission_id id = ap (λ x. one x id) same in
      omega (arith, p, q, tally-append job_id id s.queue (stored ∷ []))

  pub load-drops :
      (s : System F) (before after : List (SubmissionJob F)) (job : SubmissionJob F) (id : Text)
      → s.pending ≡ before ++ job ∷ after
      → load (record s { pending = before ++ after }) id ≤ load s id
  unfolding load
  load-drops s before after job id h =
      omega (arith, ap (tally job_id id) h, tally-middle job_id id before after job)

  pub load-takes :
      (s : System F) (run : Run F) (rest : List (SubmissionJob F)) (id : Text)
      → s.queue ≡ run.job ∷ rest
      → load (record s { queue = rest; running = run ∷ s.running }) id ≡ load s id
  unfolding load tally
  load-takes s run rest id h = omega (arith, ap (tally job_id id) h)

  -- A run that goes on.
  pub load-acts :
      (s : System F) (before after : List (Run F)) (run run' : Run F)
      (store : Text → Option (SubmissionState F)) (id : Text)
      → s.running ≡ before ++ run ∷ after
      → run'.job ≡ run.job
      → load (record s { running = before ++ run' ∷ after; store = store }) id ≡ load s id
  unfolding load
  load-acts s before after run run' store id h same =
      let q : one run'.job.submission_id id ≡ one run.job.submission_id id =
        ap (λ j. one (job_id j) id) same in
      omega (
        arith,
        q,
        ap (tally run_id id) h,
        tally-middle run_id id before after run,
        tally-middle run_id id before after run',
      )

  pub load-ends :
      (s : System F) (before after : List (Run F)) (run : Run F) (id : Text)
      → s.running ≡ before ++ run ∷ after
      → load s id ≡ one run.job.submission_id id + load (record s { running = before ++ after }) id
  unfolding load
  load-ends s before after run id h =
      omega (arith, ap (tally run_id id) h, tally-middle run_id id before after run)

  -- Where a submission has no job on its way, no run is its own.
  pub running-none :
      (s : System F) (id : Text)
      → load s id ≡ 0
      → All (λ r. text_eq (run_id r) id ≡ false) s.running
  unfolding load
  running-none s id h = tally-none run_id id s.running (omega arith)

  -- The other runs of a system belong to other submissions.
  pub others-none :
      (s : System F) (before after : List (Run F)) (run : Run F)
      → s.running ≡ before ++ run ∷ after
      → load s run.job.submission_id ≤ 1
      → All (λ r. text_eq (run_id r) run.job.submission_id ≡ false) (before ++ after)
  unfolding load
  others-none s before after run h single =
      let id = run.job.submission_id in
      tally-none run_id id (before ++ after) (
        omega (arith, one-same id, ap (tally run_id id) h, tally-middle run_id id before after run))
