-- ===== src/System.antt =====
-- The parts put together: the submissions that pkg/api/server.go takes in, the queue, the jobs that
-- the workers of pkg/worker/pool.go run, and the store, as a step relation. The queue is the list and
-- the store the map that their interfaces stand for. Requests and workers interleave freely: a run's
-- effects reach the store one at a time, with any steps of the others between them.
pub mod Tracking
pub mod Settling
pub mod Deployed
use remote_runtime_engine.Base.{
  ℕ, ◌≡◌, Option, none, some, List, [], ◌∷◌, ◌++◌, reverse, Text, text_eq, Float, CaseTable,
  if◌then◌else◌,
}
use remote_runtime_engine.Queue.{SubmissionJob}
use remote_runtime_engine.Store.{SubmissionState}
use remote_runtime_engine.Store.Contract.{update}
use remote_runtime_engine.Worker.{
  Env, Effect, publishes, saves, prepares, opens, cleans, records, audits, violates,
}
use remote_runtime_engine.Worker.Process.{process_job}
use remote_runtime_engine.Api.{SubmitRequest, submission_id, initial_state, job_of, invalid}

-- A job in the hands of a worker, with the effects that are still to come, the next one first.
pub record Run (F : Type 0) : Type 0 where
  pub job : SubmissionJob F
  pub rest : List (Effect F)

-- `pending` are the jobs of requests whose state is saved and that are not yet enqueued; `accepted`
-- are the jobs that the queue has taken, as it stores them.
pub record System (F : Type 0) : Type 0 where
  pub pending : List (SubmissionJob F)
  pub queue : List (SubmissionJob F)
  pub running : List (Run F)
  pub store : Text → Option (SubmissionState F)
  pub accepted : List (SubmissionJob F)

unfoldable pub idle : {F : Type 0} → System F
idle = record { pending = []; queue = []; running = []; store = λ id. none; accepted = [] }

-- What an effect of a worker does to the store, which has stamped the state with the time of the save.
unfoldable pub apply :
    {F : Type 0}
    → Effect F
    → (Text → Option (SubmissionState F))
    → Text
    → Option (SubmissionState F)
apply (saves s) f = update f s.submission_id s
apply (publishes id e) f = f
apply (prepares r) f = f
apply (opens c) f = f
apply (cleans c) f = f
apply (records a b c d e k) f = f
apply (audits a b c d e) f = f
apply (violates a) f = f

module _ {F : Type 0} (fl : Float F) where
  -- A request that passed the checks: `SaveState` stamps the initial state with the time `t`.
  unfoldable pub post : Text → ℕ → ℕ → SubmitRequest F → System F → System F
  unfolding initial_state job_of
  post uuid now t req s =
      let id = submission_id uuid in
      record s {
        pending = job_of id now req ∷ s.pending;
        store = update s.store id (record (initial_state fl id now req) { updated_at = t });
      }

  module _ {S : Type 0} where
    -- A worker that has dequeued a job: the effects of `ProcessJob`, the oldest first.
    unfoldable pub start : Env S F → S → SubmissionJob F → Run F
    start env os job = record {
      job = job;
      rest = reverse (process_job fl env (some job) (record { os = os; log = [] })).1.log;
    }

module _ (S : Type 0) {F : Type 0} (fl : Float F) (table : CaseTable) where
  -- A step of a request or of a worker. A UUID names no earlier submission. The queue keeps the
  -- submission of a job that it stores. A worker finds any host in any state.
  pub data Move : System F → System F → Type 0 where
    posts :
        (s : System F) (uuid : Text) (now t : ℕ) (req : SubmitRequest F)
        → invalid table req ≡ none
        → s.store (submission_id uuid) ≡ none
        → Move s (post fl uuid now t req s)
    enqueues :
        (s : System F) (before after : List (SubmissionJob F)) (job stored : SubmissionJob F)
        → s.pending ≡ before ++ job ∷ after
        → stored.submission_id ≡ job.submission_id
        → Move s (record s {
          pending = before ++ after;
          queue = s.queue ++ stored ∷ [];
          accepted = stored ∷ s.accepted;
        })
    drops :
        (s : System F) (before after : List (SubmissionJob F)) (job : SubmissionJob F)
        → s.pending ≡ before ++ job ∷ after
        → Move s (record s { pending = before ++ after })
    takes :
        (s : System F) (env : Env S F) (os : S) (job : SubmissionJob F)
        (rest : List (SubmissionJob F))
        → s.queue ≡ job ∷ rest
        → Move s (record s { queue = rest; running = start fl env os job ∷ s.running })
    acts :
        (s : System F) (before after : List (Run F)) (job : SubmissionJob F) (e : Effect F)
        (rest : List (Effect F))
        → s.running ≡ before ++ record { job = job; rest = e ∷ rest } ∷ after
        → Move s (record s {
          running = before ++ record { job = job; rest = rest } ∷ after;
          store = apply e s.store;
        })
    ends :
        (s : System F) (before after : List (Run F)) (job : SubmissionJob F)
        → s.running ≡ before ++ record { job = job; rest = [] } ∷ after
        → Move s (record s { running = before ++ after })

  -- The states after any steps.
  pub data Reach (s : System F) : System F → Type 0 where
    here : Reach s s
    next : {t u : System F} → Reach s t → Move t u → Reach s u
