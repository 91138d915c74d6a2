-- ===== src/System/Tracking.antt =====
-- Where a submission is: pending, in the queue, with a worker, or settled in the store.
pub mod Runs
pub mod Load
pub mod Moves
pub mod Acts
pub mod Reached
use remote_runtime_engine.Base.{
  ℕ, ◌≡◌, ◌⊎◌, inl, inr, refl, sym, ap, ◌∙◌, subst, ◌+◌, ◌≤◌, Bool, true, false, Option, none, some,
  List, [], ◌∷◌, ◌++◌, Text, Float, text_eq, All, Any, tally, if◌then◌else◌,
}
use remote_runtime_engine.Queue.{SubmissionJob}
use remote_runtime_engine.Store.{SubmissionState}
use remote_runtime_engine.Worker.{
  Env, Effect, publishes, saves, prepares, opens, cleans, records, audits, violates,
}
use remote_runtime_engine.Worker.Effects.{IsProper}
use remote_runtime_engine.Worker.Outcome.{Settled}
use remote_runtime_engine.System.{Run, System, apply}

module _ {F : Type 0} where
  abbrev pub job_id : SubmissionJob F → Text
  job_id j = j.submission_id

  abbrev pub run_id : Run F → Text
  run_id r = r.job.submission_id

  -- How many jobs of a submission are on their way.
  pub load : System F → Text → ℕ
  load s id = tally job_id id s.pending + tally job_id id s.queue + tally run_id id s.running

  -- What a submission reads after the effects of its run.
  pub finally : List (Effect F) → Option (SubmissionState F) → Option (SubmissionState F)
  finally [] o = o
  finally (saves s ∷ rest) o = finally rest (some s)
  finally (_ ∷ rest) o = finally rest o

module _ {F : Type 0} (fl : Float F) where
  -- The state is there, and it is settled.
  abbrev pub IsSettled : SubmissionJob F → Option (SubmissionState F) → Type 0
  IsSettled j none = ⊥
  IsSettled j (some s) = Settled fl j s

  -- A run that will leave its submission settled, and that saves nothing else.
  pub record IsDue (store : Text → Option (SubmissionState F)) (r : Run F) : Type 0 where
    pub proper : All (IsProper r.job) r.rest
    pub settles : IsSettled r.job (finally r.rest (store r.job.submission_id))

  abbrev pub IsDone : System F → SubmissionJob F → Type 0
  IsDone s j = (load s j.submission_id ≡ 0) × IsSettled j (s.store j.submission_id)

  -- The job waits, is with a worker, or is settled.
  abbrev pub IsTracked : System F → SubmissionJob F → Type 0
  IsTracked s j = Any (λ q. q ≡ j) s.queue ⊎ Any (λ r. Run.job r ≡ j) s.running ⊎ IsDone s j

  pub record Consistent (s : System F) : Type 0 where
    pub single : (id : Text) → load s id ≤ 1
    pub known : (id : Text) → s.store id ≡ none → load s id ≡ 0
    pub due : All (IsDue s.store) s.running
    pub tracked : All (IsTracked s) s.accepted
