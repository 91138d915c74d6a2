-- ===== src/Metrics/Metered.antt =====
-- The metrics that the jobs of pkg/worker/worker.go update.
use remote_runtime_engine.Base.{
  ℕ, suc, ◌≡◌, refl, ◌∙◌, ap, some, List, [], ◌∷◌, ◌++◌, Text, codes, Float, length, All, arith,
}
use remote_runtime_engine.Models.{verdict_string}
use remote_runtime_engine.Queue.{SubmissionJob}
use remote_runtime_engine.Worker.{
  World, Env, Effect, Violation, memory_oom, timeout_exceeded, syscall_blocked, compilation_failure,
  publishes, saves, prepares, opens, cleans, records, audits, violates,
}
use remote_runtime_engine.Worker.Process.{process_job}
use remote_runtime_engine.Worker.Recorded.{recorded, succeeded, process_job-recorded}
use remote_runtime_engine.Security.Audit
use remote_runtime_engine.Security.Audit.{violation_type_string}
use remote_runtime_engine.Metrics.{
  Metric, submissions_total, counter, histogram, kind_of, labels_of, Call, increments, observes,
  record_submission_metrics, record_violation,
}

-- `string(security.Violation...)`, and the label that the worker writes itself.
unfoldable pub violation_string : Violation → Text
unfolding violation_type_string
violation_string memory_oom = violation_type_string Audit.memory_oom
violation_string timeout_exceeded = violation_type_string Audit.timeout_exceeded
violation_string syscall_blocked = violation_type_string Audit.syscall_blocked
violation_string compilation_failure = codes "COMPILATION_FAILURE"

module _ {F : Type 0} (fl : Float F) where
  -- The calls that the effects of a job make on the metrics, the newest effect first.
  unfoldable pub metered : List (Effect F) → List (Call F)
  unfolding violation_string
  metered [] = []
  metered (records lang v sandbox wall cpu peak ∷ log) =
      record_submission_metrics fl lang (verdict_string v) sandbox wall cpu peak ++ metered log
  metered (violates v ∷ log) = record_violation (violation_string v) ++ metered log
  metered (_ ∷ log) = metered log

-- How often `submissions_total` is incremented, over all its labels.
unfoldable pub submissions_counted : {F : Type 0} → List (Call F) → ℕ
submissions_counted [] = 0
submissions_counted (increments submissions_total labels ∷ calls) = suc (submissions_counted calls)
submissions_counted (_ ∷ calls) = submissions_counted calls

-- As many label values as the metric has labels, and an update that its kind has: the library panics
-- at any other number of values.
pub data Fits {F : Type 0} : Call F → Type 0 where
  inc_fits :
      (m : Metric) (values : List Text)
      → kind_of m ≡ counter
      → length values ≡ length (labels_of m)
      → Fits (increments m values)
  observe_fits :
      (m : Metric) (values : List Text) (x : F)
      → kind_of m ≡ histogram
      → length values ≡ length (labels_of m)
      → Fits (observes m values x)

module _ {F : Type 0} (fl : Float F) where
  metered-Fits : (log : List (Effect F)) → All Fits (metered fl log)
  unfolding metered record_submission_metrics record_violation labels_of kind_of
  metered-Fits [] = tt
  metered-Fits (records lang v sandbox wall cpu peak ∷ log) = (
    inc_fits _ _ refl refl,
    (
      observe_fits _ _ _ refl refl,
      (observe_fits _ _ _ refl refl, (observe_fits _ _ _ refl refl, metered-Fits log)),
    ),
  )
  metered-Fits (violates v ∷ log) = (inc_fits _ _ refl refl, metered-Fits log)
  metered-Fits (publishes id e ∷ log) = metered-Fits log
  metered-Fits (saves s ∷ log) = metered-Fits log
  metered-Fits (prepares r ∷ log) = metered-Fits log
  metered-Fits (opens c ∷ log) = metered-Fits log
  metered-Fits (cleans c ∷ log) = metered-Fits log
  metered-Fits (audits a b c d e ∷ log) = metered-Fits log

  submissions_counted-metered :
      (log : List (Effect F)) → submissions_counted (metered fl log) ≡ recorded log
  unfolding submissions_counted metered recorded record_submission_metrics record_violation
  submissions_counted-metered [] = refl
  submissions_counted-metered (records lang v sandbox wall cpu peak ∷ log) =
      ap suc (submissions_counted-metered log)
  submissions_counted-metered (violates v ∷ log) = submissions_counted-metered log
  submissions_counted-metered (publishes id e ∷ log) = submissions_counted-metered log
  submissions_counted-metered (saves s ∷ log) = submissions_counted-metered log
  submissions_counted-metered (prepares r ∷ log) = submissions_counted-metered log
  submissions_counted-metered (opens c ∷ log) = submissions_counted-metered log
  submissions_counted-metered (cleans c ∷ log) = submissions_counted-metered log
  submissions_counted-metered (audits a b c d e ∷ log) = submissions_counted-metered log

  module _ {S : Type 0} (env : Env S F) (j : SubmissionJob F) (os : S) where
    -- A job increments `submissions_total` exactly once if `ProcessJob` returns no error, however the
    -- evaluation ended, and not at all if it recovered from a panic. Every call that it makes on the
    -- metrics gives a value for each label of the metric, so that the library does not panic.
    pub process_job-metered :
        (let (r, w) = process_job fl env (some j) (record { os = os; log = [] }) in
          (submissions_counted (metered fl w.log) ≡ succeeded r) × All Fits (metered fl w.log))
    unfolding recorded
    process_job-metered =
        let w : World S F = record { os = os; log = [] } in
        let log = (process_job fl env (some j) w).1.log in
        (
          submissions_counted-metered log ∙ omega (arith, process_job-recorded fl env j w),
          metered-Fits log,
        )
