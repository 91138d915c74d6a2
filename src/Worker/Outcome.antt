-- ===== src/Worker/Outcome.antt =====
-- The outcome of `ProcessJob` of pkg/worker/worker.go: the last state that it saves and the last event
-- that it publishes.
use remote_runtime_engine.Base.{
  ℕ, ◌≡◌, refl, Option, none, some, List, [], ◌∷◌, Text, Float, Result, ok, err, Result-cases,
  Option-cases, inl, inr, length,
}
use remote_runtime_engine.Models.{
  Verdict, CompilationResult, system_error, compilation_error, memory_limit_exceeded,
  time_limit_exceeded,
}
use remote_runtime_engine.Languages.{LanguageHandler, cpp, python, needs_compilation, get}
use remote_runtime_engine.Sandbox.Select.{SandboxContext, Backend, select_sandbox}
use remote_runtime_engine.Queue.{SubmissionJob}
use remote_runtime_engine.Events.{ExecutionEvent, completed, failed}
use remote_runtime_engine.Store.{SubmissionState}
use remote_runtime_engine.Worker.{
  World, Job, Env, Step, ret, panic, Compiled, Effect, continue, emit, on_host, ◌>>=◌, publishes,
  saves, opens, cleans,
}
use remote_runtime_engine.Worker.Case.{Progress, run_cases}
use remote_runtime_engine.Worker.Score.{
  Scored, first_failure, accepted_count, AnswersAll, Tops, run_cases-Scored, start-Scored,
}
use remote_runtime_engine.Worker.Evaluate.{
  cases_of, start_progress, fail_submission, audit, complete, final_state, final_event,
  start_evaluation, evaluate, compile_failure, save,
}
use remote_runtime_engine.Worker.Process.{
  after_compile, compile_job, compile_and_evaluate, after_prepare, prepare_job, prepare_and_run,
  select_and_run, resolve_and_run, recover, process_job,
}

unfoldable pub last_saved : {F : Type 0} → List (Effect F) → Option (SubmissionState F)
last_saved [] = none
last_saved (saves s ∷ log) = some s
last_saved (_ ∷ log) = last_saved log

unfoldable pub last_event : {F : Type 0} → List (Effect F) → Option (ExecutionEvent F)
last_event [] = none
last_event (publishes id e ∷ log) = some e
last_event (_ ∷ log) = last_event log

-- A completed state accounts for every case of its job.
pub record Accounts {F : Type 0} (fl : Float F) (j : SubmissionJob F) (s : SubmissionState F)
    : Type 0 where
  pub total : s.total_test_cases ≡ length (cases_of j)
  pub verdict : s.verdict ≡ first_failure s.results
  pub passed : s.passed_test_cases ≡ accepted_count s.results
  pub answers : AnswersAll (cases_of j) s.results
  pub tops : Tops fl s.peak_memory_mb s.results

-- A state failed, or completed with an account of the cases.
pub data Settled {F : Type 0} (fl : Float F) (j : SubmissionJob F) (s : SubmissionState F)
    : Type 0 where
  has_failed : s.status ≡ failed → Settled fl j s
  has_completed : s.status ≡ completed → Accounts fl j s → Settled fl j s

-- The job is over: the last state is settled, and the last event tells its status and verdict.
abbrev pub IsOver : {F : Type 0} → Float F → SubmissionJob F → List (Effect F) → Type 0
IsOver {F} fl j log =
    (s : SubmissionState F) × (e : ExecutionEvent F) × (last_saved log ≡ some s)
    × (last_event log ≡ some e)
    × (s.submission_id ≡ j.submission_id)
    × (e.status ≡ s.status)
    × (e.verdict ≡ some s.verdict)
    × Settled fl j s

-- What holds when a part of a job returns; nothing is said of a panic.
abbrev OnReturn : {S F A : Type 0} → (List (Effect F) → Type 0) → Step A × World S F → Type 0
OnReturn Q (ret a, w) = Q w.log
OnReturn Q (panic m, w) = Unit {0}

record Concludes {S F A : Type 0} (Q : List (Effect F) → Type 0) (m : Job S F A) : Type 0 where
  at : (w : World S F) → OnReturn Q (m w)

module _ {S F A B : Type 0} {Q : List (Effect F) → Type 0} where
  continue-Concludes :
      (r : Step A) (f : A → Job S F B) (w : World S F)
      → ((a : A) → r ≡ ret a → Concludes Q (f a))
      → OnReturn Q (continue r f w)
  continue-Concludes (ret a) f w h = (h a refl).at w
  continue-Concludes (panic m) f w h = tt

  -- The last part decides, and may use what the first returned.
  Concludes-bind :
      (m : Job S F A) (f : A → Job S F B)
      → ((a : A) (w : World S F) → (m w).0 ≡ ret a → Concludes Q (f a))
      → Concludes Q (m >>= f)
  Concludes-bind m f h = record { at = λ w. continue-Concludes (m w).0 f (m w).1 (λ a. h a w) }

module _ {S F : Type 0} (fl : Float F) (env : Env S F) (j : SubmissionJob F) where
  abbrev Ends : Job S F (Unit {0}) → Type 0
  Ends m = Concludes (IsOver fl j) m

  fail_submission-Ends :
      (total : ℕ) (v : Verdict) (details : Text) (comp : Option (CompilationResult F))
      → Ends (fail_submission fl env j.submission_id j.language total v details comp)
  unfolding fail_submission last_saved last_event
  fail_submission-Ends total v details comp = record {
    at = λ w. (_, _, refl, refl, refl, refl, refl, has_failed refl);
  }

  -- The audit neither saves nor publishes.
  audit_log :
      (b : Backend) (p : Progress F) (v : Verdict) (w : World S F)
      → ((audit fl env j b p v w).0 ≡ ret tt)
        × (last_saved (audit fl env j b p v w).1.log ≡ last_saved w.log)
  unfolding audit last_saved
  audit_log b p memory_limit_exceeded w = (refl, refl)
  audit_log b p time_limit_exceeded w = (refl, refl)
  audit_log b p _ w = (refl, refl)

  -- The final event follows whatever has saved the final state.
  announce :
      (comp : Option (CompilationResult F)) (p : Progress F) (now t : ℕ) (r : Step (Unit {0}))
      (w : World S F)
      → Scored fl (cases_of j) p
      → last_saved w.log
        ≡ some (record (final_state fl env j (length (cases_of j)) comp p now) { updated_at = t })
      → OnReturn (IsOver fl j) (
          continue r
            (λ _.
              emit
                (publishes j.submission_id (final_event fl env j (length (cases_of j)) comp p now)))
            w)
  unfolding final_state final_event last_saved last_event
  announce comp p now t (panic m) w s h = tt
  announce comp p now t (ret a) w s h = (
    _,
    _,
    h,
    refl,
    refl,
    refl,
    refl,
    has_completed refl (record {
      total = refl;
      verdict = s.verdict;
      passed = s.passed;
      answers = s.answers;
      tops = s.tops;
    }),
  )

  complete-Ends :
      (b : Backend) (comp : Option (CompilationResult F)) (p : Progress F)
      → Scored fl (cases_of j) p
      → Ends (complete fl env j (length (cases_of j)) b comp p)
  unfolding complete save last_saved
  complete-Ends b comp p s = record {
    at = λ w.
        announce comp p (env.now w.os).0 (env.now (env.now w.os).1).0 _ _ s
          (audit_log b p p.verdict _).1;
  }

  evaluate-Ends :
      (b : Backend) (c : SandboxContext F) (comp : Option (CompilationResult F))
      → Ends (evaluate fl env j b c comp)
  unfolding evaluate
  evaluate-Ends b c comp =
      let total = length (cases_of j) in
      Concludes-bind (start_evaluation fl env j total comp) _ (λ _ _ _.
        Concludes-bind (run_cases fl env j.submission_id total b c (cases_of j) (start_progress fl))
          _
          (λ p w e. complete-Ends b comp p (
            run_cases-Scored fl env j.submission_id total b c [] (cases_of j) (start_progress fl) p
              w (start-Scored fl) e)))

  after_compile-Ends :
      (b : Backend) (c : SandboxContext F) (r : Compiled F) → Ends (after_compile fl env j b c r)
  unfolding after_compile
  after_compile-Ends b c r = elim (Option-cases (compile_failure r)) [
    | inl e ↦ rw (e, after_compile) (evaluate-Ends b c r.result)
    | inr (details, e) ↦
        rw (e, after_compile)
          (fail_submission-Ends (length (cases_of j)) compilation_error details r.result)
  ]

  compile_and_evaluate-Ends :
      (lang : LanguageHandler) (b : Backend) (c : SandboxContext F)
      → Ends (compile_and_evaluate fl env j lang b c)
  unfolding compile_and_evaluate needs_compilation
  compile_and_evaluate-Ends cpp b c =
      Concludes-bind (compile_job fl env j b c) _ (λ r _ _. after_compile-Ends b c r)
  compile_and_evaluate-Ends python b c = evaluate-Ends b c none

  cleaned_up :
      (b : Backend) (c : SandboxContext F) (r : Step (Unit {0})) (w : World S F)
      → OnReturn (IsOver fl j) (r, w)
      → OnReturn
          (IsOver fl j)
          (r, record w { os = (env.sandbox b).cleanup c w.os; log = cleans c ∷ w.log })
  unfolding last_saved last_event
  cleaned_up b c (ret a) w h = h
  cleaned_up b c (panic m) w h = tt

  after_prepare-Ends :
      (lang : LanguageHandler) (b : Backend) (r : Result Text (SandboxContext F))
      → Ends (after_prepare fl env j lang b r)
  unfolding after_prepare
  after_prepare-Ends lang b (err e) = fail_submission-Ends (length (cases_of j)) system_error _ none
  after_prepare-Ends lang b (ok c) = record {
    at = λ w.
        let w₁ : World S F = record w { log = opens c ∷ w.log } in
        let body = compile_and_evaluate fl env j lang b c w₁ in
        cleaned_up b c body.0 body.1 ((compile_and_evaluate-Ends lang b c).at w₁);
  }

  select_and_run-Ends :
      (lang : LanguageHandler) (r : Result Text Backend) → Ends (select_and_run fl env j lang r)
  unfolding select_and_run prepare_and_run
  select_and_run-Ends lang (err e) = fail_submission-Ends (length (cases_of j)) system_error e none
  select_and_run-Ends lang (ok b) =
      Concludes-bind (prepare_job fl env j lang b) _ (λ r _ _. after_prepare-Ends lang b r)

  resolve_and_run-Ends : Ends (resolve_and_run fl env j)
  unfolding resolve_and_run
  resolve_and_run-Ends = elim (Result-cases (get env.table j.language)) [
    | inl (lang, e) ↦
        rw (e, resolve_and_run)
          (Concludes-bind (on_host env.host) _
            (λ h _ _. select_and_run-Ends lang (select_sandbox h j.sandbox_type)))
    | inr (m, e) ↦
        rw (e, resolve_and_run) (fail_submission-Ends (length (cases_of j)) system_error m none)
  ]

  recover-IsOver :
      (r : Step (Unit {0})) (w : World S F)
      → OnReturn (IsOver fl j) (r, w)
      → IsOver fl j (recover fl env j r w).1.log
  unfolding recover last_saved last_event
  recover-IsOver (ret a) w h = h
  recover-IsOver (panic m) w h = (_, _, refl, refl, refl, refl, refl, has_failed refl)

  -- Every job ends with a settled state, also when a sandbox panics: the last state saved for it has
  -- failed, or has completed with one result for each of its cases, the verdict of the first case
  -- that was not accepted, the number of accepted cases and a peak memory that no case exceeds, and
  -- with no output of a hidden case that was not accepted. The last event published has the state's
  -- status and verdict.
  pub process_job-IsOver : (w : World S F) → IsOver fl j (process_job fl env (some j) w).1.log
  unfolding process_job
  process_job-IsOver w =
      let (r, w') = resolve_and_run fl env j w in recover-IsOver r w' (resolve_and_run-Ends.at w)
