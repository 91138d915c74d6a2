-- ===== src/Worker/Volume.antt =====
-- How many events a job of pkg/worker/worker.go publishes at most.
use remote_runtime_engine.Base.{
  ℕ, suc, ◌+◌, ◌*◌, ◌≤◌, Option, none, some, List, [], ◌∷◌, Text, Float, Result, ok, err,
  Result-cases, Option-cases, inl, inr, length, arith,
}
use remote_runtime_engine.Models.{
  Verdict, CompilationResult, ExecutionResult, time_limit_exceeded, memory_limit_exceeded,
  compilation_error, system_error,
}
use remote_runtime_engine.Languages.{LanguageHandler, cpp, python, needs_compilation, get}
use remote_runtime_engine.Sandbox.Select.{SandboxContext, Backend, select_sandbox}
use remote_runtime_engine.Queue.{TestCase, SubmissionJob}
use remote_runtime_engine.Events.{ExecutionEvent}
use remote_runtime_engine.Worker.{
  World, Job, Env, Step, ret, panic, Compiled, Effect, ◌>>=◌, emit, on_host, guarded, publishes,
  opens, continue,
}
use remote_runtime_engine.Worker.Case.{
  Progress, publish_now, start_event, or_system_error, execute_case, run_case, run_cases,
  case_event, case_context,
}
use remote_runtime_engine.Worker.Evaluate.{
  final_event, save, fail_submission, complete, audit, start_evaluation, evaluate, compile_failure,
  cases_of, start_progress,
}
use remote_runtime_engine.Worker.Process.{
  after_compile, compile_job, compile_and_evaluate, after_prepare, prepare_job, prepare_and_run,
  select_and_run, resolve_and_run, recover, process_job,
}

unfoldable pub volume : {F : Type 0} → List (Effect F) → ℕ
volume [] = 0
volume (publishes id e ∷ log) = suc (volume log)
volume (_ ∷ log) = volume log

-- `m` publishes at most `k` events, whether it returns or panics.
record Adds {S F A : Type 0} (k : ℕ) (m : Job S F A) : Type 0 where
  at : (w : World S F) → volume (m w).1.log ≤ volume w.log + k

module _ {S F A B : Type 0} where
  continue-Adds :
      (k n : ℕ) (r : Step A) (f : A → Job S F B) (w : World S F)
      → ((a : A) → Adds k (f a))
      → volume w.log ≤ n
      → volume (continue r f w).1.log ≤ n + k
  continue-Adds k n (ret a) f w kf h = omega (arith, (kf a).at w, h)
  continue-Adds k n (panic m) f w kf h = omega (arith, h)

  Adds-bind :
      (i k : ℕ) (m : Job S F A) (f : A → Job S F B)
      → Adds i m
      → ((a : A) → Adds k (f a))
      → Adds (i + k) (m >>= f)
  Adds-bind i k m f km kf = record {
    at = λ w.
        let (r, w') = m w in omega (arith, continue-Adds k (volume w.log + i) r f w' kf (km.at w));
  }

Adds-le : {S F A : Type 0} (i k : ℕ) (m : Job S F A) → i ≤ k → Adds i m → Adds k m
Adds-le i k m h a = record { at = λ w. omega (arith, a.at w, h) }

module _ {S F : Type 0} (fl : Float F) (env : Env S F) (j : SubmissionJob F) where
  publish_now-Adds : (e : ExecutionEvent F) → Adds 1 (publish_now fl env j.submission_id e)
  unfolding publish_now volume
  publish_now-Adds e = record { at = λ w. omega arith }

  or_system_error-Adds :
      (b : Backend) (r : Result Text (ExecutionResult F))
      → Adds 0 (or_system_error fl env j.submission_id b r)
  unfolding or_system_error
  or_system_error-Adds b (ok r) = record { at = λ w. omega arith }
  or_system_error-Adds b (err e) = record { at = λ w. omega arith }

  execute_case-Adds :
      (b : Backend) (c : SandboxContext F) → Adds 0 (execute_case fl env j.submission_id b c)
  unfolding execute_case
  execute_case-Adds b c =
      Adds-le (0 + 0) 0 (execute_case fl env j.submission_id b c) (omega arith) (
        Adds-bind 0 0 (guarded ((env.sandbox b).execute c))
          (or_system_error fl env j.submission_id b) (record { at = λ w. omega arith })
          (or_system_error-Adds b))

  run_case-Adds :
      (total : ℕ) (b : Backend) (c : SandboxContext F) (tc : TestCase) (p : Progress F)
      → Adds 2 (run_case fl env j.submission_id total b c tc p)
  unfolding run_case
  run_case-Adds total b c tc p =
      let id = j.submission_id in
      Adds-le (1 + (0 + (1 + 0))) 2 (run_case fl env id total b c tc p) (omega arith) (
        Adds-bind 1 (0 + (1 + 0))
          (publish_now fl env id (start_event fl env id total (suc p.index))) _
          (publish_now-Adds (start_event fl env id total (suc p.index)))
          (λ _.
            Adds-bind 0 (1 + 0) (execute_case fl env id b (case_context fl env c tc)) _
              (execute_case-Adds b (case_context fl env c tc))
              (λ r.
                Adds-bind 1 0
                  (publish_now fl env id (case_event fl env id total (suc p.index) tc r)) _
                  (publish_now-Adds (case_event fl env id total (suc p.index) tc r))
                  (λ _. record { at = λ w. omega arith }))))

  run_cases-Adds :
      (total : ℕ) (b : Backend) (c : SandboxContext F) (tcs : List TestCase) (p : Progress F)
      → Adds (2 * length tcs) (run_cases fl env j.submission_id total b c tcs p)
  unfolding run_cases
  run_cases-Adds total b c [] p = record { at = λ w. omega arith }
  run_cases-Adds total b c (tc ∷ tcs) p =
      Adds-le (2 + 2 * length tcs) (2 * suc (length tcs))
        (run_cases fl env j.submission_id total b c (tc ∷ tcs) p) (omega arith)
        (Adds-bind 2 (2 * length tcs) (run_case fl env j.submission_id total b c tc p) _
          (run_case-Adds total b c tc p) (run_cases-Adds total b c tcs))

  fail_submission-Adds :
      (total : ℕ) (v : Verdict) (details : Text) (comp : Option (CompilationResult F))
      → Adds 1 (fail_submission fl env j.submission_id j.language total v details comp)
  unfolding fail_submission save volume
  fail_submission-Adds total v details comp = record { at = λ w. omega arith }

  audit-Adds : (b : Backend) (p : Progress F) (v : Verdict) → Adds 0 (audit fl env j b p v)
  unfolding audit volume
  audit-Adds b p memory_limit_exceeded = record { at = λ w. omega arith }
  audit-Adds b p time_limit_exceeded = record { at = λ w. omega arith }
  audit-Adds b p _ = record { at = λ w. omega arith }

  complete-Adds :
      (total : ℕ) (b : Backend) (comp : Option (CompilationResult F)) (p : Progress F)
      → Adds 1 (complete fl env j total b comp p)
  unfolding complete save volume
  complete-Adds total b comp p = record {
    at = λ w.
        (Adds-bind 0 1 (audit fl env j b p p.verdict)
            (λ _. emit (publishes j.submission_id (final_event fl env j total comp p _)))
            (audit-Adds b p p.verdict) (λ _. record { at = λ w. omega arith })).at
          _;
  }

  start_evaluation-Adds :
      (total : ℕ) (comp : Option (CompilationResult F))
      → Adds 1 (start_evaluation fl env j total comp)
  unfolding start_evaluation publish_now save volume
  start_evaluation-Adds total comp = record { at = λ w. omega arith }

  evaluate-Adds :
      (b : Backend) (c : SandboxContext F) (comp : Option (CompilationResult F))
      → Adds (2 * length (cases_of j) + 2) (evaluate fl env j b c comp)
  unfolding evaluate
  evaluate-Adds b c comp =
      let n = length (cases_of j) in
      Adds-le (1 + (2 * n + 1)) (2 * n + 2) (evaluate fl env j b c comp) (omega arith) (
        Adds-bind 1 (2 * n + 1) (start_evaluation fl env j n comp) _ (start_evaluation-Adds n comp)
          (λ _.
            Adds-bind (2 * n) 1
              (run_cases fl env j.submission_id n b c (cases_of j) (start_progress fl)) _
              (run_cases-Adds n b c (cases_of j) (start_progress fl)) (complete-Adds n b comp)))

  after_compile-Adds :
      (b : Backend) (c : SandboxContext F) (r : Compiled F)
      → Adds (2 * length (cases_of j) + 2) (after_compile fl env j b c r)
  unfolding after_compile
  after_compile-Adds b c r = elim (Option-cases (compile_failure r)) [
    | inl e ↦ rw (e, after_compile) (evaluate-Adds b c r.result)
    | inr (details, e) ↦
        rw (e, after_compile)
          (Adds-le 1 (2 * length (cases_of j) + 2) _ (omega arith)
            (fail_submission-Adds (length (cases_of j)) compilation_error details r.result))
  ]

  compile_job-Adds : (b : Backend) (c : SandboxContext F) → Adds 1 (compile_job fl env j b c)
  unfolding compile_job publish_now volume
  compile_job-Adds b c = record { at = λ w. omega arith }

  compile_and_evaluate-Adds :
      (lang : LanguageHandler) (b : Backend) (c : SandboxContext F)
      → Adds (2 * length (cases_of j) + 3) (compile_and_evaluate fl env j lang b c)
  unfolding compile_and_evaluate needs_compilation
  compile_and_evaluate-Adds cpp b c =
      let k = 2 * length (cases_of j) + 2 in
      Adds-le (1 + k) (2 * length (cases_of j) + 3) _ (omega arith)
        (Adds-bind 1 k (compile_job fl env j b c) _ (compile_job-Adds b c) (after_compile-Adds b c))
  compile_and_evaluate-Adds python b c =
      Adds-le (2 * length (cases_of j) + 2) (2 * length (cases_of j) + 3) _ (omega arith)
        (evaluate-Adds b c none)

  after_prepare-Adds :
      (lang : LanguageHandler) (b : Backend) (r : Result Text (SandboxContext F))
      → Adds (2 * length (cases_of j) + 3) (after_prepare fl env j lang b r)
  unfolding after_prepare volume
  after_prepare-Adds lang b (err e) =
      Adds-le 1 (2 * length (cases_of j) + 3) _ (omega arith)
        (fail_submission-Adds (length (cases_of j)) system_error _ none)
  after_prepare-Adds lang b (ok c) = record {
    at = λ w. (compile_and_evaluate-Adds lang b c).at (record w { log = opens c ∷ w.log });
  }

  prepare_job-Adds : (lang : LanguageHandler) (b : Backend) → Adds 0 (prepare_job fl env j lang b)
  unfolding prepare_job volume
  prepare_job-Adds lang b = record { at = λ w. omega arith }

  select_and_run-Adds :
      (lang : LanguageHandler) (r : Result Text Backend)
      → Adds (2 * length (cases_of j) + 3) (select_and_run fl env j lang r)
  unfolding select_and_run prepare_and_run
  select_and_run-Adds lang (err e) =
      Adds-le 1 (2 * length (cases_of j) + 3) _ (omega arith)
        (fail_submission-Adds (length (cases_of j)) system_error e none)
  select_and_run-Adds lang (ok b) =
      let k = 2 * length (cases_of j) + 3 in
      Adds-le (0 + k) k _ (omega arith) (
        Adds-bind 0 k (prepare_job fl env j lang b) _ (prepare_job-Adds lang b)
          (after_prepare-Adds lang b))

  resolve_and_run-Adds : Adds (2 * length (cases_of j) + 3) (resolve_and_run fl env j)
  unfolding resolve_and_run
  resolve_and_run-Adds =
      let k = 2 * length (cases_of j) + 3 in
      elim (Result-cases (get env.table j.language)) [
        | inl (lang, e) ↦
            rw (e, resolve_and_run)
              (Adds-le (0 + k) k _ (omega arith) (
                Adds-bind 0 k (on_host env.host) _ (record { at = λ w. omega arith })
                  (λ h. select_and_run-Adds lang (select_sandbox h j.sandbox_type))))
        | inr (m, e) ↦
            rw (e, resolve_and_run)
              (Adds-le 1 k _ (omega arith)
                (fail_submission-Adds (length (cases_of j)) system_error m none))
      ]

  recover-Adds : (r : Step (Unit {0})) → Adds 1 (recover fl env j r)
  unfolding recover save publish_now volume
  recover-Adds (ret a) = record { at = λ w. omega arith }
  recover-Adds (panic m) = record { at = λ w. omega arith }

  -- A job publishes at most two events for each of its cases and four more.
  pub process_job-volume :
      (w : World S F)
      → volume (process_job fl env (some j) w).1.log ≤ volume w.log + (2 * length (cases_of j) + 4)
  unfolding process_job
  process_job-volume w =
      let (r, w') = resolve_and_run fl env j w in
      omega (arith, (recover-Adds r).at w', resolve_and_run-Adds.at w)
