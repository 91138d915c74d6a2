-- ===== src/Worker/Recorded.antt =====
-- How often a job of pkg/worker/worker.go records its metrics.
use remote_runtime_engine.Base.{
  ℕ, suc, ◌+◌, ◌≡◌, refl, ap, ◌∙◌, Option, none, some, List, [], ◌∷◌, Text, Float, Result, ok, err,
  Result-cases, Option-cases, inl, inr, length, arith,
}
use remote_runtime_engine.Models.{
  Verdict, CompilationResult, ExecutionResult, time_limit_exceeded, memory_limit_exceeded,
  compilation_error, system_error,
}
use remote_runtime_engine.Languages.{LanguageHandler, cpp, python, needs_compilation, get}
use remote_runtime_engine.Sandbox.Select.{SandboxContext, Backend, select_sandbox}
use remote_runtime_engine.Queue.{TestCase, SubmissionJob}
use remote_runtime_engine.Events.{ExecutionEvent}
use remote_runtime_engine.Worker.{
  World, Job, Env, Step, ret, panic, Compiled, Effect, ◌>>=◌, emit, on_host, guarded, publishes,
  opens, continue, records,
}
use remote_runtime_engine.Worker.Keeps.{Keeps, Keeps-pure, Keeps-on_host, Keeps-guarded, Keeps-bind}
use remote_runtime_engine.Worker.Case.{
  Progress, publish_now, start_event, or_system_error, execute_case, run_case, run_cases,
  case_event, case_context, score,
}
use remote_runtime_engine.Worker.Evaluate.{
  save, fail_submission, complete, audit, start_evaluation, evaluate, compile_failure, cases_of,
  start_progress,
}
use remote_runtime_engine.Worker.Process.{
  after_compile, compile_job, compile_and_evaluate, after_prepare, prepare_job, prepare_and_run,
  select_and_run, resolve_and_run, recover, process_job,
}

unfoldable pub recorded : {F : Type 0} → List (Effect F) → ℕ
recorded [] = 0
recorded (records a b c d e f ∷ log) = suc (recorded log)
recorded (_ ∷ log) = recorded log

-- One for a job that returns no error.
abbrev pub succeeded : Step (Result Text (Unit {0})) → ℕ
succeeded (ret (ok a)) = 1
succeeded (ret (err e)) = 0
succeeded (panic m) = 0

abbrev returned : Step (Unit {0}) → ℕ
returned (ret a) = 1
returned (panic m) = 0

module _ {S F : Type 0} (fl : Float F) (env : Env S F) (j : SubmissionJob F) (n : ℕ) where
  abbrev Same : List (Effect F) → Type 0
  Same l = recorded l ≡ n

  -- `m` records once if it returns, and not at all if it panics.
  record Once (m : Job S F (Unit {0})) : Type 0 where
    at : (w : World S F) → Same w.log → recorded (m w).1.log ≡ n + returned (m w).0

  continue-Once :
      {A : Type 0} (r : Step A) (f : A → Job S F (Unit {0})) (w : World S F)
      → ((a : A) → Once (f a))
      → Same w.log
      → recorded (continue r f w).1.log ≡ n + returned (continue r f w).0
  continue-Once (ret a) f w kf h = (kf a).at w h
  continue-Once (panic m) f w kf h = omega arith

  Once-bind :
      {A : Type 0} (m : Job S F A) (f : A → Job S F (Unit {0}))
      → Keeps Same m
      → ((a : A) → Once (f a))
      → Once (m >>= f)
  Once-bind m f km kf = record {
    at = λ w h. let (r, w') = m w in continue-Once r f w' kf (km.at w h);
  }

  quiet-publish_now : (e : ExecutionEvent F) → Keeps Same (publish_now fl env j.submission_id e)
  unfolding publish_now recorded
  quiet-publish_now e = record { at = λ w h. h }

  quiet-or_system_error :
      (b : Backend) (r : Result Text (ExecutionResult F))
      → Keeps Same (or_system_error fl env j.submission_id b r)
  unfolding or_system_error
  quiet-or_system_error b (ok r) = Keeps-pure r
  quiet-or_system_error b (err e) = record { at = λ w h. h }

  quiet-execute_case :
      (b : Backend) (c : SandboxContext F) → Keeps Same (execute_case fl env j.submission_id b c)
  unfolding execute_case
  quiet-execute_case b c =
      Keeps-bind (guarded ((env.sandbox b).execute c)) (or_system_error fl env j.submission_id b)
        (Keeps-guarded ((env.sandbox b).execute c)) (quiet-or_system_error b)

  quiet-run_case :
      (total : ℕ) (b : Backend) (c : SandboxContext F) (tc : TestCase) (p : Progress F)
      → Keeps Same (run_case fl env j.submission_id total b c tc p)
  unfolding run_case
  quiet-run_case total b c tc p =
      let id = j.submission_id in
      Keeps-bind (publish_now fl env id (start_event fl env id total (suc p.index))) _
        (quiet-publish_now (start_event fl env id total (suc p.index)))
        (λ _.
          Keeps-bind (execute_case fl env id b (case_context fl env c tc)) _
            (quiet-execute_case b (case_context fl env c tc))
            (λ r.
              Keeps-bind (publish_now fl env id (case_event fl env id total (suc p.index) tc r)) _
                (quiet-publish_now (case_event fl env id total (suc p.index) tc r))
                (λ _. Keeps-pure (score fl p tc r))))

  quiet-run_cases :
      (total : ℕ) (b : Backend) (c : SandboxContext F) (tcs : List TestCase) (p : Progress F)
      → Keeps Same (run_cases fl env j.submission_id total b c tcs p)
  unfolding run_cases
  quiet-run_cases total b c [] p = Keeps-pure p
  quiet-run_cases total b c (tc ∷ tcs) p =
      Keeps-bind (run_case fl env j.submission_id total b c tc p) _ (quiet-run_case total b c tc p)
        (quiet-run_cases total b c tcs)

  fail_submission-Once :
      (total : ℕ) (v : Verdict) (details : Text) (comp : Option (CompilationResult F))
      → Once (fail_submission fl env j.submission_id j.language total v details comp)
  unfolding fail_submission save recorded
  fail_submission-Once total v details comp = record { at = λ w h. omega arith }

  quiet-audit :
      (b : Backend) (p : Progress F) (v : Verdict) (w : World S F)
      → ((audit fl env j b p v w).0 ≡ ret tt)
        × (recorded (audit fl env j b p v w).1.log ≡ recorded w.log)
  unfolding audit recorded
  quiet-audit b p memory_limit_exceeded w = (refl, refl)
  quiet-audit b p time_limit_exceeded w = (refl, refl)
  quiet-audit b p _ w = (refl, refl)

  announce-recorded :
      (r : Step (Unit {0})) (e : ExecutionEvent F) (w : World S F)
      → r ≡ ret tt
      → recorded w.log ≡ suc n
      → recorded (continue r (λ _. emit (publishes j.submission_id e)) w).1.log
        ≡ n + returned (continue r (λ _. emit (publishes j.submission_id e)) w).0
  unfolding recorded
  announce-recorded (ret a) e w k h = omega arith
  announce-recorded (panic m) e w k h = absurd (cc)

  complete-Once :
      (total : ℕ) (b : Backend) (comp : Option (CompilationResult F)) (p : Progress F)
      → Once (complete fl env j total b comp p)
  unfolding complete save recorded
  complete-Once total b comp p = record {
    at =
        λ w h. let (k, e) = quiet-audit b p p.verdict _ in announce-recorded _ _ _ k (e ∙ ap suc h);
  }

  quiet-start_evaluation :
      (total : ℕ) (comp : Option (CompilationResult F))
      → Keeps Same (start_evaluation fl env j total comp)
  unfolding start_evaluation publish_now save recorded
  quiet-start_evaluation total comp = record { at = λ w h. h }

  evaluate-Once :
      (b : Backend) (c : SandboxContext F) (comp : Option (CompilationResult F))
      → Once (evaluate fl env j b c comp)
  unfolding evaluate
  evaluate-Once b c comp =
      let total = length (cases_of j) in
      Once-bind (start_evaluation fl env j total comp) _ (quiet-start_evaluation total comp) (λ _.
        Once-bind (run_cases fl env j.submission_id total b c (cases_of j) (start_progress fl)) _
          (quiet-run_cases total b c (cases_of j) (start_progress fl)) (complete-Once total b comp))

  after_compile-Once :
      (b : Backend) (c : SandboxContext F) (r : Compiled F) → Once (after_compile fl env j b c r)
  unfolding after_compile
  after_compile-Once b c r = elim (Option-cases (compile_failure r)) [
    | inl e ↦ rw (e, after_compile) (evaluate-Once b c r.result)
    | inr (details, e) ↦
        rw (e, after_compile)
          (fail_submission-Once (length (cases_of j)) compilation_error details r.result)
  ]

  quiet-compile_job : (b : Backend) (c : SandboxContext F) → Keeps Same (compile_job fl env j b c)
  unfolding compile_job publish_now recorded
  quiet-compile_job b c = record { at = λ w h. h }

  compile_and_evaluate-Once :
      (lang : LanguageHandler) (b : Backend) (c : SandboxContext F)
      → Once (compile_and_evaluate fl env j lang b c)
  unfolding compile_and_evaluate needs_compilation
  compile_and_evaluate-Once cpp b c =
      Once-bind (compile_job fl env j b c) _ (quiet-compile_job b c) (after_compile-Once b c)
  compile_and_evaluate-Once python b c = evaluate-Once b c none

  after_prepare-Once :
      (lang : LanguageHandler) (b : Backend) (r : Result Text (SandboxContext F))
      → Once (after_prepare fl env j lang b r)
  unfolding after_prepare recorded
  after_prepare-Once lang b (err e) = fail_submission-Once (length (cases_of j)) system_error _ none
  after_prepare-Once lang b (ok c) = record {
    at = λ w h. (compile_and_evaluate-Once lang b c).at (record w { log = opens c ∷ w.log }) h;
  }

  quiet-prepare_job :
      (lang : LanguageHandler) (b : Backend) → Keeps Same (prepare_job fl env j lang b)
  unfolding prepare_job recorded
  quiet-prepare_job lang b = record { at = λ w h. h }

  select_and_run-Once :
      (lang : LanguageHandler) (r : Result Text Backend) → Once (select_and_run fl env j lang r)
  unfolding select_and_run prepare_and_run
  select_and_run-Once lang (err e) = fail_submission-Once (length (cases_of j)) system_error e none
  select_and_run-Once lang (ok b) =
      Once-bind (prepare_job fl env j lang b) _ (quiet-prepare_job lang b)
        (after_prepare-Once lang b)

  resolve_and_run-Once : Once (resolve_and_run fl env j)
  unfolding resolve_and_run
  resolve_and_run-Once = elim (Result-cases (get env.table j.language)) [
    | inl (lang, e) ↦
        rw (e, resolve_and_run)
          (Once-bind (on_host env.host) _ (Keeps-on_host env.host)
            (λ h. select_and_run-Once lang (select_sandbox h j.sandbox_type)))
    | inr (m, e) ↦
        rw (e, resolve_and_run) (fail_submission-Once (length (cases_of j)) system_error m none)
  ]

  recover-recorded :
      (r : Step (Unit {0})) (w : World S F)
      → recorded w.log ≡ n + returned r
      → recorded (recover fl env j r w).1.log ≡ n + succeeded (recover fl env j r w).0
  unfolding recover save publish_now recorded
  recover-recorded (ret a) w h = h
  recover-recorded (panic m) w h = h

-- A job records its metrics exactly once if it returns no error, however it ends, and never if it
-- panicked.
pub process_job-recorded :
    {S F : Type 0} (fl : Float F) (env : Env S F) (j : SubmissionJob F) (w : World S F)
    → (let (r, w') = process_job fl env (some j) w in
        recorded w'.log ≡ recorded w.log + succeeded r)
unfolding process_job
process_job-recorded fl env j w =
    let (r, w') = resolve_and_run fl env j w in
    recover-recorded fl env j (recorded w.log) r w'
      ((resolve_and_run-Once fl env j (recorded w.log)).at w refl)
