-- ===== src/Worker/Numbering.antt =====
-- The events that a job of pkg/worker/worker.go publishes for its test cases.
pub mod Loop
use remote_runtime_engine.Base.{
  ℕ, zero, suc, ◌+◌, ◌≡◌, ◌⊎◌, refl, sym, ap, ◌∙◌, Bool, true, false, Bool-cases, Option, none,
  some, List, [], ◌∷◌, Text, Float, Result, ok, err, Result-cases, Option-cases, inl, inr, length,
  arith, if◌then◌else◌,
}
use remote_runtime_engine.Models.{
  Verdict, CompilationResult, ExecutionResult, is_accepted, time_limit_exceeded,
  memory_limit_exceeded, compilation_error, system_error,
}
use remote_runtime_engine.Languages.{LanguageHandler, cpp, python, needs_compilation, get}
use remote_runtime_engine.Sandbox.Select.{SandboxContext, Backend, select_sandbox}
use remote_runtime_engine.Queue.{TestCase, SubmissionJob}
use remote_runtime_engine.Events.{
  EventStatus, ExecutionEvent, test_case_start, test_case_passed, test_case_failed, completed,
  failed,
}
use remote_runtime_engine.Worker.{
  World, Job, Env, Step, ret, panic, Compiled, Effect, ◌>>=◌, emit, guarded, publishes, opens,
  cleans, continue,
}
use remote_runtime_engine.Worker.Keeps.{Keeps, Keeps-pure, Keeps-on_host, Keeps-guarded, Keeps-bind}
use remote_runtime_engine.Worker.Case.{
  Progress, publish_now, start_event, or_system_error, execute_case, run_case, run_cases,
  case_event, case_context, score,
}
use remote_runtime_engine.Worker.Evaluate.{
  save, fail_submission, complete, audit, final_event, start_evaluation, evaluate, compile_failure,
  cases_of, start_progress,
}
use remote_runtime_engine.Worker.Process.{
  after_compile, compile_job, compile_and_evaluate, after_prepare, prepare_job, prepare_and_run,
  select_and_run, resolve_and_run, recover, process_job, with_cleanup,
}
use remote_runtime_engine.Worker.Protocol.{Phase, advance, phase, idle, finished, process_job-phase}
use remote_runtime_engine.Worker.Numbering.Loop.{
  of_case, case_numbers, each_twice, last_status, After, Leads, Leads-bind, Keeps-Leads, weaker,
  after_cleanup, run_cases-Leads, complete-Leads,
}

module _ {S F : Type 0} (fl : Float F) (env : Env S F) (j : SubmissionJob F) (ns : List ℕ) where
  -- If the last event of the log is COMPLETED, each case was started and ended.
  abbrev Told : List (Effect F) → Type 0
  Told l = last_status l ≡ some completed → case_numbers l ≡ each_twice (length (cases_of j)) ns

  fail_submission-Told :
      (total : ℕ) (v : Verdict) (details : Text) (comp : Option (CompilationResult F))
      → Leads
          (λ l. case_numbers l ≡ ns)
          (fail_submission fl env j.submission_id j.language total v details comp)
          (λ _. Told)
  unfolding fail_submission last_status
  fail_submission-Told total v details comp = record { at = λ w h e. absurd (ground (arith, e)) }

  complete-Told :
      (total : ℕ) (b : Backend) (comp : Option (CompilationResult F)) (p : Progress F)
      → Leads
          (λ l. case_numbers l ≡ each_twice (length (cases_of j)) ns)
          (complete fl env j total b comp p)
          (λ _. Told)
  complete-Told total b comp p =
      let m = complete fl env j total b comp p in
      let ms = each_twice (length (cases_of j)) ns in
      record {
        at = λ w h.
            weaker (λ l. case_numbers l ≡ ms) Told (m w).0 (m w).1.log (λ e _. e)
              ((complete-Leads fl env j ns total b comp p ms).at w h);
      }

  quiet-start_evaluation :
      (total : ℕ) (comp : Option (CompilationResult F))
      → Keeps (λ l. case_numbers l ≡ ns) (start_evaluation fl env j total comp)
  unfolding start_evaluation publish_now save case_numbers of_case
  quiet-start_evaluation total comp = record { at = λ w h. h }

  evaluate-Told :
      (b : Backend) (c : SandboxContext F) (comp : Option (CompilationResult F))
      → Leads (λ l. case_numbers l ≡ ns) (evaluate fl env j b c comp) (λ _. Told)
  unfolding evaluate each_twice
  evaluate-Told b c comp =
      let total = length (cases_of j) in
      Leads-bind (λ _ l. case_numbers l ≡ ns) _ _ _
        (Keeps-Leads _ (quiet-start_evaluation total comp))
        (λ _.
          Leads-bind (λ _ l. case_numbers l ≡ each_twice total ns) _ _ _
            (run_cases-Leads fl env j ns total b c (cases_of j) (start_progress fl) total
              (omega arith))
            (complete-Told total b comp))

  after_compile-Told :
      (b : Backend) (c : SandboxContext F) (r : Compiled F)
      → Leads (λ l. case_numbers l ≡ ns) (after_compile fl env j b c r) (λ _. Told)
  unfolding after_compile
  after_compile-Told b c r = elim (Option-cases (compile_failure r)) [
    | inl e ↦ rw (e, after_compile) (evaluate-Told b c r.result)
    | inr (details, e) ↦
        rw (e, after_compile)
          (fail_submission-Told (length (cases_of j)) compilation_error details r.result)
  ]

  quiet-compile_job :
      (b : Backend) (c : SandboxContext F)
      → Keeps (λ l. case_numbers l ≡ ns) (compile_job fl env j b c)
  unfolding compile_job publish_now case_numbers of_case
  quiet-compile_job b c = record { at = λ w h. h }

  compile_and_evaluate-Told :
      (lang : LanguageHandler) (b : Backend) (c : SandboxContext F)
      → Leads (λ l. case_numbers l ≡ ns) (compile_and_evaluate fl env j lang b c) (λ _. Told)
  unfolding compile_and_evaluate needs_compilation
  compile_and_evaluate-Told cpp b c =
      Leads-bind (λ _ l. case_numbers l ≡ ns) _ _ _ (Keeps-Leads _ (quiet-compile_job b c))
        (after_compile-Told b c)
  compile_and_evaluate-Told python b c = evaluate-Told b c none

  after_prepare-Told :
      (lang : LanguageHandler) (b : Backend) (r : Result Text (SandboxContext F))
      → Leads (λ l. case_numbers l ≡ ns) (after_prepare fl env j lang b r) (λ _. Told)
  unfolding after_prepare with_cleanup case_numbers last_status
  after_prepare-Told lang b (err e) = fail_submission-Told (length (cases_of j)) system_error _ none
  after_prepare-Told lang b (ok c) = record {
    at = λ w h.
        after_cleanup Told Told (cleans c) _ _ (λ k. k)
          ((compile_and_evaluate-Told lang b c).at (record w { log = opens c ∷ w.log }) h);
  }

  quiet-prepare_job :
      (lang : LanguageHandler) (b : Backend)
      → Keeps (λ l. case_numbers l ≡ ns) (prepare_job fl env j lang b)
  unfolding prepare_job case_numbers
  quiet-prepare_job lang b = record { at = λ w h. h }

  select_and_run-Told :
      (lang : LanguageHandler) (r : Result Text Backend)
      → Leads (λ l. case_numbers l ≡ ns) (select_and_run fl env j lang r) (λ _. Told)
  unfolding select_and_run prepare_and_run
  select_and_run-Told lang (err e) = fail_submission-Told (length (cases_of j)) system_error e none
  select_and_run-Told lang (ok b) =
      Leads-bind (λ _ l. case_numbers l ≡ ns) _ _ _ (Keeps-Leads _ (quiet-prepare_job lang b))
        (after_prepare-Told lang b)

  resolve_and_run-Told : Leads (λ l. case_numbers l ≡ ns) (resolve_and_run fl env j) (λ _. Told)
  unfolding resolve_and_run
  resolve_and_run-Told = elim (Result-cases (get env.table j.language)) [
    | inl (lang, e) ↦
        rw (e, resolve_and_run)
          (Leads-bind (λ _ l. case_numbers l ≡ ns) _ _ _ (Keeps-Leads _ (Keeps-on_host env.host))
            (λ h. select_and_run-Told lang (select_sandbox h j.sandbox_type)))
    | inr (m, e) ↦
        rw (e, resolve_and_run) (fail_submission-Told (length (cases_of j)) system_error m none)
  ]

  recover-Told :
      (r : Step (Unit {0})) (w : World S F)
      → After (λ _. Told) r w.log
      → Told (recover fl env j r w).1.log
  unfolding recover save publish_now last_status
  recover-Told (ret a) w h = h
  recover-Told (panic m) w h = λ e. absurd (ground (arith, e))

advance-finished :
    (p : Phase) (s : EventStatus)
    → advance p s ≡ finished
    → (some s ≡ some failed) ⊎ (some s ≡ some completed)
unfolding advance
advance-finished p s h = ground arith

last_status-finished :
    {F : Type 0} (l : List (Effect F))
    → phase l ≡ finished
    → (last_status l ≡ some failed) ⊎ (last_status l ≡ some completed)
unfolding phase last_status
last_status-finished [] h = absurd (cc)
last_status-finished (publishes id e ∷ l) h = advance-finished (phase l) e.status h
last_status-finished (_ ∷ l) h = last_status-finished l h

-- A job whose submission has published nothing runs through the protocol to its end, whatever the
-- sandbox does, panics included: COMPILING if at all first, then RUNNING, then a start and an outcome
-- of a case by turns, and as the last event and the only final one COMPLETED or FAILED; FAILED may
-- stand at any point. If the last event is COMPLETED, each case of the job, in their order, has had its
-- start and its outcome, with its number, and no other start or outcome was published.
pub process_job-numbered :
    {S F : Type 0} (fl : Float F) (env : Env S F) (j : SubmissionJob F) (w : World S F)
    → phase w.log ≡ idle
    → (let after = (process_job fl env (some j) w).1.log in
        (phase after ≡ finished)
        × ((last_status after ≡ some failed)
            ⊎ ((last_status after ≡ some completed)
                × (case_numbers after ≡ each_twice (length (cases_of j)) (case_numbers w.log)))))
unfolding process_job
process_job-numbered fl env j w h =
    let (r, w') = resolve_and_run fl env j w in
    let f = process_job-phase fl env j w h in
    let told =
      recover-Told fl env j (case_numbers w.log) r w'
        ((resolve_and_run-Told fl env j (case_numbers w.log)).at w refl) in
    (
      f,
      elim (last_status-finished (recover fl env j r w').1.log f) [
        | inl e ↦ inl e
        | inr e ↦ inr (e, told e)
      ],
    )
