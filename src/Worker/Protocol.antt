-- ===== src/Worker/Protocol.antt =====
-- The protocol of events of pkg/worker/worker.go: which statuses a job publishes, and in which order.
use remote_runtime_engine.Base.{
  ℕ, ◌≡◌, refl, Bool, true, false, Option, none, some, List, [], ◌∷◌, Text, Float, Result, ok, err,
  arith, Result-cases, Option-cases, inl, inr, ◌⊎◌, length,
}
use remote_runtime_engine.Models.{Verdict, CompilationResult, compilation_error, system_error}
use remote_runtime_engine.Languages.{LanguageHandler, get}
use remote_runtime_engine.Sandbox.Select.{SandboxContext, Backend, select_sandbox}
use remote_runtime_engine.Queue.{TestCase, SubmissionJob}
use remote_runtime_engine.Events.{
  EventStatus, compiling, running, test_case_start, test_case_passed, test_case_failed, completed,
  failed,
}
use remote_runtime_engine.Worker.{
  World, Env, Step, Step-cases, ret, panic, Compiled, Effect, publishes, opens,
}
use remote_runtime_engine.Worker.Case.{
  Progress, publish_now, start_event, execute_case, case_event, run_case, run_cases,
}
use remote_runtime_engine.Worker.Evaluate.{
  fail_submission, complete, start_evaluation, evaluate, start_progress, cases_of, compile_failure,
}
use remote_runtime_engine.Worker.Process.{
  after_compile, compile_and_evaluate, after_prepare, prepare_and_run, compile_job, prepare_job,
  select_and_run, resolve_and_run, process_job,
}

-- Where the stream of a submission's events stands.
pub data Phase : Type 0 where
  idle in_compiler evaluating in_case finished broken : Phase

-- COMPILING, RUNNING, then for each case its start and its outcome, then COMPLETED; FAILED may end the
-- stream at any point. Any other event breaks it.
unfoldable pub advance : Phase → EventStatus → Phase
advance idle compiling = in_compiler
advance idle running = evaluating
advance idle failed = finished
advance in_compiler running = evaluating
advance in_compiler failed = finished
advance evaluating test_case_start = in_case
advance evaluating completed = finished
advance evaluating failed = finished
advance in_case test_case_passed = evaluating
advance in_case test_case_failed = evaluating
advance in_case failed = finished
advance _ _ = broken

-- The phase after a log; the newest effect is the first.
unfoldable pub phase : {F : Type 0} → List (Effect F) → Phase
phase [] = idle
phase (publishes id e ∷ log) = advance (phase log) e.status
phase (_ ∷ log) = phase log

-- The job may still end by FAILED.
abbrev pub may_fail : Phase → Bool
may_fail finished = false
may_fail broken = false
may_fail _ = true

-- Where a part of the job may leave the stream: between two cases, or within one if it panics.
abbrev pub between : {A : Type 0} → Step A → Phase → Bool
between (ret a) evaluating = true
between (panic m) in_case = true
between _ _ = false

-- Where the whole body of the job leaves it: finished, or still open if it panics.
abbrev pub ends : {A : Type 0} → Step A → Phase → Bool
ends (ret a) finished = true
ends (ret a) _ = false
ends (panic m) ph = may_fail ph

module _ {S F : Type 0} (fl : Float F) (env : Env S F) where
  run_case-phase :
      (id : Text) (total : ℕ) (b : Backend) (c : SandboxContext F) (tc : TestCase) (p : Progress F)
      (w : World S F)
      → phase w.log ≡ evaluating
      → between
          (run_case fl env id total b c tc p w).0
          (phase (run_case fl env id total b c tc p w).1.log)
        ≡ true
  unfolding run_case publish_now start_event execute_case case_event phase advance
  run_case-phase id total b c tc p w h = ground arith

  run_cases-phase :
      (id : Text) (total : ℕ) (b : Backend) (c : SandboxContext F) (tcs : List TestCase)
      (p : Progress F) (w : World S F)
      → phase w.log ≡ evaluating
      → between
          (run_cases fl env id total b c tcs p w).0
          (phase (run_cases fl env id total b c tcs p w).1.log)
        ≡ true
  unfolding run_cases
  run_cases-phase id total b c [] p w h = ground arith
  run_cases-phase id total b c (tc ∷ tcs) p w h =
      let done = run_case fl env id total b c tc p w in
      elim (Step-cases done.0) [
        | inl (p', e) ↦ ground (
          arith,
          run_case-phase id total b c tc p w h,
          run_cases-phase id total b c tcs p' done.1,
        )
        | inr (m, e) ↦ ground (arith, run_case-phase id total b c tc p w h)
      ]

  -- A submission fails in any phase but the last two.
  fail_submission-phase :
      (id lang : Text) (total : ℕ) (v : Verdict) (details : Text)
      (comp : Option (CompilationResult F)) (w : World S F)
      → may_fail (phase w.log) ≡ true
      → ends
          (fail_submission fl env id lang total v details comp w).0
          (phase (fail_submission fl env id lang total v details comp w).1.log)
        ≡ true
  unfolding fail_submission phase advance
  fail_submission-phase id lang total v details comp w h = ground arith

  complete-phase :
      (j : SubmissionJob F) (total : ℕ) (b : Backend) (comp : Option (CompilationResult F))
      (p : Progress F) (w : World S F)
      → phase w.log ≡ evaluating
      → ends
          (complete fl env j total b comp p w).0
          (phase (complete fl env j total b comp p w).1.log)
        ≡ true
  unfolding complete phase advance
  complete-phase j total b comp p w h = ground arith

  start_evaluation-phase :
      (j : SubmissionJob F) (total : ℕ) (comp : Option (CompilationResult F)) (w : World S F)
      → (phase w.log ≡ idle) ⊎ (phase w.log ≡ in_compiler)
      → ((start_evaluation fl env j total comp w).0 ≡ ret tt)
        × (phase (start_evaluation fl env j total comp w).1.log ≡ evaluating)
  unfolding start_evaluation phase advance
  start_evaluation-phase j total comp w h = ground arith

  evaluate-phase :
      (j : SubmissionJob F) (b : Backend) (c : SandboxContext F)
      (comp : Option (CompilationResult F)) (w : World S F)
      → (phase w.log ≡ idle) ⊎ (phase w.log ≡ in_compiler)
      → ends (evaluate fl env j b c comp w).0 (phase (evaluate fl env j b c comp w).1.log) ≡ true
  unfolding evaluate
  evaluate-phase j b c comp w h =
      let total = length (cases_of j) in
      let w₁ = (start_evaluation fl env j total comp w).1 in
      let open' = start_evaluation-phase j total comp w h in
      let done = run_cases fl env j.submission_id total b c (cases_of j) (start_progress fl) w₁ in
      let loop =
        run_cases-phase j.submission_id total b c (cases_of j) (start_progress fl) w₁ open'.1 in
      elim (Step-cases done.0) [
        | inl (p, e) ↦ ground (arith, open', e, loop, complete-phase j total b comp p done.1)
        | inr (m, e) ↦ ground (arith, open', e, loop)
      ]

  after_compile-phase :
      (j : SubmissionJob F) (b : Backend) (c : SandboxContext F) (r : Compiled F) (w : World S F)
      → phase w.log ≡ in_compiler
      → ends (after_compile fl env j b c r w).0 (phase (after_compile fl env j b c r w).1.log)
        ≡ true
  unfolding after_compile
  after_compile-phase j b c r w h = elim (Option-cases (compile_failure r)) [
    | inl e ↦ ground (arith, e, evaluate-phase j b c r.result w)
    | inr (details, e) ↦ ground (
      arith,
      e,
      fail_submission-phase j.submission_id j.language (length (cases_of j)) compilation_error
          details r.result w,
    )
  ]

  compile_job-phase :
      (j : SubmissionJob F) (b : Backend) (c : SandboxContext F) (w : World S F)
      → phase w.log ≡ idle
      → phase (compile_job fl env j b c w).1.log ≡ in_compiler
  unfolding compile_job phase advance
  compile_job-phase j b c w h = ground arith

  compile_and_evaluate-phase :
      (j : SubmissionJob F) (lang : LanguageHandler) (b : Backend) (c : SandboxContext F)
      (w : World S F)
      → phase w.log ≡ idle
      → ends
          (compile_and_evaluate fl env j lang b c w).0
          (phase (compile_and_evaluate fl env j lang b c w).1.log)
        ≡ true
  unfolding compile_and_evaluate
  compile_and_evaluate-phase j lang b c w h =
      let made = compile_job fl env j b c w in
      let opened = compile_job-phase j b c w h in
      elim (Step-cases made.0) [
        | inl (r, e) ↦
            ground
              (arith, opened, e, after_compile-phase j b c r made.1, evaluate-phase j b c none w)
        | inr (m, e) ↦ ground (arith, opened, e, evaluate-phase j b c none w)
      ]

  after_prepare-phase :
      (j : SubmissionJob F) (lang : LanguageHandler) (b : Backend)
      (r : Result Text (SandboxContext F)) (w : World S F)
      → phase w.log ≡ idle
      → ends (after_prepare fl env j lang b r w).0 (phase (after_prepare fl env j lang b r w).1.log)
        ≡ true
  unfolding after_prepare phase
  after_prepare-phase j lang b (ok c) w h =
      compile_and_evaluate-phase j lang b c (record w { log = opens c ∷ w.log }) h
  after_prepare-phase j lang b (err e) w h =
      fail_submission-phase j.submission_id j.language (length (cases_of j)) system_error _ none w
        (ground (arith, h))

  prepare_job-phase :
      (j : SubmissionJob F) (lang : LanguageHandler) (b : Backend) (w : World S F)
      → phase (prepare_job fl env j lang b w).1.log ≡ phase w.log
  unfolding prepare_job phase
  prepare_job-phase j lang b w = refl

  prepare_and_run-phase :
      (j : SubmissionJob F) (lang : LanguageHandler) (b : Backend) (w : World S F)
      → phase w.log ≡ idle
      → ends (prepare_and_run fl env j lang b w).0 (phase (prepare_and_run fl env j lang b w).1.log)
        ≡ true
  unfolding prepare_and_run
  prepare_and_run-phase j lang b w h =
      let made = prepare_job fl env j lang b w in
      elim (Step-cases made.0) [
        | inl (r, e) ↦
            ground (arith, prepare_job-phase j lang b w, e, after_prepare-phase j lang b r made.1)
        | inr (m, e) ↦ ground (arith, prepare_job-phase j lang b w, e)
      ]

  select_and_run-phase :
      (j : SubmissionJob F) (lang : LanguageHandler) (r : Result Text Backend) (w : World S F)
      → phase w.log ≡ idle
      → ends (select_and_run fl env j lang r w).0 (phase (select_and_run fl env j lang r w).1.log)
        ≡ true
  unfolding select_and_run
  select_and_run-phase j lang (ok b) w h = prepare_and_run-phase j lang b w h
  select_and_run-phase j lang (err e) w h =
      fail_submission-phase j.submission_id j.language (length (cases_of j)) system_error e none w
        (ground (arith, h))

  resolve_and_run-phase :
      (j : SubmissionJob F) (w : World S F)
      → phase w.log ≡ idle
      → ends (resolve_and_run fl env j w).0 (phase (resolve_and_run fl env j w).1.log) ≡ true
  unfolding resolve_and_run
  resolve_and_run-phase j w h =
      let (host, os) = env.host w.os in
      elim (Result-cases (get env.table j.language)) [
        | inl (lang, e) ↦
            rw (e, resolve_and_run)
              (select_and_run-phase j lang (select_sandbox host j.sandbox_type)
                (record w { os = os }) h)
        | inr (m, e) ↦
            rw (e, resolve_and_run)
              (fail_submission-phase j.submission_id j.language (length (cases_of j)) system_error m
                none w (ground (arith, h)))
      ]

  -- A job whose submission has published nothing runs through the protocol to its end, whatever the
  -- sandbox does, panics included: its events are COMPILING if at all first, RUNNING, for each case
  -- its start and its outcome, and as the last event and the only final one COMPLETED or FAILED.
  pub process_job-phase :
      (j : SubmissionJob F) (w : World S F)
      → phase w.log ≡ idle
      → phase (process_job fl env (some j) w).1.log ≡ finished
  unfolding process_job phase advance
  process_job-phase j w h = ground (arith, resolve_and_run-phase j w h)
