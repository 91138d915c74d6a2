-- ===== src/Worker/OnHost.antt =====
-- What a job of pkg/worker/worker.go does to the host: an invariant of the host's state, and another one
-- between `Prepare` and `Cleanup`.
pub mod Whole
use remote_runtime_engine.Base.{
  ℕ, suc, ◌≡◌, Option, none, some, List, [], ◌∷◌, Text, Float, Result, ok, err, Result-cases,
  Option-cases, inl, inr, length,
}
use remote_runtime_engine.Models.{
  Verdict, CompilationResult, ExecutionResult, time_limit_exceeded, memory_limit_exceeded,
  system_error,
}
use remote_runtime_engine.Models.Request.{ExecutionRequest, normalize}
use remote_runtime_engine.Languages.{LanguageHandler, cpp, python, needs_compilation, get}
use remote_runtime_engine.Sandbox.Select.{backend_name, SandboxContext, Backend, select_sandbox}
use remote_runtime_engine.Queue.{TestCase, SubmissionJob}
use remote_runtime_engine.Events.{ExecutionEvent}
use remote_runtime_engine.Store.{SubmissionState}
use remote_runtime_engine.Worker.{
  World, Job, Env, Step, ret, panic, Compiled, Effect, publishes, records, opens, prepares, ◌>>=◌,
  pure, emit, on_host, guarded, continue,
}
use remote_runtime_engine.Worker.Case.{
  Progress, publish_now, start_event, or_system_error, execute_case, run_case, run_cases,
  case_event, case_context, score,
}
use remote_runtime_engine.Worker.Evaluate.{
  save, fail_submission, complete, audit, final_state, final_event, start_evaluation, evaluate,
  compile_failure, cases_of, start_progress, request_of,
}
use remote_runtime_engine.Worker.Process.{
  after_compile, compile_job, compile_and_evaluate, with_cleanup, after_prepare, prepare_job,
  prepare_and_run, select_and_run, resolve_and_run, recover, process_job,
}

-- `m` keeps `P` of the host, whether it returns or panics.
record Holds {S F A : Type 0} (P : S → Type 0) (m : Job S F A) : Type 0 where
  at : (w : World S F) → P w.os → P (m w).1.os

module _ {S F A B : Type 0} {P : S → Type 0} where
  continue-holds :
      (r : Step A) (f : A → Job S F B) (w : World S F)
      → ((a : A) → Holds P (f a))
      → P w.os
      → P (continue r f w).1.os
  continue-holds (ret a) f w kf h = (kf a).at w h
  continue-holds (panic m) f w kf h = h

  Holds-bind :
      (m : Job S F A) (f : A → Job S F B)
      → Holds P m
      → ((a : A) → Holds P (f a))
      → Holds P (m >>= f)
  Holds-bind m f km kf = record {
    at = λ w h. let (r, w') = m w in continue-holds r f w' kf (km.at w h);
  }

module _ {S F : Type 0} {P : S → Type 0} where
  Holds-emit : (e : Effect F) → Holds P (emit e)
  Holds-emit e = record { at = λ w h. h }

  Holds-on_host :
      {A : Type 0} (f : S → A × S) → ((s : S) → P s → P (f s).1) → Holds {F = F} P (on_host f)
  Holds-on_host f k = record { at = λ w h. k w.os h }

module _ {S F : Type 0} (fl : Float F) (env : Env S F) (j : SubmissionJob F) (P : S → Type 0)
    (now : (s : S) → P s → P (env.now s).1) where
  Holds-fail_submission :
      (v : Verdict) (details : Text) (comp : Option (CompilationResult F))
      → Holds P
          (fail_submission fl env j.submission_id j.language (length (cases_of j)) v details comp)
  unfolding fail_submission save
  Holds-fail_submission v details comp = record { at = λ w h. now _ (now w.os h) }

  Holds-publish_now : (e : ExecutionEvent F) → Holds P (publish_now fl env j.submission_id e)
  unfolding publish_now
  Holds-publish_now e = record { at = λ w h. now w.os h }

  Holds-save : (s : SubmissionState F) → Holds P (save fl env s)
  unfolding save
  Holds-save s = record { at = λ w h. now w.os h }

  Holds-audit : (b : Backend) (p : Progress F) (v : Verdict) → Holds P (audit fl env j b p v)
  unfolding audit
  Holds-audit b p memory_limit_exceeded = record { at = λ w h. h }
  Holds-audit b p time_limit_exceeded = record { at = λ w h. h }
  Holds-audit b p _ = record { at = λ w h. h }

  Holds-complete :
      (b : Backend) (comp : Option (CompilationResult F)) (p : Progress F)
      → Holds P (complete fl env j (length (cases_of j)) b comp p)
  unfolding complete
  Holds-complete b comp p = Holds-bind _ _ (Holds-on_host env.now now) (λ t.
      Holds-bind (save fl env (final_state fl env j (length (cases_of j)) comp p t)) _
        (Holds-save (final_state fl env j (length (cases_of j)) comp p t))
        (λ _.
          Holds-bind (emit (records j.language p.verdict (backend_name b) p.wall p.cpu p.peak)) _
            (Holds-emit (records j.language p.verdict (backend_name b) p.wall p.cpu p.peak))
            (λ _. Holds-bind (audit fl env j b p p.verdict) _ (Holds-audit b p p.verdict) (λ _.
              Holds-emit (
                publishes j.submission_id (final_event fl env j (length (cases_of j)) comp p t))))))

  module _ (b : Backend)
      (execute : (c : SandboxContext F) (s : S) → P s → P ((env.sandbox b).execute c s).1) where
    Holds-or_system_error :
        (r : Result Text (ExecutionResult F)) → Holds P (or_system_error fl env j.submission_id b r)
    unfolding or_system_error
    Holds-or_system_error (ok r) = record { at = λ w h. h }
    Holds-or_system_error (err e) = record { at = λ w h. now w.os h }

    Holds-run_case :
        (c : SandboxContext F) (tc : TestCase) (p : Progress F)
        → Holds P (run_case fl env j.submission_id (length (cases_of j)) b c tc p)
    unfolding run_case execute_case
    Holds-run_case c tc p =
        let total = length (cases_of j) in
        Holds-bind
          (publish_now fl env j.submission_id
            (start_event fl env j.submission_id total (suc p.index)))
          _ (Holds-publish_now (start_event fl env j.submission_id total (suc p.index)))
          (λ _.
            Holds-bind (execute_case fl env j.submission_id b (case_context fl env c tc)) _
              (Holds-bind (guarded ((env.sandbox b).execute (case_context fl env c tc))) _
                (record { at = λ w h. execute (case_context fl env c tc) w.os h })
                Holds-or_system_error)
              (λ r.
                Holds-bind
                  (publish_now fl env j.submission_id
                    (case_event fl env j.submission_id total (suc p.index) tc r))
                  _ (Holds-publish_now (case_event fl env j.submission_id total (suc p.index) tc r))
                  (λ _. record { at = λ w h. h })))

    Holds-run_cases :
        (c : SandboxContext F) (tcs : List TestCase) (p : Progress F)
        → Holds P (run_cases fl env j.submission_id (length (cases_of j)) b c tcs p)
    unfolding run_cases
    Holds-run_cases c [] p = record { at = λ w h. h }
    Holds-run_cases c (tc ∷ tcs) p =
        Holds-bind (run_case fl env j.submission_id (length (cases_of j)) b c tc p) _
          (Holds-run_case c tc p) (Holds-run_cases c tcs)

    Holds-evaluate :
        (c : SandboxContext F) (comp : Option (CompilationResult F))
        → Holds P (evaluate fl env j b c comp)
    unfolding evaluate start_evaluation publish_now save
    Holds-evaluate c comp =
        Holds-bind (start_evaluation fl env j (length (cases_of j)) comp) _
          (record { at = λ w h. now _ (now w.os h) })
          (λ _.
            Holds-bind
              (run_cases fl env j.submission_id (length (cases_of j)) b c (cases_of j)
                (start_progress fl))
              _ (Holds-run_cases c (cases_of j) (start_progress fl)) (Holds-complete b comp))

    Holds-after_compile :
        (c : SandboxContext F) (r : Compiled F) → Holds P (after_compile fl env j b c r)
    unfolding after_compile
    Holds-after_compile c r = elim (Option-cases (compile_failure r)) [
      | inl e ↦ rw (e, after_compile) (Holds-evaluate c r.result)
      | inr (details, e) ↦ rw (e, after_compile) (Holds-fail_submission _ details r.result)
    ]

    Holds-compile_and_evaluate :
        (lang : LanguageHandler) (c : SandboxContext F)
        → ((s : S) → P s → P ((env.sandbox b).compile c s).1)
        → Holds P (compile_and_evaluate fl env j lang b c)
    unfolding compile_and_evaluate needs_compilation compile_job publish_now
    Holds-compile_and_evaluate cpp c compile =
        Holds-bind (compile_job fl env j b c) _ (record { at = λ w h. compile _ (now w.os h) })
          (Holds-after_compile c)
    Holds-compile_and_evaluate python c compile = Holds-evaluate c none
