-- ===== src/Worker/Keeps.antt =====
-- Invariants of the log of pkg/worker/worker.go: one rule for each way to build a part of a job, and
-- the parts between `Prepare` and `Cleanup`.
use remote_runtime_engine.Base.{
  ℕ, suc, ◌≡◌, refl, Option, none, List, [], ◌∷◌, Text, Float, Result, ok, err, Option-cases, inl,
  inr, length, arith,
}
use remote_runtime_engine.Models.{
  Verdict, CompilationResult, ExecutionResult, time_limit_exceeded, memory_limit_exceeded,
  compilation_error,
}
use remote_runtime_engine.Models.Bounds.{IsBounded}
use remote_runtime_engine.Languages.{LanguageHandler, cpp, python, needs_compilation}
use remote_runtime_engine.Sandbox.Select.{SandboxContext, Backend, backend_name}
use remote_runtime_engine.Queue.{TestCase, SubmissionJob}
use remote_runtime_engine.Events.{ExecutionEvent}
use remote_runtime_engine.Store.{SubmissionState}
use remote_runtime_engine.Worker.{
  World, Job, Env, Step, ret, panic, Compiled, Effect, ◌>>=◌, pure, emit, on_host, guarded,
  publishes, saves, prepares, opens, cleans, continue, records,
}
use remote_runtime_engine.Worker.Case.{
  Progress, publish_now, start_event, or_system_error, execute_case, run_case, run_cases,
  case_event, case_context, score,
}
use remote_runtime_engine.Worker.Evaluate.{
  save, fail_submission, complete, audit, final_state, final_event, start_evaluation, evaluate,
  compile_failure, cases_of, start_progress,
}
use remote_runtime_engine.Worker.Process.{after_compile, compile_job, compile_and_evaluate}

-- `m` keeps `P`, whether it returns or panics.
pub record Keeps {S F A : Type 0} (P : List (Effect F) → Type 0) (m : Job S F A) : Type 0 where
  pub at : (w : World S F) → P w.log → P (m w).1.log

module _ {S F A : Type 0} {P : List (Effect F) → Type 0} where
  pub Keeps-pure : (a : A) → Keeps {S = S} P (pure a)
  Keeps-pure a = record { at = λ w h. h }

  pub Keeps-on_host : (f : S → A × S) → Keeps P (on_host f)
  Keeps-on_host f = record { at = λ w h. h }

  pub Keeps-guarded : (f : S → Step A × S) → Keeps P (guarded f)
  Keeps-guarded f = record { at = λ w h. h }

module _ {S F : Type 0} {P : List (Effect F) → Type 0} where
  pub Keeps-emit :
      (e : Effect F) → ((l : List (Effect F)) → P l → P (e ∷ l)) → Keeps {S = S} P (emit e)
  Keeps-emit e h = record { at = λ w k. h w.log k }

module _ {S F A B : Type 0} {P : List (Effect F) → Type 0} where
  continue-keeps :
      (r : Step A) (f : A → Job S F B) (w : World S F)
      → ((a : A) → Keeps P (f a))
      → P w.log
      → P (continue r f w).1.log
  continue-keeps (ret a) f w kf h = (kf a).at w h
  continue-keeps (panic m) f w kf h = h

  pub Keeps-bind :
      (m : Job S F A) (f : A → Job S F B)
      → Keeps P m
      → ((a : A) → Keeps P (f a))
      → Keeps P (m >>= f)
  Keeps-bind m f km kf = record {
    at = λ w h. let (r, w') = m w in continue-keeps r f w' kf (km.at w h);
  }

-- What a job may do besides opening and cleaning up a sandbox: it publishes and saves under its own
-- submission, and prepares within the limits.
abbrev pub Allowed : {F : Type 0} → SubmissionJob F → Effect F → Type 0
Allowed j (publishes id e) = (id ≡ j.submission_id) × (e.submission_id ≡ j.submission_id)
Allowed j (saves s) = s.submission_id ≡ j.submission_id
Allowed j (prepares r) = IsBounded r
Allowed j (opens c) = ⊥
Allowed j (cleans c) = ⊥
Allowed j _ = Unit {0}

module _ {S F : Type 0} (fl : Float F) (env : Env S F) (j : SubmissionJob F)
    (P : List (Effect F) → Type 0)
    (push : (e : Effect F) (l : List (Effect F)) → Allowed j e → P l → P (e ∷ l)) where
  pub Keeps-Allowed : (e : Effect F) → Allowed j e → Keeps {S = S} P (emit e)
  Keeps-Allowed e a = Keeps-emit e (λ l. push e l a)

  pub Keeps-publish_now :
      (e : ExecutionEvent F)
      → e.submission_id ≡ j.submission_id
      → Keeps P (publish_now fl env j.submission_id e)
  unfolding publish_now
  Keeps-publish_now e h =
      Keeps-bind _ _ (Keeps-on_host env.now)
        (λ t. Keeps-Allowed (publishes j.submission_id (record e { timestamp = t })) (refl, h))

  pub Keeps-save :
      (s : SubmissionState F) → s.submission_id ≡ j.submission_id → Keeps P (save fl env s)
  unfolding save
  Keeps-save s h =
      Keeps-bind _ _ (Keeps-on_host env.now)
        (λ t. Keeps-Allowed (saves (record s { updated_at = t })) h)

  Keeps-or_system_error :
      (b : Backend) (r : Result Text (ExecutionResult F))
      → Keeps P (or_system_error fl env j.submission_id b r)
  unfolding or_system_error
  Keeps-or_system_error b (ok r) = Keeps-pure r
  Keeps-or_system_error b (err e) = record { at = λ w h. h }

  Keeps-execute_case :
      (b : Backend) (c : SandboxContext F) → Keeps P (execute_case fl env j.submission_id b c)
  unfolding execute_case
  Keeps-execute_case b c =
      Keeps-bind _ _ (Keeps-guarded ((env.sandbox b).execute c)) (Keeps-or_system_error b)

  case_event-submission :
      (total i : ℕ) (tc : TestCase) (r : ExecutionResult F)
      → (case_event fl env j.submission_id total i tc r).submission_id ≡ j.submission_id
  unfolding case_event
  case_event-submission total i tc r = ground arith

  start_event-submission :
      (total i : ℕ) → (start_event fl env j.submission_id total i).submission_id ≡ j.submission_id
  unfolding start_event
  start_event-submission total i = refl

  Keeps-run_case :
      (total : ℕ) (b : Backend) (c : SandboxContext F) (tc : TestCase) (p : Progress F)
      → Keeps P (run_case fl env j.submission_id total b c tc p)
  unfolding run_case
  Keeps-run_case total b c tc p =
      let started = start_event fl env j.submission_id total (suc p.index) in
      Keeps-bind (publish_now fl env j.submission_id started) _
        (Keeps-publish_now started (start_event-submission total (suc p.index)))
        (λ _.
          Keeps-bind (execute_case fl env j.submission_id b (case_context fl env c tc)) _
            (Keeps-execute_case b (case_context fl env c tc))
            (λ r.
              Keeps-bind
                (publish_now fl env j.submission_id
                  (case_event fl env j.submission_id total (suc p.index) tc r))
                _
                (Keeps-publish_now (case_event fl env j.submission_id total (suc p.index) tc r)
                  (case_event-submission total (suc p.index) tc r))
                (λ _. Keeps-pure (score fl p tc r))))

  Keeps-run_cases :
      (total : ℕ) (b : Backend) (c : SandboxContext F) (tcs : List TestCase) (p : Progress F)
      → Keeps P (run_cases fl env j.submission_id total b c tcs p)
  unfolding run_cases
  Keeps-run_cases total b c [] p = Keeps-pure p
  Keeps-run_cases total b c (tc ∷ tcs) p =
      Keeps-bind (run_case fl env j.submission_id total b c tc p) _ (Keeps-run_case total b c tc p)
        (Keeps-run_cases total b c tcs)

  pub Keeps-fail_submission :
      (total : ℕ) (v : Verdict) (details : Text) (comp : Option (CompilationResult F))
      → Keeps P (fail_submission fl env j.submission_id j.language total v details comp)
  unfolding fail_submission
  Keeps-fail_submission total v details comp = record {
    at = λ w h. push _ _ (refl, refl) (push _ _ tt (push _ _ tt (push _ _ refl h)));
  }

  Keeps-audit : (b : Backend) (p : Progress F) (v : Verdict) → Keeps P (audit fl env j b p v)
  unfolding audit
  Keeps-audit b p memory_limit_exceeded = record { at = λ w h. push _ _ tt (push _ _ tt h) }
  Keeps-audit b p time_limit_exceeded = record { at = λ w h. push _ _ tt (push _ _ tt h) }
  Keeps-audit b p _ = Keeps-pure tt

  final_state-submission :
      (total : ℕ) (comp : Option (CompilationResult F)) (p : Progress F) (now : ℕ)
      → (final_state fl env j total comp p now).submission_id ≡ j.submission_id
  unfolding final_state
  final_state-submission total comp p now = refl

  Keeps-complete :
      (total : ℕ) (b : Backend) (comp : Option (CompilationResult F)) (p : Progress F)
      → Keeps P (complete fl env j total b comp p)
  unfolding complete
  Keeps-complete total b comp p = Keeps-bind _ _ (Keeps-on_host env.now) (λ now.
      Keeps-bind (save fl env (final_state fl env j total comp p now)) _
        (Keeps-save (final_state fl env j total comp p now) refl)
        (λ _.
          Keeps-bind (emit (records j.language p.verdict (backend_name b) p.wall p.cpu p.peak)) _
            (Keeps-Allowed (records j.language p.verdict (backend_name b) p.wall p.cpu p.peak) tt)
            (λ _. Keeps-bind (audit fl env j b p p.verdict) _ (Keeps-audit b p p.verdict) (λ _.
              Keeps-Allowed (publishes j.submission_id (final_event fl env j total comp p now))
                (refl, refl)))))

  Keeps-start_evaluation :
      (total : ℕ) (comp : Option (CompilationResult F))
      → Keeps P (start_evaluation fl env j total comp)
  unfolding start_evaluation
  Keeps-start_evaluation total comp = record { at = λ w h. push _ _ refl (push _ _ (refl, refl) h) }

  Keeps-evaluate :
      (b : Backend) (c : SandboxContext F) (comp : Option (CompilationResult F))
      → Keeps P (evaluate fl env j b c comp)
  unfolding evaluate
  Keeps-evaluate b c comp =
      let total = length (cases_of j) in
      Keeps-bind (start_evaluation fl env j total comp) _ (Keeps-start_evaluation total comp) (λ _.
        Keeps-bind (run_cases fl env j.submission_id total b c (cases_of j) (start_progress fl)) _
          (Keeps-run_cases total b c (cases_of j) (start_progress fl))
          (Keeps-complete total b comp))

  Keeps-after_compile :
      (b : Backend) (c : SandboxContext F) (r : Compiled F) → Keeps P (after_compile fl env j b c r)
  unfolding after_compile
  Keeps-after_compile b c r = elim (Option-cases (compile_failure r)) [
    | inl e ↦ rw (e, after_compile) (Keeps-evaluate b c r.result)
    | inr (details, e) ↦
        rw (e, after_compile)
          (Keeps-fail_submission (length (cases_of j)) compilation_error details r.result)
  ]

  Keeps-compile_job : (b : Backend) (c : SandboxContext F) → Keeps P (compile_job fl env j b c)
  unfolding compile_job
  Keeps-compile_job b c = record { at = λ w h. push _ _ (refl, refl) h }

  -- Everything between `Prepare` and `Cleanup` does only what is allowed.
  pub Keeps-compile_and_evaluate :
      (lang : LanguageHandler) (b : Backend) (c : SandboxContext F)
      → Keeps P (compile_and_evaluate fl env j lang b c)
  unfolding compile_and_evaluate needs_compilation
  Keeps-compile_and_evaluate cpp b c =
      Keeps-bind (compile_job fl env j b c) _ (Keeps-compile_job b c) (Keeps-after_compile b c)
  Keeps-compile_and_evaluate python b c = Keeps-evaluate b c none
