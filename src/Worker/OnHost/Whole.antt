-- ===== src/Worker/OnHost/Whole.antt =====
-- An invariant of the host over a whole job of pkg/worker/worker.go.
use remote_runtime_engine.Base.{
  none, some, ◌∷◌, Text, Float, Result, ok, err, Result-cases, inl, inr,
}
use remote_runtime_engine.Models.{system_error}
use remote_runtime_engine.Models.Request.{ExecutionRequest, normalize}
use remote_runtime_engine.Languages.{LanguageHandler, get}
use remote_runtime_engine.Sandbox.Select.{SandboxContext, Backend, select_sandbox}
use remote_runtime_engine.Queue.{SubmissionJob}
use remote_runtime_engine.Worker.{World, Env, Step, ret, panic, opens, prepares, continue}
use remote_runtime_engine.Worker.Case.{publish_now}
use remote_runtime_engine.Worker.Evaluate.{save, request_of}
use remote_runtime_engine.Worker.Process.{
  with_cleanup, after_prepare, prepare_job, prepare_and_run, select_and_run, resolve_and_run,
  recover, process_job,
}
use remote_runtime_engine.Worker.OnHost.{
  Holds-bind, Holds-compile_and_evaluate, Holds-fail_submission, Holds-on_host, Holds,
}

-- What is left of a call of `Prepare`: an error or a panic leaves `R`, a context what belongs to it.
abbrev pub AfterPrepare :
    {S F : Type 0}
    → (S → Type 0)
    → (SandboxContext F → S → Type 0)
    → Step (Result Text (SandboxContext F)) × S
    → Type 0
AfterPrepare R P (ret (ok c), s) = P c s
AfterPrepare R P (ret (err e), s) = R s
AfterPrepare R P (panic m, s) = R s

-- The environment of a worker keeps `R` outside of a sandbox, and `P b c` while the sandbox of the
-- backend b with the context c is open.
pub record IsHome {S F : Type 0} (env : Env S F) (R : S → Type 0)
    (P : Backend → SandboxContext F → S → Type 0) : Type 0 where
  pub host : (s : S) → R s → R (env.host s).1
  pub entropy : (s : S) → R s → R (env.entropy s).1
  pub now : (s : S) → R s → R (env.now s).1
  pub prepare :
      (b : Backend) (r : ExecutionRequest F) (lang : LanguageHandler) (s : S)
      → R s
      → AfterPrepare R (P b) ((env.sandbox b).prepare r lang s)
  pub inside_now : (b : Backend) (c : SandboxContext F) (s : S) → P b c s → P b c (env.now s).1
  pub compile :
      (b : Backend) (c : SandboxContext F) (s : S) → P b c s → P b c ((env.sandbox b).compile c s).1
  pub execute :
      (b : Backend) (c c' : SandboxContext F) (s : S)
      → P b c s
      → P b c ((env.sandbox b).execute c' s).1
  pub cleanup :
      (b : Backend) (c : SandboxContext F) (s : S) → P b c s → R ((env.sandbox b).cleanup c s)

module _ {S F : Type 0} (fl : Float F) (env : Env S F) (j : SubmissionJob F) (R : S → Type 0)
    (P : Backend → SandboxContext F → S → Type 0) (home : IsHome env R P) where
  after_prepare-home :
      (lang : LanguageHandler) (b : Backend) (r : Step (Result Text (SandboxContext F)))
      (w : World S F)
      → AfterPrepare R (P b) (r, w.os)
      → R (continue r (after_prepare fl env j lang b) w).1.os
  unfolding after_prepare with_cleanup
  after_prepare-home lang b (panic m) w h = h
  after_prepare-home lang b (ret (err e)) w h =
      (Holds-fail_submission fl env j R home.now system_error _ none).at w h
  after_prepare-home lang b (ret (ok c)) w h = home.cleanup b c _ (
      (Holds-compile_and_evaluate fl env j (P b c) (home.inside_now b c) b (home.execute b c) lang c
          (home.compile b c)).at
        (record w { log = opens c ∷ w.log }) h)

  Holds-select_and_run :
      (lang : LanguageHandler) (r : Result Text Backend) → Holds R (select_and_run fl env j lang r)
  unfolding select_and_run prepare_and_run prepare_job
  Holds-select_and_run lang (err e) = Holds-fail_submission fl env j R home.now system_error e none
  Holds-select_and_run lang (ok b) = record {
    at = λ w h.
        let (e, os) = env.entropy w.os in
        let req = normalize fl env.table e (request_of j) in
        let (c, os') = (env.sandbox b).prepare req lang os in
        after_prepare-home lang b c (record w { os = os'; log = prepares req ∷ w.log })
          (home.prepare b req lang os (home.entropy w.os h));
  }

  Holds-resolve_and_run : Holds R (resolve_and_run fl env j)
  unfolding resolve_and_run
  Holds-resolve_and_run = elim (Result-cases (get env.table j.language)) [
    | inl (lang, e) ↦
        rw (e, resolve_and_run)
          (Holds-bind _ _ (Holds-on_host env.host home.host)
            (λ h. Holds-select_and_run lang (select_sandbox h j.sandbox_type)))
    | inr (m, e) ↦
        rw (e, resolve_and_run) (Holds-fail_submission fl env j R home.now system_error m none)
  ]

  Holds-recover : (r : Step (Unit {0})) → Holds R (recover fl env j r)
  unfolding recover save publish_now
  Holds-recover (ret a) = record { at = λ w h. h }
  Holds-recover (panic m) = record { at = λ w h. home.now _ (home.now w.os h) }

  -- A job keeps what its environment keeps, whether its sandbox panics or not.
  pub process_job-home : (w : World S F) → R w.os → R (process_job fl env (some j) w).1.os
  unfolding process_job
  process_job-home w h =
      let (r, w') = resolve_and_run fl env j w in
      (Holds-recover r).at w' (Holds-resolve_and_run.at w h)
