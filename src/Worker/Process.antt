-- ===== src/Worker/Process.antt =====
-- pkg/worker/worker.go: `ProcessJob`, its phases up to the evaluation and its deferred calls.
use remote_runtime_engine.Base.{
  Option, none, some, ◌∷◌, ◌++◌, Text, codes, Float, Result, ok, err, length, if◌then◌else◌,
}
use remote_runtime_engine.Models.{compilation_error, system_error}
use remote_runtime_engine.Models.Request.{normalize}
use remote_runtime_engine.Languages.{LanguageHandler, get, needs_compilation}
use remote_runtime_engine.Sandbox.Select.{SandboxContext, Backend, select_sandbox}
use remote_runtime_engine.Queue.{SubmissionJob}
use remote_runtime_engine.Events.{plain_event, compiling, failed}
use remote_runtime_engine.Store.{plain_state}
use remote_runtime_engine.Worker.{
  Job, Env, Step, ret, panic, Compiled, ◌>>=◌, ◌>>◌, pure, emit, on_host, guarded, prepares, opens,
  cleans,
}
use remote_runtime_engine.Worker.Case.{publish_now}
use remote_runtime_engine.Worker.Evaluate.{
  cases_of, request_of, compile_failure, save, fail_submission, evaluate,
}

module _ {S F : Type 0} (fl : Float F) (env : Env S F) where
  -- What follows a compilation.
  unfoldable pub after_compile :
      SubmissionJob F → Backend → SandboxContext F → Compiled F → Job S F (Unit {0})
  unfolding cases_of compile_failure
  after_compile j b c r = elim (compile_failure r) [
    | some details ↦
        fail_submission fl env j.submission_id j.language (length (cases_of j)) compilation_error
          details r.result
    | none ↦ evaluate fl env j b c r.result
  ]

  -- Phase 4.
  unfoldable pub compile_job : SubmissionJob F → Backend → SandboxContext F → Job S F (Compiled F)
  unfolding publish_now
  compile_job j b c = do
    publish_now fl env j.submission_id (plain_event fl j.submission_id compiling)
    guarded ((env.sandbox b).compile c)

  -- Phase 4 where the language needs it, and what follows it.
  unfoldable pub compile_and_evaluate :
      SubmissionJob F → LanguageHandler → Backend → SandboxContext F → Job S F (Unit {0})
  compile_and_evaluate j lang b c =
      if needs_compilation lang
      then (do r ← compile_job j b c; after_compile j b c r)
      else evaluate fl env j b c none

  -- `defer sb.Cleanup(sCtx)`: also when the body panics. `Cleanup` reads nothing of the request,
  -- which the loop over the test cases writes to.
  unfoldable pub with_cleanup : Backend → SandboxContext F → Job S F (Unit {0}) → Job S F (Unit {0})
  with_cleanup b c m w =
      let (r, w') = m w in
      (r, record w' { os = (env.sandbox b).cleanup c w'.os; log = cleans c ∷ w'.log })

  -- What follows `Prepare`.
  unfoldable pub after_prepare :
      SubmissionJob F
      → LanguageHandler
      → Backend
      → Result Text (SandboxContext F)
      → Job S F (Unit {0})
  unfolding with_cleanup
  after_prepare j lang b (err e) =
      fail_submission fl env j.submission_id j.language (length (cases_of j)) system_error
        (codes "sandbox prepare failed: " ++ e) none
  after_prepare j lang b (ok c) = do
    emit (opens c)
    with_cleanup b c (compile_and_evaluate j lang b c)

  -- Phase 3.
  unfoldable pub prepare_job :
      SubmissionJob F → LanguageHandler → Backend → Job S F (Result Text (SandboxContext F))
  unfolding request_of
  prepare_job j lang b = do
    e ← on_host env.entropy
    let req = normalize fl env.table e (request_of j)
    emit (prepares req)
    guarded ((env.sandbox b).prepare req lang)

  -- Phase 3, and what follows it.
  unfoldable pub prepare_and_run : SubmissionJob F → LanguageHandler → Backend → Job S F (Unit {0})
  prepare_and_run j lang b = do r ← prepare_job j lang b; after_prepare j lang b r

  -- Phase 2, and what follows it.
  unfoldable pub select_and_run :
      SubmissionJob F → LanguageHandler → Result Text Backend → Job S F (Unit {0})
  select_and_run j lang (err e) =
      fail_submission fl env j.submission_id j.language (length (cases_of j)) system_error e none
  select_and_run j lang (ok b) = prepare_and_run j lang b

  -- Phases 1 and 2, and what follows them.
  unfoldable pub resolve_and_run : SubmissionJob F → Job S F (Unit {0})
  resolve_and_run j = elim (get env.table j.language) [
    | err e ↦
        fail_submission fl env j.submission_id j.language (length (cases_of j)) system_error e none
    | ok lang ↦ (do h ← on_host env.host; select_and_run j lang (select_sandbox h j.sandbox_type))
  ]

  -- The deferred `recover`.
  unfoldable pub recover : SubmissionJob F → Step (Unit {0}) → Job S F (Result Text (Unit {0}))
  unfolding save publish_now cases_of
  recover j (ret a) = pure (ok tt)
  recover j (panic m) = do
    let details = codes "panic recovered in worker: " ++ (m ++ (codes "\n" ++ env.stack m))
    save fl env (record (plain_state fl j.submission_id failed system_error j.language) {
      total_test_cases = length (cases_of j);
      error_details = details;
    })
    publish_now fl env j.submission_id (record (plain_event fl j.submission_id failed) {
      verdict = some system_error;
      error_details = details;
    })
    pure (err (codes "worker panic: " ++ m))

  -- `ProcessJob`; nothing happens for a nil job.
  unfoldable pub process_job : Option (SubmissionJob F) → Job S F (Result Text (Unit {0}))
  unfolding recover
  process_job none w = (ret (ok tt), w)
  process_job (some j) w = let (r, w') = resolve_and_run j w in recover j r w'
