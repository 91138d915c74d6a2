-- ===== src/Engine.antt =====
-- pkg/engine/engine.go: one request through the whole pipeline, without a queue. The state and the
-- log of effects are those of a worker; no panic is recovered here.
pub mod Answers
pub mod Honest
use remote_runtime_engine.Base.{
  ℕ, Option, none, some, List, [], ◌∷◌, ◌++◌, Text, codes, Float, Result, ok, err, if◌then◌else◌,
}
use remote_runtime_engine.Models.{
  Verdict, CompilationResult, ExecutionResult, zero_result, compilation_error, system_error,
}
use remote_runtime_engine.Models.Request.{ExecutionRequest, normalize, is_empty}
use remote_runtime_engine.Languages.{LanguageHandler, get, needs_compilation}
use remote_runtime_engine.Sandbox.Select.{
  SandboxContext, Backend, Host, select_sandbox, backend_name,
}
use remote_runtime_engine.Worker.{
  Job, Env, panic, Compiled, ◌>>=◌, ◌>>◌, pure, emit, on_host, guarded, prepares, opens, cleans,
}

-- What `Run` returns.
abbrev pub Answer : Type 0 → Type 0
Answer F = Result Text (ExecutionResult F)

-- The backend of the request, or else the engine's own where it has one.
unfoldable pub choose : Text → Text → Host → Result Text Backend
choose own asked h = elim (select_sandbox h asked) [
  | ok b ↦ ok b
  | err e ↦ if is_empty own then err e else select_sandbox h own
]

module _ {S F : Type 0} (fl : Float F) (env : Env S F) (own : Text) where
  -- A result that `Run` builds itself.
  unfoldable pub answer : ExecutionResult F → Job S F (Answer F)
  answer r = do now ← on_host env.now; pure (ok (record r { executed_at = now }))

  unfoldable pub system_failure : ExecutionRequest F → Text → Text → Job S F (Answer F)
  unfolding answer
  system_failure r details backend = answer (record (zero_result fl system_error) {
    id = r.id;
    error_details = details;
    sandbox_backend = backend;
  })

  -- Phase 5.
  unfoldable pub after_execute : ExecutionRequest F → Backend → Answer F → Job S F (Answer F)
  unfolding system_failure
  after_execute r b (ok res) = pure (ok res)
  after_execute r b (err e) = system_failure r (codes "execution failed: " ++ e) (backend_name b)

  unfoldable pub execute_phase :
      ExecutionRequest F → Backend → SandboxContext F → Job S F (Answer F)
  execute_phase r b c = do res ← guarded ((env.sandbox b).execute c); after_execute r b res

  -- The result for a program that does not compile.
  abbrev pub rejected : ExecutionRequest F → Backend → CompilationResult F → ExecutionResult F
  rejected r b k = record (zero_result fl compilation_error) {
    id = r.id;
    exit_code = k.exit_code;
    stdout = k.stdout;
    stderr = k.stderr;
    compilation = some k;
    sandbox_backend = backend_name b;
  }

  -- The result for a compiler that cannot be run.
  abbrev pub uncompiled :
      ExecutionRequest F → Backend → Option (CompilationResult F) → Text → ExecutionResult F
  uncompiled r b k e = record (zero_result fl compilation_error) {
    id = r.id;
    compilation = k;
    error_details = codes "compilation execution error: " ++ e;
    sandbox_backend = backend_name b;
  }

  -- What follows `Compile`. Where it returns neither a result nor an error, the read of `Success`
  -- dereferences nil.
  unfoldable pub after_compile :
      ExecutionRequest F → Backend → SandboxContext F → Compiled F → Job S F (Answer F)
  unfolding answer
  after_compile r b c comp = elim comp.error [
    | some e ↦ answer (uncompiled r b comp.result e)
    | none ↦ elim comp.result [
      | none ↦ (λ w. (panic (codes "nil pointer dereference"), w))
      | some k ↦ if k.success then execute_phase r b c else answer (rejected r b k)
    ]
  ]

  -- Phases 4 and 5.
  unfoldable pub compile_and_execute :
      ExecutionRequest F → LanguageHandler → Backend → SandboxContext F → Job S F (Answer F)
  compile_and_execute r lang b c =
      if needs_compilation lang
      then (do k ← guarded ((env.sandbox b).compile c); after_compile r b c k)
      else execute_phase r b c

  -- `defer sb.Cleanup(sCtx)`.
  unfoldable pub with_cleanup : Backend → SandboxContext F → Job S F (Answer F) → Job S F (Answer F)
  with_cleanup b c m w =
      let (r, w') = m w in
      (r, record w' { os = (env.sandbox b).cleanup c w'.os; log = cleans c ∷ w'.log })

  -- What follows `Prepare`.
  unfoldable pub after_prepare :
      ExecutionRequest F
      → LanguageHandler
      → Backend
      → Result Text (SandboxContext F)
      → Job S F (Answer F)
  unfolding with_cleanup system_failure
  after_prepare r lang b (err e) =
      system_failure r (codes "failed to prepare sandbox: " ++ e) (backend_name b)
  after_prepare r lang b (ok c) = do
    emit (opens c)
    with_cleanup b c (compile_and_execute r lang b c)

  -- Phase 3, and what follows it.
  unfoldable pub prepare_and_execute :
      ExecutionRequest F → LanguageHandler → Result Text Backend → Job S F (Answer F)
  unfolding system_failure
  prepare_and_execute r lang (err e) = system_failure r (codes "failed to select sandbox: " ++ e) []
  prepare_and_execute r lang (ok b) = do
    emit (prepares r)
    c ← guarded ((env.sandbox b).prepare r lang)
    after_prepare r lang b c

  -- Phases 1 and 2, and what follows them, for a normalized request.
  unfoldable pub resolve_and_execute :
      ExecutionRequest F → Result Text LanguageHandler → Job S F (Answer F)
  unfolding system_failure choose
  resolve_and_execute r (err e) = system_failure r e []
  resolve_and_execute r (ok lang) = do
    h ← on_host env.host
    prepare_and_execute r lang (choose own r.sandbox_type h)

  -- `Run`.
  unfoldable pub run : Option (ExecutionRequest F) → Job S F (Answer F)
  run none = pure (err (codes "execution request cannot be nil"))
  run (some r) = do
    e ← on_host env.entropy
    let r' = normalize fl env.table e r
    resolve_and_execute r' (get env.table r'.language)
