-- ===== src/Cli/Ending.antt =====
-- How a run of cmd/engine/main.go ends.
use remote_runtime_engine.Base.{
  ◌≡◌, refl, some, Text, Float, Result, ok, err, Option-cases, Bool-cases, inl, inr, ◌∷◌, ◌∷◌,
}
use remote_runtime_engine.Models.{ExecutionResult}
use remote_runtime_engine.Models.Request.{ExecutionRequest, normalize}
use remote_runtime_engine.Languages.{LanguageHandler, cpp, python, needs_compilation, get}
use remote_runtime_engine.Sandbox.Select.{SandboxContext, Backend}
use remote_runtime_engine.Worker.{
  World, Env, Job, Step, ret, panic, Compiled, ◌>>=◌, continue, guarded, on_host, emit, opens,
  prepares,
}
use remote_runtime_engine.Engine.{
  Answer, answer, system_failure, after_execute, execute_phase, after_compile, compile_and_execute,
  with_cleanup, after_prepare, prepare_and_execute, resolve_and_execute, choose, run,
}
use remote_runtime_engine.Cli.{
  Flags, Exit, fatal, crashed, request_of_flags, after_run, output, run_request, main,
}

-- An answer is a result, or there is none by a panic.
abbrev Answered : {F : Type 0} → Step (Answer F) → Type 0
Answered (ret (ok res)) = Unit {0}
Answered (ret (err e)) = ⊥
Answered (panic m) = Unit {0}

record Answers {S F : Type 0} (m : Job S F (Answer F)) : Type 0 where
  at : (w : World S F) → Answered (m w).0

module _ {S F A : Type 0} where
  continue-Answered :
      (r : Step A) (f : A → Job S F (Answer F)) (w : World S F)
      → ((a : A) → Answers (f a))
      → Answered (continue r f w).0
  continue-Answered (ret a) f w k = (k a).at w
  continue-Answered (panic m) f w k = tt

  bind-Answers :
      (m : Job S F A) (f : A → Job S F (Answer F)) → ((a : A) → Answers (f a)) → Answers (m >>= f)
  bind-Answers m f k = record { at = λ w. let (r, w') = m w in continue-Answered r f w' k }

module _ {S F : Type 0} (fl : Float F) (env : Env S F) (own : Text) where
  after_execute-Answers :
      (r : ExecutionRequest F) (b : Backend) (a : Answer F)
      → Answers (after_execute fl env own r b a)
  unfolding after_execute system_failure answer
  after_execute-Answers r b (ok res) = record { at = λ w. tt }
  after_execute-Answers r b (err e) = record { at = λ w. tt }

  execute_phase-Answers :
      (r : ExecutionRequest F) (b : Backend) (c : SandboxContext F)
      → Answers (execute_phase fl env own r b c)
  unfolding execute_phase
  execute_phase-Answers r b c =
      bind-Answers (guarded ((env.sandbox b).execute c)) _ (after_execute-Answers r b)

  after_compile-Answers :
      (r : ExecutionRequest F) (b : Backend) (c : SandboxContext F) (k : Compiled F)
      → Answers (after_compile fl env own r b c k)
  unfolding after_compile answer
  after_compile-Answers r b c k = elim (Option-cases k.error) [
    | inr (e, h) ↦ rw (h, after_compile) (record { at = λ w. tt })
    | inl h ↦ elim (Option-cases k.result) [
      | inl h' ↦ rw (h, h', after_compile) (record { at = λ w. tt })
      | inr (res, h') ↦ elim (Bool-cases res.success) [
        | inl s ↦ rw (h, h', s, after_compile) (execute_phase-Answers r b c)
        | inr s ↦ rw (h, h', s, after_compile) (record { at = λ w. tt })
      ]
    ]
  ]

  compile_and_execute-Answers :
      (r : ExecutionRequest F) (lang : LanguageHandler) (b : Backend) (c : SandboxContext F)
      → Answers (compile_and_execute fl env own r lang b c)
  unfolding compile_and_execute needs_compilation
  compile_and_execute-Answers r cpp b c =
      bind-Answers (guarded ((env.sandbox b).compile c)) _ (after_compile-Answers r b c)
  compile_and_execute-Answers r python b c = execute_phase-Answers r b c

  after_prepare-Answers :
      (r : ExecutionRequest F) (lang : LanguageHandler) (b : Backend)
      (c : Result Text (SandboxContext F))
      → Answers (after_prepare fl env own r lang b c)
  unfolding after_prepare with_cleanup system_failure answer
  after_prepare-Answers r lang b (err e) = record { at = λ w. tt }
  after_prepare-Answers r lang b (ok c) = record {
    at = λ w. (compile_and_execute-Answers r lang b c).at (record w { log = opens c ∷ w.log });
  }

  prepare_and_execute-Answers :
      (r : ExecutionRequest F) (lang : LanguageHandler) (b : Result Text Backend)
      → Answers (prepare_and_execute fl env own r lang b)
  unfolding prepare_and_execute system_failure answer
  prepare_and_execute-Answers r lang (err e) = record { at = λ w. tt }
  prepare_and_execute-Answers r lang (ok b) = bind-Answers (emit (prepares r)) _ (λ _.
      bind-Answers (guarded ((env.sandbox b).prepare r lang)) _ (after_prepare-Answers r lang b))

  resolve_and_execute-Answers :
      (r : ExecutionRequest F) (lang : Result Text LanguageHandler)
      → Answers (resolve_and_execute fl env own r lang)
  unfolding resolve_and_execute system_failure answer
  resolve_and_execute-Answers r (err e) = record { at = λ w. tt }
  resolve_and_execute-Answers r (ok lang) =
      bind-Answers (on_host env.host) _
        (λ h. prepare_and_execute-Answers r lang (choose own r.sandbox_type h))

  run-Answered : (r : ExecutionRequest F) (w : World S F) → Answered (run fl env own (some r) w).0
  unfolding run
  run-Answered r w =
      let (e, os) = env.entropy w.os in
      let r' = normalize fl env.table e r in
      (resolve_and_execute-Answers r' (get env.table r'.language)).at (record w { os = os })

module _ {S F : Type 0} (fl : Float F) (env : Env S F) (read_file : Text → Result Text Text)
    (ext : Text → Text) (encode : ExecutionResult F → Result Text Text) (f : Flags F) where
  -- The three ways in which the program ends, with the state of the world after it.
  pub data Ends (w : World S F) : Exit × World S F → Type 0 where
    refused : (e : Text) → request_of_flags read_file ext f ≡ err e → Ends w (fatal e, w)
    shown :
        (r : ExecutionRequest F) (res : ExecutionResult F) (w' : World S F)
        → request_of_flags read_file ext f ≡ ok r
        → run fl env f.sandbox (some r) w ≡ (ret (ok res), w')
        → Ends w (output fl encode f res, w')
    broken :
        (r : ExecutionRequest F) (m : Text) (w' : World S F)
        → request_of_flags read_file ext f ≡ ok r
        → run fl env f.sandbox (some r) w ≡ (panic m, w')
        → Ends w (crashed m, w')

  run_request-Ends :
      (r : ExecutionRequest F) (w w' : World S F) (a : Step (Answer F))
      → request_of_flags read_file ext f ≡ ok r
      → run fl env f.sandbox (some r) w ≡ (a, w')
      → Answered a
      → Ends w (after_run fl encode f a, w')
  unfolding after_run
  run_request-Ends r w w' (ret (ok res)) h e k = shown r res w' h e
  run_request-Ends r w w' (ret (err x)) h e k = absurd k
  run_request-Ends r w w' (panic m) h e k = broken r m w' h e

  requested-Ends :
      (q : Result Text (ExecutionRequest F)) (w : World S F)
      → request_of_flags read_file ext f ≡ q
      → Ends w (run_request fl env read_file ext encode f q w)
  unfolding run_request
  requested-Ends (err e) w h = refused e h
  requested-Ends (ok r) w h =
      let (a, w') = run fl env f.sandbox (some r) w in
      run_request-Ends r w w' a h refl (run-Answered fl env f.sandbox r w)

  -- The program ends with the message of its flags, having run nothing; or with what it makes of the
  -- result of the engine's run; or by the run's panic. The engine never returns an error to it.
  pub main-Ends : (w : World S F) → Ends w (main fl env read_file ext encode f w)
  unfolding main
  main-Ends w = requested-Ends (request_of_flags read_file ext f) w refl
