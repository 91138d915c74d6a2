-- ===== src/Engine/Honest.antt =====
-- Where the accepted answers of `Run` of pkg/engine/engine.go come from.
use remote_runtime_engine.Base.{
  ◌≡◌, refl, true, false, Option, none, some, Text, Float, Result, ok, err, Option-cases,
  Bool-cases, arith, ◌∙◌, ◌∷◌, inl, inr,
}
use remote_runtime_engine.Models.{ExecutionResult, is_accepted}
use remote_runtime_engine.Models.Request.{ExecutionRequest, normalize}
use remote_runtime_engine.Languages.{LanguageHandler, cpp, python, get, needs_compilation}
use remote_runtime_engine.Sandbox.Select.{SandboxContext, Backend}
use remote_runtime_engine.Worker.{
  Job, World, ◌>>=◌, continue, guarded, on_host, emit, Env, Step, ret, panic, Compiled, prepares,
  opens,
}
use remote_runtime_engine.Engine.{
  Answer, answer, rejected, uncompiled, system_failure, after_execute, execute_phase, after_compile,
  compile_and_execute, with_cleanup, after_prepare, prepare_and_execute, resolve_and_execute,
  choose, run,
}

module _ {S F : Type 0} (env : Env S F) where
  -- Some sandbox's `Execute` returned this result.
  abbrev pub Earned : ExecutionResult F → Type 0
  Earned res =
      (b : Backend) × (c : SandboxContext F) × (s : S) × (((env.sandbox b).execute c s).0
        ≡ ret (ok res))

  -- A part of a run whose accepted answers are earned.
  abbrev Honest : Step (Answer F) → Type 0
  Honest a =
      (res : ExecutionResult F) → a ≡ ret (ok res) → is_accepted res.verdict ≡ true → Earned res

  record IsHonest (m : Job S F (Answer F)) : Type 0 where
    at : (w : World S F) → Honest (m w).0

  continue-IsHonest :
      {A : Type 0} (r : Step A) (f : A → Job S F (Answer F)) (w : World S F)
      → ((a : A) → IsHonest (f a))
      → Honest (continue r f w).0
  continue-IsHonest (ret a) f w q = (q a).at w
  continue-IsHonest (panic m) f w q = λ res h _. cc

  bind-IsHonest :
      {A : Type 0} (m : Job S F A) (f : A → Job S F (Answer F))
      → ((a : A) → IsHonest (f a))
      → IsHonest (m >>= f)
  bind-IsHonest m f q = record { at = λ w. continue-IsHonest (m w).0 f (m w).1 q }

  module _ (fl : Float F) (own : Text) where
    answer-IsHonest :
        (res : ExecutionResult F)
        → is_accepted res.verdict ≡ false
        → IsHonest (answer fl env own res)
    unfolding answer
    answer-IsHonest res e = record { at = λ w got h a. ground arith }

    system_failure-IsHonest :
        (r : ExecutionRequest F) (details backend : Text)
        → IsHonest (system_failure fl env own r details backend)
    unfolding system_failure answer is_accepted
    system_failure-IsHonest r details backend = record { at = λ w got h a. ground arith }

    executed-Honest :
        (r : ExecutionRequest F) (b : Backend) (c : SandboxContext F) (s : S)
        (res : Step (Result Text (ExecutionResult F))) (w : World S F)
        → ((env.sandbox b).execute c s).0 ≡ res
        → Honest (continue res (after_execute fl env own r b) w).0
    unfolding after_execute
    executed-Honest r b c s (ret (ok res)) w e = λ got h _. (b, c, s, e ∙ h)
    executed-Honest r b c s (ret (err m)) w e = (system_failure-IsHonest r _ _).at w
    executed-Honest r b c s (panic m) w e = λ got h _. cc

    execute_phase-IsHonest :
        (r : ExecutionRequest F) (b : Backend) (c : SandboxContext F)
        → IsHonest (execute_phase fl env own r b c)
    unfolding execute_phase
    execute_phase-IsHonest r b c = record {
      at = λ w.
          executed-Honest r b c w.os ((env.sandbox b).execute c w.os).0
            (record w { os = ((env.sandbox b).execute c w.os).1 }) refl;
    }

    after_compile-IsHonest :
        (r : ExecutionRequest F) (b : Backend) (c : SandboxContext F) (k : Compiled F)
        → IsHonest (after_compile fl env own r b c k)
    unfolding after_compile is_accepted
    after_compile-IsHonest r b c k = elim (Option-cases k.error) [
      | inr (e, h) ↦
          rw (h, after_compile) (answer-IsHonest (uncompiled fl env own r b k.result e) refl)
      | inl h ↦ elim (Option-cases k.result) [
        | inl h' ↦ rw (h, h', after_compile) (record { at = λ w got e _. cc })
        | inr (res, h') ↦ elim (Bool-cases res.success) [
          | inl s ↦ rw (h, h', s, after_compile) (execute_phase-IsHonest r b c)
          | inr s ↦
              rw (h, h', after_compile)
                (simp (s) (answer-IsHonest (rejected fl env own r b res) refl))
        ]
      ]
    ]

    compile_and_execute-IsHonest :
        (r : ExecutionRequest F) (lang : LanguageHandler) (b : Backend) (c : SandboxContext F)
        → IsHonest (compile_and_execute fl env own r lang b c)
    unfolding compile_and_execute needs_compilation
    compile_and_execute-IsHonest r cpp b c =
        bind-IsHonest (guarded ((env.sandbox b).compile c)) _ (after_compile-IsHonest r b c)
    compile_and_execute-IsHonest r python b c = execute_phase-IsHonest r b c

    after_prepare-IsHonest :
        (r : ExecutionRequest F) (lang : LanguageHandler) (b : Backend)
        (c : Result Text (SandboxContext F))
        → IsHonest (after_prepare fl env own r lang b c)
    unfolding after_prepare with_cleanup
    after_prepare-IsHonest r lang b (err e) = system_failure-IsHonest r _ _
    after_prepare-IsHonest r lang b (ok c) = record {
      at = λ w. (compile_and_execute-IsHonest r lang b c).at (record w { log = opens c ∷ w.log });
    }

    prepare_and_execute-IsHonest :
        (r : ExecutionRequest F) (lang : LanguageHandler) (b : Result Text Backend)
        → IsHonest (prepare_and_execute fl env own r lang b)
    unfolding prepare_and_execute
    prepare_and_execute-IsHonest r lang (err e) = system_failure-IsHonest r _ _
    prepare_and_execute-IsHonest r lang (ok b) = bind-IsHonest (emit (prepares r)) _ (λ _.
        bind-IsHonest (guarded ((env.sandbox b).prepare r lang)) _
          (after_prepare-IsHonest r lang b))

    resolve_and_execute-IsHonest :
        (r : ExecutionRequest F) (lang : Result Text LanguageHandler)
        → IsHonest (resolve_and_execute fl env own r lang)
    unfolding resolve_and_execute
    resolve_and_execute-IsHonest r (err e) = system_failure-IsHonest r _ _
    resolve_and_execute-IsHonest r (ok lang) =
        bind-IsHonest (on_host env.host) _
          (λ h. prepare_and_execute-IsHonest r lang (choose own r.sandbox_type h))

    -- An accepted answer of a run is a result that the `Execute` of some sandbox returned.
    pub run-accepted :
        (r : Option (ExecutionRequest F)) (w : World S F) (res : ExecutionResult F)
        → (run fl env own r w).0 ≡ ret (ok res)
        → is_accepted res.verdict ≡ true
        → Earned res
    unfolding run
    run-accepted none w res h a = cc
    run-accepted (some r) w res h a =
        (bind-IsHonest (on_host env.entropy) _ (λ e.
            let r' = normalize fl env.table e r in
            resolve_and_execute-IsHonest r' (get env.table r'.language))).at
          w res h a
