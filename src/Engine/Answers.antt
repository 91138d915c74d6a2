-- ===== src/Engine/Answers.antt =====
-- What `Run` of pkg/engine/engine.go does to its sandbox, and where its answers come from.
use remote_runtime_engine.Base.{
  ◌≡◌, refl, Option, none, some, List, ◌∷◌, Text, Float, Result, ok, err, Result-cases,
  Option-cases, Bool-cases, ◌∙◌, inl, inr,
}
use remote_runtime_engine.Models.Request.{ExecutionRequest, normalize}
use remote_runtime_engine.Models.Bounds.{IsBounded, normalize-IsBounded}
use remote_runtime_engine.Languages.{LanguageHandler, cpp, python, get, needs_compilation}
use remote_runtime_engine.Sandbox.Select.{SandboxContext, Backend}
use remote_runtime_engine.Worker.{
  Job, World, ◌>>=◌, continue, guarded, Env, Step, ret, panic, Compiled, Effect, prepares, opens,
  cleans,
}
use remote_runtime_engine.Engine.{
  Answer, answer, system_failure, after_execute, execute_phase, after_compile, compile_and_execute,
  with_cleanup, after_prepare, prepare_and_execute, resolve_and_execute, choose, run,
}

-- How the log grows over a run: not at all, by a request whose sandbox was not opened, or by the whole
-- life of one sandbox.
pub data Lived {F : Type 0} (l : List (Effect F)) : List (Effect F) → Type 0 where
  untouched : Lived l l
  refused : (r : ExecutionRequest F) → IsBounded r → Lived l (prepares r ∷ l)
  served :
      (r : ExecutionRequest F) (c : SandboxContext F)
      → IsBounded r
      → Lived l (cleans c ∷ opens c ∷ prepares r ∷ l)

-- A part of the run that leaves the log alone.
record IsQuiet {S F A : Type 0} (m : Job S F A) : Type 0 where
  pub at : (w : World S F) → (m w).1.log ≡ w.log

continue-log :
    {S F A B : Type 0} (r : Step A) (f : A → Job S F B) (w : World S F)
    → ((a : A) → IsQuiet (f a))
    → (continue r f w).1.log ≡ w.log
continue-log (ret a) f w q = (q a).at w
continue-log (panic m) f w q = refl

bind-IsQuiet :
    {S F A B : Type 0} (m : Job S F A) (f : A → Job S F B)
    → IsQuiet m
    → ((a : A) → IsQuiet (f a))
    → IsQuiet (m >>= f)
bind-IsQuiet m f q k = record { at = λ w. continue-log (m w).0 f (m w).1 k ∙ q.at w }

module _ {S F : Type 0} (fl : Float F) (env : Env S F) (own : Text) where
  after_execute-IsQuiet :
      (r : ExecutionRequest F) (b : Backend) (res : Answer F)
      → IsQuiet (after_execute fl env own r b res)
  unfolding after_execute system_failure answer
  after_execute-IsQuiet r b (ok res) = record { at = λ w. refl }
  after_execute-IsQuiet r b (err e) = record { at = λ w. refl }

  execute_phase-IsQuiet :
      (r : ExecutionRequest F) (b : Backend) (c : SandboxContext F)
      → IsQuiet (execute_phase fl env own r b c)
  unfolding execute_phase
  execute_phase-IsQuiet r b c =
      bind-IsQuiet (guarded ((env.sandbox b).execute c)) _ (record { at = λ w. refl })
        (after_execute-IsQuiet r b)

  after_compile-IsQuiet :
      (r : ExecutionRequest F) (b : Backend) (c : SandboxContext F) (k : Compiled F)
      → IsQuiet (after_compile fl env own r b c k)
  unfolding after_compile answer
  after_compile-IsQuiet r b c k = elim (Option-cases k.error) [
    | inr (e, h) ↦ rw (h, after_compile) (record { at = λ w. refl })
    | inl h ↦ elim (Option-cases k.result) [
      | inl h' ↦ rw (h, h', after_compile) (record { at = λ w. refl })
      | inr (res, h') ↦ elim (Bool-cases res.success) [
        | inl s ↦ rw (h, h', s, after_compile) (execute_phase-IsQuiet r b c)
        | inr s ↦ rw (h, h', s, after_compile) (record { at = λ w. refl })
      ]
    ]
  ]

  compile_and_execute-IsQuiet :
      (r : ExecutionRequest F) (lang : LanguageHandler) (b : Backend) (c : SandboxContext F)
      → IsQuiet (compile_and_execute fl env own r lang b c)
  unfolding compile_and_execute needs_compilation
  compile_and_execute-IsQuiet r cpp b c =
      bind-IsQuiet (guarded ((env.sandbox b).compile c)) _ (record { at = λ w. refl })
        (after_compile-IsQuiet r b c)
  compile_and_execute-IsQuiet r python b c = execute_phase-IsQuiet r b c

  after_prepare-Lived :
      (r : ExecutionRequest F) (lang : LanguageHandler) (b : Backend)
      (c : Result Text (SandboxContext F)) (w : World S F)
      → IsBounded r
      → Lived w.log
          (after_prepare fl env own r lang b c (record w { log = prepares r ∷ w.log })).1.log
  unfolding after_prepare with_cleanup system_failure
  after_prepare-Lived r lang b (err e) w v = refused r v
  after_prepare-Lived r lang b (ok c) w v =
      let w₁ : World S F = record w { log = opens c ∷ prepares r ∷ w.log } in
      rw ((compile_and_execute-IsQuiet r lang b c).at w₁) (served r c v)

  prepared-Lived :
      (r : ExecutionRequest F) (lang : LanguageHandler) (b : Backend)
      (c : Step (Result Text (SandboxContext F))) (w : World S F)
      → IsBounded r
      → Lived w.log
          (continue c
            (after_prepare fl env own r lang b)
            (record w { log = prepares r ∷ w.log })).1.log
  prepared-Lived r lang b (ret c) w v = after_prepare-Lived r lang b c w v
  prepared-Lived r lang b (panic m) w v = refused r v

  resolve_and_execute-Lived :
      (r : ExecutionRequest F) (lang : Result Text LanguageHandler) (w : World S F)
      → IsBounded r
      → Lived w.log (resolve_and_execute fl env own r lang w).1.log
  unfolding resolve_and_execute prepare_and_execute system_failure answer
  resolve_and_execute-Lived r (err e) w v = untouched
  resolve_and_execute-Lived r (ok lang) w v =
      elim (Result-cases (choose own r.sandbox_type (env.host w.os).0)) [
        | inr (e, h) ↦ rw (h, prepare_and_execute) untouched
        | inl (b, h) ↦
            let os = (env.host w.os).1 in
            let (c, os') = (env.sandbox b).prepare r lang os in
            rw (h, prepare_and_execute) (prepared-Lived r lang b c (record w { os = os' }) v)
      ]

  -- A run opens at most one sandbox, for a request within the limits, and whatever the sandbox does,
  -- by a panic too, it has been cleaned up when the run ends, as the last of its effects.
  pub run-Lived :
      (r : Option (ExecutionRequest F)) (w : World S F) → Lived w.log (run fl env own r w).1.log
  unfolding run
  run-Lived none w = untouched
  run-Lived (some r) w =
      let (e, os) = env.entropy w.os in
      let r' = normalize fl env.table e r in
      resolve_and_execute-Lived r' (get env.table r'.language) (record w { os = os })
        (normalize-IsBounded fl env.table e r)
