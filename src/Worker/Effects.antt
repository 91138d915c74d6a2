-- ===== src/Worker/Effects.antt =====
-- What a whole run of `ProcessJob` of pkg/worker/worker.go does to the outside.
use remote_runtime_engine.Base.{
  ◌≡◌, refl, none, some, List, [], ◌∷◌, Text, Float, Result, ok, err, Result-cases, inl, inr,
  length, All,
}
use remote_runtime_engine.Models.{system_error}
use remote_runtime_engine.Models.Bounds.{IsBounded, normalize-IsBounded}
use remote_runtime_engine.Languages.{LanguageHandler, get}
use remote_runtime_engine.Sandbox.Select.{SandboxContext, Backend, select_sandbox}
use remote_runtime_engine.Queue.{SubmissionJob}
use remote_runtime_engine.Worker.{
  World, Env, Step, ret, panic, Effect, publishes, saves, prepares, opens, cleans, records, audits,
  violates,
}
use remote_runtime_engine.Worker.Keeps.{
  Keeps, Allowed, Keeps-pure, Keeps-on_host, Keeps-bind, Keeps-fail_submission,
  Keeps-compile_and_evaluate,
}
use remote_runtime_engine.Worker.Evaluate.{cases_of, request_of}
use remote_runtime_engine.Worker.Process.{
  after_prepare, prepare_job, prepare_and_run, select_and_run, resolve_and_run, recover,
  process_job,
}

-- A log invariant `R` that allowed effects keep, and that a sandbox which is opened turns into
-- `P c` until its cleanup restores it.
record IsClosed {F : Type 0} (j : SubmissionJob F) (R : List (Effect F) → Type 0)
    (P : SandboxContext F → List (Effect F) → Type 0) : Type 0 where
  push : (e : Effect F) (l : List (Effect F)) → Allowed j e → R l → R (e ∷ l)
  inside :
      (c : SandboxContext F) (e : Effect F) (l : List (Effect F))
      → Allowed j e
      → P c l
      → P c (e ∷ l)
  enter : (c : SandboxContext F) (l : List (Effect F)) → R l → P c (opens c ∷ l)
  leave : (c : SandboxContext F) (l : List (Effect F)) → P c l → R (cleans c ∷ l)

module _ {S F : Type 0} (fl : Float F) (env : Env S F) (j : SubmissionJob F)
    (R : List (Effect F) → Type 0) (P : SandboxContext F → List (Effect F) → Type 0)
    (closed : IsClosed j R P) where
  Keeps-after_prepare :
      (lang : LanguageHandler) (b : Backend) (r : Result Text (SandboxContext F))
      → Keeps R (after_prepare fl env j lang b r)
  unfolding after_prepare
  Keeps-after_prepare lang b (err e) =
      Keeps-fail_submission fl env j R closed.push (length (cases_of j)) system_error _ none
  Keeps-after_prepare lang b (ok c) = record {
    at = λ w h. closed.leave c _ (
        (Keeps-compile_and_evaluate fl env j (P c) (closed.inside c) lang b c).at
          (record w { log = opens c ∷ w.log }) (closed.enter c w.log h));
  }

  Keeps-prepare_job : (lang : LanguageHandler) (b : Backend) → Keeps R (prepare_job fl env j lang b)
  unfolding prepare_job
  Keeps-prepare_job lang b = record {
    at = λ w h.
        closed.push _ _ (normalize-IsBounded fl env.table (env.entropy w.os).0 (request_of j)) h;
  }

  Keeps-select_and_run :
      (lang : LanguageHandler) (r : Result Text Backend) → Keeps R (select_and_run fl env j lang r)
  unfolding select_and_run prepare_and_run
  Keeps-select_and_run lang (err e) =
      Keeps-fail_submission fl env j R closed.push (length (cases_of j)) system_error e none
  Keeps-select_and_run lang (ok b) =
      Keeps-bind (prepare_job fl env j lang b) _ (Keeps-prepare_job lang b)
        (Keeps-after_prepare lang b)

  Keeps-resolve_and_run : Keeps R (resolve_and_run fl env j)
  unfolding resolve_and_run
  Keeps-resolve_and_run = elim (Result-cases (get env.table j.language)) [
    | inl (lang, e) ↦
        rw (e, resolve_and_run)
          (Keeps-bind _ _ (Keeps-on_host env.host)
            (λ h. Keeps-select_and_run lang (select_sandbox h j.sandbox_type)))
    | inr (m, e) ↦
        rw (e, resolve_and_run)
          (Keeps-fail_submission fl env j R closed.push (length (cases_of j)) system_error m none)
  ]

  Keeps-recover : (r : Step (Unit {0})) → Keeps R (recover fl env j r)
  unfolding recover
  Keeps-recover (ret a) = Keeps-pure (ok tt)
  Keeps-recover (panic m) = record {
    at = λ w h. closed.push _ _ (refl, refl) (closed.push _ _ refl h);
  }

  Keeps-process_job : Keeps R (process_job fl env (some j))
  unfolding process_job
  Keeps-process_job = record {
    at = λ w h.
        let (r, w') = resolve_and_run fl env j w in
        (Keeps-recover r).at w' (Keeps-resolve_and_run.at w h);
  }

-- The sandboxes that are open after a log, the last opened first.
pub data Open {F : Type 0} : List (Effect F) → List (SandboxContext F) → Type 0 where
  none_yet : Open [] []
  opened :
      {l : List (Effect F)} {cs : List (SandboxContext F)} (c : SandboxContext F)
      → Open l cs
      → Open (opens c ∷ l) (c ∷ cs)
  cleaned :
      {l : List (Effect F)} {cs : List (SandboxContext F)} (c : SandboxContext F)
      → Open l (c ∷ cs)
      → Open (cleans c ∷ l) cs
  other :
      {l : List (Effect F)} {cs : List (SandboxContext F)} (j : SubmissionJob F) (e : Effect F)
      → Allowed j e
      → Open l cs
      → Open (e ∷ l) cs

-- An effect of a run: an allowed one, or the life of a sandbox.
abbrev pub IsProper : {F : Type 0} → SubmissionJob F → Effect F → Type 0
IsProper j (opens c) = Unit {0}
IsProper j (cleans c) = Unit {0}
IsProper j (publishes id e) = (id ≡ j.submission_id) × (e.submission_id ≡ j.submission_id)
IsProper j (saves s) = s.submission_id ≡ j.submission_id
IsProper j (prepares r) = IsBounded r
IsProper j (records _ _ _ _ _ _) = Unit {0}
IsProper j (audits _ _ _ _ _) = Unit {0}
IsProper j (violates _) = Unit {0}

Allowed-IsProper : {F : Type 0} (j : SubmissionJob F) (e : Effect F) → Allowed j e → IsProper j e
Allowed-IsProper j (publishes id e) a = a
Allowed-IsProper j (saves s) a = a
Allowed-IsProper j (prepares r) a = a
Allowed-IsProper j (opens c) a = tt
Allowed-IsProper j (cleans c) a = tt
Allowed-IsProper j (records _ _ _ _ _ _) a = tt
Allowed-IsProper j (audits _ _ _ _ _) a = tt
Allowed-IsProper j (violates _) a = tt

module _ {S F : Type 0} (fl : Float F) (env : Env S F) (j : SubmissionJob F) (w : World S F) where
  -- However a job ends, by a panic too, the same sandboxes are open after it as before: the sandbox
  -- that it opened, if any, has been cleaned up exactly once.
  pub process_job-Open :
      {cs : List (SandboxContext F)} → Open w.log cs → Open (process_job fl env (some j) w).1.log cs
  process_job-Open {cs} h =
      (Keeps-process_job fl env j (λ l. Open l cs) (λ c l. Open l (c ∷ cs))
          (record {
            push = λ e l a o. other j e a o;
            inside = λ c e l a o. other j e a o;
            enter = λ c l o. opened c o;
            leave = λ c l o. cleaned c o;
          })).at
        w h

  -- Everything that a job publishes and saves is under its own submission, and every request that it
  -- prepares a sandbox for is within the limits, whatever limits the job asks for.
  pub process_job-IsProper :
      All (IsProper j) w.log → All (IsProper j) (process_job fl env (some j) w).1.log
  process_job-IsProper h =
      let add : (e : Effect F) (l : List (Effect F))
          → Allowed j e
          → All (IsProper j) l
          → All (IsProper j) (e ∷ l) =
        λ e l a k. (Allowed-IsProper j e a, k) in
      (Keeps-process_job fl env j (All (IsProper j)) (λ c. All (IsProper j))
          (record {
            push = add;
            inside = λ c. add;
            enter = λ c l k. (tt, k);
            leave = λ c l k. (tt, k);
          })).at
        w h
