-- ===== src/Worker/Numbering/Loop.antt =====
-- The events of the test cases in the loop of pkg/worker/worker.go, by the numbers of the cases.
use remote_runtime_engine.Base.{
  ℕ, zero, suc, ◌+◌, ◌≡◌, refl, sym, ap, ◌∙◌, Bool, true, false, Bool-cases, Option, none, some,
  List, [], ◌∷◌, Text, Float, Result, ok, err, length, arith, if◌then◌else◌,
}
use remote_runtime_engine.Models.{
  Verdict, CompilationResult, ExecutionResult, is_accepted, time_limit_exceeded,
  memory_limit_exceeded,
}
use remote_runtime_engine.Sandbox.Select.{SandboxContext, Backend}
use remote_runtime_engine.Queue.{TestCase, SubmissionJob}
use remote_runtime_engine.Events.{
  EventStatus, ExecutionEvent, test_case_start, test_case_passed, test_case_failed, completed,
}
use remote_runtime_engine.Worker.{
  World, Job, Env, Step, ret, panic, Effect, ◌>>=◌, emit, guarded, publishes, continue,
}
use remote_runtime_engine.Worker.Keeps.{Keeps, Keeps-pure, Keeps-guarded, Keeps-bind}
use remote_runtime_engine.Worker.Case.{
  Progress, publish_now, start_event, or_system_error, execute_case, run_case, run_cases,
  case_event, case_context, score,
}
use remote_runtime_engine.Worker.Evaluate.{save, complete, audit, final_event}

-- The start or the outcome of a test case.
unfoldable pub of_case : EventStatus → Bool
of_case test_case_start = true
of_case test_case_passed = true
of_case test_case_failed = true
of_case _ = false

-- The number of the case in each start and each outcome that a log holds, the newest first.
unfoldable pub case_numbers : {F : Type 0} → List (Effect F) → List ℕ
unfolding of_case
case_numbers [] = []
case_numbers (publishes id e ∷ log) =
    let earlier = case_numbers log in
    if of_case e.status then e.current_test_case ∷ earlier else earlier
case_numbers (_ ∷ log) = case_numbers log

-- Each of the numbers from 1 to `n` twice, the greatest first, before others.
unfoldable pub each_twice : ℕ → List ℕ → List ℕ
each_twice zero ns = ns
each_twice (suc n) ns = suc n ∷ suc n ∷ each_twice n ns

-- The status of the last event of a log.
unfoldable pub last_status : {F : Type 0} → List (Effect F) → Option EventStatus
last_status [] = none
last_status (publishes id e ∷ log) = some e.status
last_status (_ ∷ log) = last_status log

-- A part of a job that returns leads from logs of one kind to logs of another.
abbrev pub After :
    {F A : Type 0} → (A → List (Effect F) → Type 0) → Step A → List (Effect F) → Type 0
After Q (ret a) l = Q a l
After Q (panic m) l = Unit {0}

pub record Leads {S F A : Type 0} (P : List (Effect F) → Type 0) (m : Job S F A)
    (Q : A → List (Effect F) → Type 0) : Type 0 where
  pub at : (w : World S F) → P w.log → After Q (m w).0 (m w).1.log

kept :
    {F A : Type 0} (P : List (Effect F) → Type 0) (r : Step A) (l : List (Effect F))
    → P l
    → After (λ _. P) r l
kept P (ret a) l h = h
kept P (panic m) l h = tt

pub weaker :
    {F A : Type 0} (P Q : List (Effect F) → Type 0) (r : Step A) (l : List (Effect F))
    → (P l → Q l)
    → After (λ _. P) r l
    → After (λ _. Q) r l
weaker P Q (ret a) l k h = k h
weaker P Q (panic m) l k h = tt

-- The clean-up is no event.
pub after_cleanup :
    {F A : Type 0} (P Q : List (Effect F) → Type 0) (e : Effect F) (r : Step A)
    (l : List (Effect F))
    → (P l → Q (e ∷ l))
    → After (λ _. P) r l
    → After (λ _. Q) r (e ∷ l)
after_cleanup P Q e (ret a) l k h = k h
after_cleanup P Q e (panic m) l k h = tt

module _ {S F : Type 0} where
  continue-After :
      {A B : Type 0} (Q : A → List (Effect F) → Type 0) (R : B → List (Effect F) → Type 0)
      (r : Step A) (f : A → Job S F B) (w : World S F)
      → After Q r w.log
      → ((a : A) → Leads (Q a) (f a) R)
      → After R (continue r f w).0 (continue r f w).1.log
  continue-After Q R (ret a) f w h k = (k a).at w h
  continue-After Q R (panic m) f w h k = tt

  pub Leads-bind :
      {A B : Type 0} {P : List (Effect F) → Type 0} (Q : A → List (Effect F) → Type 0)
      (R : B → List (Effect F) → Type 0) (m : Job S F A) (f : A → Job S F B)
      → Leads P m Q
      → ((a : A) → Leads (Q a) (f a) R)
      → Leads P (m >>= f) R
  Leads-bind Q R m f h k = record {
    at = λ w v. let (r, w') = m w in continue-After Q R r f w' (h.at w v) k;
  }

  pub Keeps-Leads :
      {A : Type 0} {P : List (Effect F) → Type 0} (m : Job S F A) → Keeps P m → Leads P m (λ _. P)
  Keeps-Leads {A} {P} m h = record { at = λ w v. kept P (m w).0 (m w).1.log (h.at w v) }

module _ {S F : Type 0} (fl : Float F) (env : Env S F) (j : SubmissionJob F) (ns : List ℕ) where
  quiet-or_system_error :
      (ms : List ℕ) (b : Backend) (r : Result Text (ExecutionResult F))
      → Keeps (λ l. case_numbers l ≡ ms) (or_system_error fl env j.submission_id b r)
  unfolding or_system_error
  quiet-or_system_error ms b (ok r) = Keeps-pure r
  quiet-or_system_error ms b (err e) = record { at = λ w h. h }

  quiet-execute_case :
      (ms : List ℕ) (b : Backend) (c : SandboxContext F)
      → Keeps (λ l. case_numbers l ≡ ms) (execute_case fl env j.submission_id b c)
  unfolding execute_case
  quiet-execute_case ms b c =
      Keeps-bind (guarded ((env.sandbox b).execute c)) (or_system_error fl env j.submission_id b)
        (Keeps-guarded ((env.sandbox b).execute c)) (quiet-or_system_error ms b)

  case_event-of_case :
      (total i : ℕ) (tc : TestCase) (r : ExecutionResult F)
      → (of_case (case_event fl env j.submission_id total i tc r).status ≡ true)
        × ((case_event fl env j.submission_id total i tc r).current_test_case ≡ i)
  unfolding case_event of_case
  case_event-of_case total i tc r = ground (arith, Bool-cases (is_accepted r.verdict))

  start_event-of_case :
      (total i : ℕ)
      → (of_case (start_event fl env j.submission_id total i).status ≡ true)
        × ((start_event fl env j.submission_id total i).current_test_case ≡ i)
  unfolding start_event of_case
  start_event-of_case total i = (refl, refl)

  publishes_of_case :
      (ms : List ℕ) (i : ℕ) (e : ExecutionEvent F)
      → (of_case e.status ≡ true) × (e.current_test_case ≡ i)
      → Leads
          (λ l. case_numbers l ≡ ms)
          (publish_now fl env j.submission_id e)
          (λ _ l. case_numbers l ≡ i ∷ ms)
  unfolding publish_now case_numbers
  publishes_of_case ms i e k = record { at = λ w h. rw (k.0, k.1, h) refl }

  run_case-Leads :
      (total : ℕ) (b : Backend) (c : SandboxContext F) (tc : TestCase) (p : Progress F)
      → Leads
          (λ l. case_numbers l ≡ each_twice p.index ns)
          (run_case fl env j.submission_id total b c tc p)
          (λ p' l. (p'.index ≡ suc p.index) × (case_numbers l ≡ each_twice (suc p.index) ns))
  unfolding run_case score each_twice
  run_case-Leads total b c tc p =
      let id = j.submission_id in
      let i = suc p.index in
      let before = each_twice p.index ns in
      Leads-bind (λ _ l. case_numbers l ≡ i ∷ before) _ _ _
        (publishes_of_case before i (start_event fl env id total i) (start_event-of_case total i))
        (λ _.
          Leads-bind (λ _ l. case_numbers l ≡ i ∷ before) _ _ _
            (Keeps-Leads _ (quiet-execute_case (i ∷ before) b (case_context fl env c tc)))
            (λ r.
              Leads-bind (λ _ l. case_numbers l ≡ i ∷ i ∷ before) _ _ _
                (publishes_of_case (i ∷ before) i (case_event fl env id total i tc r)
                  (case_event-of_case total i tc r))
                (λ _. record { at = λ w h. (refl, h) })))

  pub run_cases-Leads :
      (total : ℕ) (b : Backend) (c : SandboxContext F) (tcs : List TestCase) (p : Progress F)
      (n : ℕ)
      → p.index + length tcs ≡ n
      → Leads
          (λ l. case_numbers l ≡ each_twice p.index ns)
          (run_cases fl env j.submission_id total b c tcs p)
          (λ _ l. case_numbers l ≡ each_twice n ns)
  unfolding run_cases
  run_cases-Leads total b c [] p n k = record {
    at = λ w h. let e : p.index ≡ n = omega (arith, k) in h ∙ ap (λ i. each_twice i ns) e;
  }
  run_cases-Leads total b c (tc ∷ tcs) p n k =
      Leads-bind (λ p' l. (p'.index ≡ suc p.index) × (case_numbers l ≡ each_twice (suc p.index) ns))
        _ _ _ (run_case-Leads total b c tc p)
        (λ p'. record {
          at = λ w h.
              (run_cases-Leads total b c tcs p' n (omega (arith, k, h.0))).at w
                (h.1 ∙ ap (λ i. each_twice i ns) (sym h.0));
        })

  quiet-audit :
      (b : Backend) (p : Progress F) (v : Verdict) (w : World S F)
      → ((audit fl env j b p v w).0 ≡ ret tt)
        × (case_numbers (audit fl env j b p v w).1.log ≡ case_numbers w.log)
  unfolding audit case_numbers
  quiet-audit b p memory_limit_exceeded w = (refl, refl)
  quiet-audit b p time_limit_exceeded w = (refl, refl)
  quiet-audit b p _ w = (refl, refl)

  announces :
      (ms : List ℕ) (r : Step (Unit {0})) (e : ExecutionEvent F) (w : World S F)
      → r ≡ ret tt
      → e.status ≡ completed
      → case_numbers w.log ≡ ms
      → After
          (λ _ l. case_numbers l ≡ ms)
          (continue r (λ _. emit (publishes j.submission_id e)) w).0
          (continue r (λ _. emit (publishes j.submission_id e)) w).1.log
  unfolding case_numbers of_case
  announces ms (ret a) e w k c h = rw (c, of_case) h
  announces ms (panic m) e w k c h = absurd (cc)

  pub complete-Leads :
      (total : ℕ) (b : Backend) (comp : Option (CompilationResult F)) (p : Progress F) (ms : List ℕ)
      → Leads
          (λ l. case_numbers l ≡ ms)
          (complete fl env j total b comp p)
          (λ _ l. case_numbers l ≡ ms)
  unfolding complete save case_numbers final_event
  complete-Leads total b comp p ms = record {
    at = λ w h. let (k, e) = quiet-audit b p p.verdict _ in announces ms _ _ _ k refl (e ∙ h);
  }
