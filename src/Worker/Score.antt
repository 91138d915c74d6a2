-- ===== src/Worker/Score.antt =====
-- pkg/worker/worker.go, lines 145 to 230: what the loop over the test cases has worked out when it
-- ends.
use remote_runtime_engine.Base.{
  ℕ, suc, ◌+◌, ◌≡◌, refl, true, false, List, [], ◌∷◌, ◌++◌, Text, Float, length, length-append,
  append_assoc, append-nil, All, All-append, arith, Bool-cases, inl, inr, ◌⊎◌, if◌then◌else◌,
}
use remote_runtime_engine.Models.{Verdict, ExecutionResult, accepted, is_accepted}
use remote_runtime_engine.Sandbox.Select.{SandboxContext, Backend}
use remote_runtime_engine.Queue.{TestCase}
use remote_runtime_engine.Events.{TestCaseResult}
use remote_runtime_engine.Worker.{World, Env, Step-cases, ret}
use remote_runtime_engine.Worker.Evaluate.{start_progress}
use remote_runtime_engine.Worker.Case.{
  Progress, hidden_text, result_item, score, run_case, run_cases, execute_case, publish_now,
  start_event, case_context,
}

-- The verdict of the first result that is not accepted.
unfoldable pub first_failure : {F : Type 0} → List (TestCaseResult F) → Verdict
first_failure [] = accepted
first_failure (r ∷ rs) = if is_accepted r.verdict then first_failure rs else r.verdict

unfoldable pub accepted_count : {F : Type 0} → List (TestCaseResult F) → ℕ
accepted_count [] = 0
accepted_count (r ∷ rs) =
    let rest = accepted_count rs in if is_accepted r.verdict then suc rest else rest

-- A result is its case's, and shows no output of a hidden case that was not accepted.
pub record Answers {F : Type 0} (tc : TestCase) (r : TestCaseResult F) : Type 0 where
  pub case_id : r.test_case_id ≡ tc.id
  pub secret :
      (tc.is_hidden ≡ false)
      ⊎ (is_accepted r.verdict ≡ true)
      ⊎ (r.stdout ≡ hidden_text) × (r.stderr ≡ hidden_text)

-- One result for each case, in order.
abbrev pub AnswersAll : {F : Type 0} → List TestCase → List (TestCaseResult F) → Type 0
AnswersAll [] [] = Unit {0}
AnswersAll (tc ∷ tcs) (r ∷ rs) = Answers tc r × AnswersAll tcs rs
AnswersAll [] (r ∷ rs) = ⊥
AnswersAll (tc ∷ tcs) [] = ⊥

module _ {F : Type 0} where
  first_failure-append :
      (rs : List (TestCaseResult F)) (r : TestCaseResult F)
      → first_failure (rs ++ r ∷ [])
        ≡ (if is_accepted (first_failure rs) then first_failure (r ∷ []) else first_failure rs)
  unfolding first_failure is_accepted
  first_failure-append [] r = ground arith
  first_failure-append (s ∷ rs) r = ground (arith, first_failure-append rs r)

  accepted_count-append :
      (rs : List (TestCaseResult F)) (r : TestCaseResult F)
      → accepted_count (rs ++ r ∷ []) ≡ accepted_count rs + accepted_count (r ∷ [])
  unfolding accepted_count
  accepted_count-append [] r = ground arith
  accepted_count-append (s ∷ rs) r = ground (arith, accepted_count-append rs r)

  AnswersAll-append :
      (tcs : List TestCase) (rs : List (TestCaseResult F)) (tc : TestCase) (r : TestCaseResult F)
      → AnswersAll tcs rs
      → Answers tc r
      → AnswersAll (tcs ++ tc ∷ []) (rs ++ r ∷ [])
  AnswersAll-append [] [] tc r h a = (a, tt)
  AnswersAll-append (t ∷ tcs) (s ∷ rs) tc r h a = (h.0, AnswersAll-append tcs rs tc r h.1 a)
  AnswersAll-append [] (s ∷ rs) tc r h a = absurd h
  AnswersAll-append (t ∷ tcs) [] tc r h a = absurd h

  result_item-Answers :
      (i : ℕ) (tc : TestCase) (r : ExecutionResult F) → Answers tc (result_item i tc r)
  unfolding result_item
  result_item-Answers i tc r = record { case_id = refl; secret = ground arith }

module _ {F : Type 0} (fl : Float F) where
  -- No result in the list used more memory than `peak`.
  abbrev pub Tops : F → List (TestCaseResult F) → Type 0
  Tops peak rs = All (λ r. fl.lt peak r.peak_memory_mb ≡ false) rs

  Tops-mono : (a b : F) (rs : List (TestCaseResult F)) → fl.lt a b ≡ true → Tops a rs → Tops b rs
  Tops-mono a b [] h t = tt
  Tops-mono a b (r ∷ rs) h t =
      (ground (arith, t.0, fl.lt_trans a b r.peak_memory_mb), Tops-mono a b rs h t.1)

  -- The variables of the loop, once the cases `done` are evaluated.
  pub record Scored (done : List TestCase) (p : Progress F) : Type 0 where
    pub counted : p.index ≡ length p.results
    pub verdict : p.verdict ≡ first_failure p.results
    pub passed : p.passed ≡ accepted_count p.results
    pub answers : AnswersAll done p.results
    pub tops : Tops p.peak p.results

  score-Tops :
      (p : Progress F) (tc : TestCase) (r : ExecutionResult F)
      → Tops p.peak p.results
      → Tops (score fl p tc r).peak (score fl p tc r).results
  unfolding score
  score-Tops p tc r h = elim (Bool-cases (fl.lt p.peak r.peak_memory_mb)) [
    | inl e ↦
        rw (e, score)
          (All-append _ p.results _ (Tops-mono p.peak r.peak_memory_mb p.results e h)
            (fl.lt_irrefl r.peak_memory_mb, tt))
    | inr e ↦ rw (e, score) (All-append _ p.results _ h (e, tt))
  ]

  score-Scored :
      (done : List TestCase) (p : Progress F) (tc : TestCase) (r : ExecutionResult F)
      → Scored done p
      → Scored (done ++ tc ∷ []) (score fl p tc r)
  unfolding score first_failure accepted_count is_accepted
  score-Scored done p tc r s =
      let item = result_item (suc p.index) tc r in
      record {
        counted = ground (arith, s.counted, length-append p.results (item ∷ []));
        verdict = ground (arith, s.verdict, first_failure-append p.results item);
        passed = ground (arith, s.passed, accepted_count-append p.results item);
        answers = AnswersAll-append done p.results tc item s.answers (result_item-Answers _ tc r);
        tops = score-Tops p tc r s.tops;
      }

  pub start-Scored : Scored [] (start_progress fl)
  unfolding first_failure accepted_count
  start-Scored = record { counted = refl; verdict = refl; passed = refl; answers = tt; tops = tt }

module _ {S F : Type 0} (fl : Float F) (env : Env S F) (id : Text) (total : ℕ) (b : Backend)
    (c : SandboxContext F) where
  -- A case that returns has scored some result of the sandbox.
  run_case-score :
      (tc : TestCase) (p p' : Progress F) (w : World S F)
      → (run_case fl env id total b c tc p w).0 ≡ ret p'
      → (r : ExecutionResult F) × (p' ≡ score fl p tc r)
  unfolding run_case publish_now
  run_case-score tc p p' w h =
      let w₁ = (publish_now fl env id (start_event fl env id total (suc p.index)) w).1 in
      elim (Step-cases (execute_case fl env id b (case_context fl env c tc) w₁).0) [
        | inl (r, e) ↦ (r, ground (arith, h, e))
        | inr (m, e) ↦ absurd (ground (arith, h, e))
      ]

  pub run_cases-Scored :
      (done tcs : List TestCase) (p p' : Progress F) (w : World S F)
      → Scored fl done p
      → (run_cases fl env id total b c tcs p w).0 ≡ ret p'
      → Scored fl (done ++ tcs) p'
  unfolding run_cases
  run_cases-Scored done [] p p' w s h = rw append-nil (ground (arith, s))
  run_cases-Scored done (tc ∷ tcs) p p' w s h =
      let one = run_case fl env id total b c tc p w in
      elim (Step-cases one.0) [
        | inl (q, e) ↦
            let (r, scored) = run_case-score tc p q w e in
            rw (← append_assoc done (tc ∷ []) tcs) (
              run_cases-Scored (done ++ tc ∷ []) tcs q p' one.1
                (rw scored (score-Scored fl done p tc r s)) (ground (arith, h, e)))
        | inr (m, e) ↦ absurd (ground (arith, h, e))
      ]
