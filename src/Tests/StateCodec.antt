-- ===== src/Tests/StateCodec.antt =====
-- A codec for states, which stands for JSON in the tests.
use remote_runtime_engine.Base.{
  ℕ, zero, suc, List, [], ◌∷◌, ◌≡◌, refl, subst, Option, none, some, ok, ok_injective,
}
use remote_runtime_engine.Models.{
  Verdict, accepted, wrong_answer, time_limit_exceeded, memory_limit_exceeded, compilation_error,
  runtime_error, output_limit_exceeded, system_error, CompilationResult,
}
use remote_runtime_engine.Events.{
  EventStatus, queued, compiling, running, test_case_start, test_case_passed, test_case_failed,
  completed, failed, TestCaseResult,
}
use remote_runtime_engine.Store.{SubmissionState}
use remote_runtime_engine.Store.Redis.{StateCodec}
use remote_runtime_engine.Store.Redis.Refinement.{Restores}
use remote_runtime_engine.Tests.Codec.{
  Coder, number, ◌&◌, through, flag, integer, many, text, whole_text, whole_back,
}

module _ {A : Type 0} where
  abbrev option_of : List A → Option A
  option_of [] = none
  option_of (x ∷ xs) = some x

  abbrev of_option : Option A → List A
  of_option none = []
  of_option (some x) = x ∷ []

  pub option_back : (o : Option A) → option_of (of_option o) ≡ o
  option_back none = refl
  option_back (some x) = refl

  abbrev pub maybe : Coder A → Coder (Option A)
  maybe c = through option_of of_option option_back (many c)

abbrev verdict_of : ℕ → Verdict
verdict_of zero = accepted
verdict_of (suc zero) = wrong_answer
verdict_of (suc (suc zero)) = time_limit_exceeded
verdict_of (suc (suc (suc zero))) = memory_limit_exceeded
verdict_of (suc (suc (suc (suc zero)))) = compilation_error
verdict_of (suc (suc (suc (suc (suc zero))))) = runtime_error
verdict_of (suc (suc (suc (suc (suc (suc zero)))))) = output_limit_exceeded
verdict_of _ = system_error

abbrev of_verdict : Verdict → ℕ
of_verdict accepted = 0
of_verdict wrong_answer = 1
of_verdict time_limit_exceeded = 2
of_verdict memory_limit_exceeded = 3
of_verdict compilation_error = 4
of_verdict runtime_error = 5
of_verdict output_limit_exceeded = 6
of_verdict system_error = 7

pub verdict_back : (v : Verdict) → verdict_of (of_verdict v) ≡ v
verdict_back accepted = refl
verdict_back wrong_answer = refl
verdict_back time_limit_exceeded = refl
verdict_back memory_limit_exceeded = refl
verdict_back compilation_error = refl
verdict_back runtime_error = refl
verdict_back output_limit_exceeded = refl
verdict_back system_error = refl

abbrev pub verdict_coder : Coder Verdict
verdict_coder = through verdict_of of_verdict verdict_back number

abbrev status_of : ℕ → EventStatus
status_of zero = queued
status_of (suc zero) = compiling
status_of (suc (suc zero)) = running
status_of (suc (suc (suc zero))) = test_case_start
status_of (suc (suc (suc (suc zero)))) = test_case_passed
status_of (suc (suc (suc (suc (suc zero))))) = test_case_failed
status_of (suc (suc (suc (suc (suc (suc zero)))))) = completed
status_of _ = failed

abbrev of_status : EventStatus → ℕ
of_status queued = 0
of_status compiling = 1
of_status running = 2
of_status test_case_start = 3
of_status test_case_passed = 4
of_status test_case_failed = 5
of_status completed = 6
of_status failed = 7

pub status_back : (v : EventStatus) → status_of (of_status v) ≡ v
status_back queued = refl
status_back compiling = refl
status_back running = refl
status_back test_case_start = refl
status_back test_case_passed = refl
status_back test_case_failed = refl
status_back completed = refl
status_back failed = refl

abbrev pub status_coder : Coder EventStatus
status_coder = through status_of of_status status_back number

abbrev pub compilation : Coder (CompilationResult ℕ)
compilation =
    through
      (λ p. record {
        success = p.0;
        exit_code = p.1.0;
        stdout = p.1.1.0;
        stderr = p.1.1.1.0;
        time_ms = p.1.1.1.1;
      })
      (λ x. (x.success, (x.exit_code, (x.stdout, (x.stderr, x.time_ms))))) (λ x. refl)
      (flag & (integer & (text & (text & number))))

abbrev pub case_result : Coder (TestCaseResult ℕ)
case_result =
    through
      (λ p. record {
        test_case_id = p.0;
        index = p.1.0;
        verdict = p.1.1.0;
        exit_code = p.1.1.1.0;
        stdout = p.1.1.1.1.0;
        stderr = p.1.1.1.1.1.0;
        wall_time_ms = p.1.1.1.1.1.1.0;
        cpu_time_ms = p.1.1.1.1.1.1.1.0;
        peak_memory_mb = p.1.1.1.1.1.1.1.1.0;
        oom_killed = p.1.1.1.1.1.1.1.1.1;
      })
      (λ x. (
        x.test_case_id,
        (
          x.index,
          (
            x.verdict,
            (
              x.exit_code,
              (
                x.stdout,
                (x.stderr, (x.wall_time_ms, (x.cpu_time_ms, (x.peak_memory_mb, x.oom_killed)))),
              ),
            ),
          ),
        ),
      ))
      (λ x. refl)
      (text
        & (number
            & (verdict_coder
                & (integer & (text & (text & (number & (number & (number & flag)))))))))

abbrev pub state_coder : Coder (SubmissionState ℕ)
state_coder =
    through
      (λ p. record {
        submission_id = p.0;
        status = p.1.0;
        verdict = p.1.1.0;
        language = p.1.1.1.0;
        total_test_cases = p.1.1.1.1.0;
        passed_test_cases = p.1.1.1.1.1.0;
        results = p.1.1.1.1.1.1.0;
        compilation = p.1.1.1.1.1.1.1.0;
        peak_memory_mb = p.1.1.1.1.1.1.1.1.0;
        total_cpu_time_ms = p.1.1.1.1.1.1.1.1.1.0;
        total_wall_time_ms = p.1.1.1.1.1.1.1.1.1.1.0;
        error_details = p.1.1.1.1.1.1.1.1.1.1.1.0;
        created_at = p.1.1.1.1.1.1.1.1.1.1.1.1.0;
        updated_at = p.1.1.1.1.1.1.1.1.1.1.1.1.1.0;
        completed_at = p.1.1.1.1.1.1.1.1.1.1.1.1.1.1;
      })
      (λ x. (
        x.submission_id,
        (
          x.status,
          (
            x.verdict,
            (
              x.language,
              (
                x.total_test_cases,
                (
                  x.passed_test_cases,
                  (
                    x.results,
                    (
                      x.compilation,
                      (
                        x.peak_memory_mb,
                        (
                          x.total_cpu_time_ms,
                          (
                            x.total_wall_time_ms,
                            (x.error_details, (x.created_at, (x.updated_at, x.completed_at))),
                          ),
                        ),
                      ),
                    ),
                  ),
                ),
              ),
            ),
          ),
        ),
      ))
      (λ x. refl)
      (text
        & (status_coder
            & (verdict_coder
                & (text
                    & (number
                        & (number
                            & (many case_result
                                & (maybe compilation
                                    & (number
                                        & (number
                                            & (number
                                                & (text
                                                    & (number & (number & maybe number))))))))))))))

abbrev pub state_codec : StateCodec ℕ
state_codec = record {
  marshal = λ j. ok (state_coder.put j);
  unmarshal = λ t. whole_text (state_coder.get t);
}

state_codec-Restores : (st : SubmissionState ℕ) → Restores state_codec st
state_codec-Restores st t e =
    subst (λ u. whole_text (state_coder.get u) ≡ ok st) (ok_injective e) (whole_back state_coder st)
