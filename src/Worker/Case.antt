-- ===== src/Worker/Case.antt =====
-- pkg/worker/worker.go, lines 145 to 230: the evaluation of the test cases.
use remote_runtime_engine.Base.{
  ℕ, suc, ◌&&◌, not, some, List, [], ◌∷◌, ◌++◌, Text, codes, Float, Result, ok, err, if◌then◌else◌,
}
use remote_runtime_engine.Models.{Verdict, ExecutionResult, is_accepted, system_error, zero_result}
use remote_runtime_engine.Sandbox.Select.{SandboxContext, Backend, backend_name}
use remote_runtime_engine.Queue.{TestCase}
use remote_runtime_engine.Events.{
  TestCaseResult, ExecutionEvent, plain_event, test_case_start, test_case_passed, test_case_failed,
}
use remote_runtime_engine.Worker.{Job, Env, ◌>>=◌, ◌>>◌, pure, emit, on_host, guarded, publishes}

-- The variables of the loop; `results` is `currentState.Results`, and `index` counts the cases done.
pub record Progress (F : Type 0) : Type 0 where
  pub index : ℕ
  pub results : List (TestCaseResult F)
  pub verdict : Verdict
  pub peak : F
  pub wall : F
  pub cpu : F
  pub passed : ℕ

abbrev pub hidden_text : Text
hidden_text = codes "[Hidden Testcase]"

-- What a result shows of the output: a failed hidden case shows nothing.
unfoldable pub shown : {F : Type 0} → TestCase → ExecutionResult F → Text → Text
shown tc r text = if tc.is_hidden && not (is_accepted r.verdict) then hidden_text else text

-- `resultItem`.
unfoldable pub result_item : {F : Type 0} → ℕ → TestCase → ExecutionResult F → TestCaseResult F
unfolding shown
result_item i tc r = record {
  test_case_id = tc.id;
  index = i;
  verdict = r.verdict;
  exit_code = r.exit_code;
  stdout = shown tc r r.stdout;
  stderr = shown tc r r.stderr;
  wall_time_ms = r.wall_time_ms;
  cpu_time_ms = r.cpu_time_ms;
  peak_memory_mb = r.peak_memory_mb;
  oom_killed = r.oom_killed;
}

-- The effect of one case on the variables.
unfoldable pub score :
    {F : Type 0} → Float F → Progress F → TestCase → ExecutionResult F → Progress F
unfolding result_item
score fl p tc r = record {
  index = suc p.index;
  results = p.results ++ result_item (suc p.index) tc r ∷ [];
  verdict =
      if is_accepted r.verdict
      then p.verdict
      else if is_accepted p.verdict
      then r.verdict
      else p.verdict;
  peak = if fl.lt p.peak r.peak_memory_mb then r.peak_memory_mb else p.peak;
  wall = fl.add p.wall r.wall_time_ms;
  cpu = fl.add p.cpu r.cpu_time_ms;
  passed = if is_accepted r.verdict then suc p.passed else p.passed;
}

module _ {S F : Type 0} (fl : Float F) (env : Env S F) where
  -- `Publish` of an event with `Timestamp: time.Now()`.
  unfoldable pub publish_now : Text → ExecutionEvent F → Job S F (Unit {0})
  publish_now id e = do t ← on_host env.now; emit (publishes id (record e { timestamp = t }))

  -- The result that stands for an error of `Execute`.
  unfoldable pub or_system_error :
      Text → Backend → Result Text (ExecutionResult F) → Job S F (ExecutionResult F)
  or_system_error id b (ok r) = pure r
  or_system_error id b (err e) = do
    t ← on_host env.now
    pure (record (zero_result fl system_error) {
      id = id;
      error_details = e;
      sandbox_backend = backend_name b;
      executed_at = t;
    })

  unfoldable pub execute_case : Text → Backend → SandboxContext F → Job S F (ExecutionResult F)
  unfolding or_system_error
  execute_case id b c = do r ← guarded ((env.sandbox b).execute c); or_system_error id b r

  -- The event of a finished case.
  unfoldable pub case_event : Text → ℕ → ℕ → TestCase → ExecutionResult F → ExecutionEvent F
  unfolding result_item
  case_event id total i tc r =
      if is_accepted r.verdict
      then record (plain_event fl id test_case_passed) {
        current_test_case = i;
        total_test_cases = total;
        test_case_result = some (result_item i tc r);
        wall_time_ms = r.wall_time_ms;
        peak_memory_mb = r.peak_memory_mb;
      }
      else record (plain_event fl id test_case_failed) {
        current_test_case = i;
        total_test_cases = total;
        verdict = some r.verdict;
        test_case_result = some (result_item i tc r);
        wall_time_ms = r.wall_time_ms;
        peak_memory_mb = r.peak_memory_mb;
      }

  -- The context with the input and the expected output of a case.
  unfoldable pub case_context : SandboxContext F → TestCase → SandboxContext F
  case_context c tc = record c {
    request = record (c.request) { stdin = tc.input; expected_output = tc.expected_output };
  }

  -- The event that opens a case.
  unfoldable pub start_event : Text → ℕ → ℕ → ExecutionEvent F
  start_event id total i = record (plain_event fl id test_case_start) {
    current_test_case = i;
    total_test_cases = total;
  }

  -- The body of the loop.
  unfoldable pub run_case :
      Text → ℕ → Backend → SandboxContext F → TestCase → Progress F → Job S F (Progress F)
  run_case id total b c tc p = do
    publish_now id (start_event id total (suc p.index))
    r ← execute_case id b (case_context c tc)
    publish_now id (case_event id total (suc p.index) tc r)
    pure (score fl p tc r)

  -- `for i, tc := range job.TestCases`
  unfoldable pub run_cases :
      Text → ℕ → Backend → SandboxContext F → List TestCase → Progress F → Job S F (Progress F)
  run_cases id total b c [] p = pure p
  run_cases id total b c (tc ∷ tcs) p = do
    p' ← run_case id total b c tc p
    run_cases id total b c tcs p'
