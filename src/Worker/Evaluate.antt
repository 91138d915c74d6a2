-- ===== src/Worker/Evaluate.antt =====
-- pkg/worker/worker.go: the evaluation of one job, from its first event to its final state, and
-- `failSubmission`.
use remote_runtime_engine.Base.{
  ℕ, false, Option, none, some, List, [], ◌∷◌, ◌++◌, Text, codes, Float, length, if◌then◌else◌,
}
use remote_runtime_engine.Models.{
  Verdict, CompilationResult, accepted, compilation_error, memory_limit_exceeded,
  time_limit_exceeded,
}
use remote_runtime_engine.Models.Request.{ExecutionRequest}
use remote_runtime_engine.Sandbox.Select.{SandboxContext, Backend, backend_name}
use remote_runtime_engine.Sandbox.Docker.{decimal}
use remote_runtime_engine.Queue.{TestCase, SubmissionJob}
use remote_runtime_engine.Events.{ExecutionEvent, plain_event, running, completed, failed}
use remote_runtime_engine.Store.{SubmissionState, plain_state}
use remote_runtime_engine.Worker.{
  Job, Env, Compiled, ◌>>=◌, ◌>>◌, pure, emit, on_host, publishes, saves, records, audits, violates,
  memory_oom, timeout_exceeded, syscall_blocked, compilation_failure,
}
use remote_runtime_engine.Worker.Case.{Progress, publish_now, run_cases}

-- A job without test cases is run once, with no input.
abbrev pub default_case : TestCase
default_case = record {
  id = codes "tc-default";
  input = [];
  expected_output = [];
  is_hidden = false;
}

unfoldable pub cases_of : {F : Type 0} → SubmissionJob F → List TestCase
cases_of j = elim j.test_cases [ [] ↦ default_case ∷ [] | tc ∷ tcs ↦ tc ∷ tcs ]

-- The request that the sandbox is prepared for, before `Normalize`.
unfoldable pub request_of : {F : Type 0} → SubmissionJob F → ExecutionRequest F
request_of j = record {
  id = j.submission_id;
  language = j.language;
  code = j.code;
  stdin = [];
  expected_output = [];
  time_limit_ms = j.time_limit_ms;
  memory_limit_mb = j.memory_limit_mb;
  cpu_quota = j.cpu_quota;
  pids_limit = j.pids_limit;
  max_output_bytes = j.max_output_bytes;
  sandbox_type = j.sandbox_type;
}

-- `err != nil || (compResult != nil && !compResult.Success)`, with the text that is reported.
unfoldable pub compile_failure : {F : Type 0} → Compiled F → Option Text
compile_failure c = elim c.error [
  | some e ↦ some e
  | none ↦ elim c.result [ none ↦ none | some r ↦ if r.success then none else some r.stderr ]
]

abbrev pub start_progress : {F : Type 0} → Float F → Progress F
start_progress fl = record {
  index = 0;
  results = [];
  verdict = accepted;
  peak = fl.zero_f;
  wall = fl.zero_f;
  cpu = fl.zero_f;
  passed = 0;
}

module _ {S F : Type 0} (fl : Float F) (env : Env S F) where
  -- `SaveState`, which stamps the state that it is given.
  unfoldable pub save : SubmissionState F → Job S F (Unit {0})
  save s = do t ← on_host env.now; emit (saves (record s { updated_at = t }))

  -- `failSubmission`.
  unfoldable pub fail_submission :
      Text → Text → ℕ → Verdict → Text → Option (CompilationResult F) → Job S F (Unit {0})
  unfolding save
  fail_submission id lang total verdict details comp = do
    now ← on_host env.now
    save (record (plain_state fl id failed verdict lang) {
      total_test_cases = total;
      compilation = comp;
      error_details = details;
      created_at = now;
      completed_at = some now;
    })
    emit (records lang verdict (codes "unknown") fl.zero_f fl.zero_f fl.zero_f)
    emit (violates (elim verdict [ compilation_error ↦ compilation_failure | _ ↦ syscall_blocked ]))
    emit (
        publishes id (record (plain_event fl id failed) {
          verdict = some verdict;
          compilation = comp;
          error_details = details;
          timestamp = now;
        }))

  -- The state as the evaluation starts.
  unfoldable pub running_state :
      SubmissionJob F → ℕ → Option (CompilationResult F) → SubmissionState F
  running_state j total comp = record (plain_state fl j.submission_id running accepted j.language) {
    total_test_cases = total;
    compilation = comp;
    created_at = j.enqueued_at;
  }

  -- The security audit of a completed submission, by its verdict.
  unfoldable pub audit : SubmissionJob F → Backend → Progress F → Verdict → Job S F (Unit {0})
  audit j b p memory_limit_exceeded = do
    emit (
        audits j.submission_id j.language (backend_name b) memory_oom (
          codes "Memory limit exceeded: "
          ++ (fl.two_decimals p.peak
              ++ (codes "MB > " ++ (decimal j.memory_limit_mb ++ codes "MB")))))
    emit (violates memory_oom)
  audit j b p time_limit_exceeded = do
    emit (
        audits j.submission_id j.language (backend_name b) timeout_exceeded (
          codes "Time limit exceeded: "
          ++ (fl.two_decimals p.wall
              ++ (codes "ms > " ++ (decimal j.time_limit_ms ++ codes "ms")))))
    emit (violates timeout_exceeded)
  audit j b p _ = pure tt

  -- The state after the loop, completed at `now`.
  unfoldable pub final_state :
      SubmissionJob F → ℕ → Option (CompilationResult F) → Progress F → ℕ → SubmissionState F
  unfolding running_state
  final_state j total comp p now = record (running_state j total comp) {
    status = completed;
    verdict = p.verdict;
    passed_test_cases = p.passed;
    results = p.results;
    peak_memory_mb = p.peak;
    total_cpu_time_ms = p.cpu;
    total_wall_time_ms = p.wall;
    completed_at = some now;
  }

  -- The event that ends a completed submission.
  unfoldable pub final_event :
      SubmissionJob F → ℕ → Option (CompilationResult F) → Progress F → ℕ → ExecutionEvent F
  final_event j total comp p now = record (plain_event fl j.submission_id completed) {
    verdict = some p.verdict;
    current_test_case = total;
    total_test_cases = total;
    wall_time_ms = p.wall;
    cpu_time_ms = p.cpu;
    peak_memory_mb = p.peak;
    compilation = comp;
    timestamp = now;
  }

  -- Phase 6: the final state, the metrics, the audit and the final event.
  unfoldable pub complete :
      SubmissionJob F → ℕ → Backend → Option (CompilationResult F) → Progress F → Job S F (Unit {0})
  unfolding save final_state final_event audit
  complete j total b comp p = do
    now ← on_host env.now
    save (final_state j total comp p now)
    emit (records j.language p.verdict (backend_name b) p.wall p.cpu p.peak)
    audit j b p p.verdict
    emit (publishes j.submission_id (final_event j total comp p now))

  -- The event and the state that open the evaluation.
  unfoldable pub start_evaluation :
      SubmissionJob F → ℕ → Option (CompilationResult F) → Job S F (Unit {0})
  unfolding publish_now save running_state
  start_evaluation j total comp = do
    publish_now fl env j.submission_id (record (plain_event fl j.submission_id running) {
      total_test_cases = total;
      compilation = comp;
    })
    save (running_state j total comp)

  -- Phases 5 and 6.
  unfoldable pub evaluate :
      SubmissionJob F
      → Backend
      → SandboxContext F
      → Option (CompilationResult F)
      → Job S F (Unit {0})
  evaluate j b c comp = do
    start_evaluation j (length (cases_of j)) comp
    p ← run_cases fl env j.submission_id (length (cases_of j)) b c (cases_of j) (start_progress fl)
    complete j (length (cases_of j)) b comp p
