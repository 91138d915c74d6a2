-- ===== src/Events.antt =====
-- pkg/events/events.go: the progress of a submission as events.
pub mod MemoryBus
pub mod Redis
pub mod Sound
pub mod Delivery
pub mod Shutdown
pub mod Exact
use remote_runtime_engine.Base.{ℕ, Bool, true, false, Option, none, [], Text, ℤ, Float}
use remote_runtime_engine.Models.{Verdict, CompilationResult}

-- `EventStatus` is a string type; these are its constants.
pub data EventStatus : Type 0 where
  queued compiling running test_case_start test_case_passed test_case_failed : EventStatus
  completed failed : EventStatus

-- `Status == StatusCompleted || Status == StatusFailed`.
unfoldable pub is_final : EventStatus → Bool
is_final completed = true
is_final failed = true
is_final _ = false

pub record TestCaseResult (F : Type 0) : Type 0 where
  pub test_case_id : Text
  pub index : ℕ
  pub verdict : Verdict
  pub exit_code : ℤ
  pub stdout : Text
  pub stderr : Text
  pub wall_time_ms : F
  pub cpu_time_ms : F
  pub peak_memory_mb : F
  pub oom_killed : Bool

-- The empty verdict of an event that has none is `none`.
pub record ExecutionEvent (F : Type 0) : Type 0 where
  pub submission_id : Text
  pub status : EventStatus
  pub timestamp : ℕ
  pub current_test_case : ℕ
  pub total_test_cases : ℕ
  pub verdict : Option Verdict
  pub test_case_result : Option (TestCaseResult F)
  pub compilation : Option (CompilationResult F)
  pub stdout_chunk : Text
  pub stderr_chunk : Text
  pub wall_time_ms : F
  pub cpu_time_ms : F
  pub peak_memory_mb : F
  pub error_details : Text

-- The literal with a submission, a status and a time, and nothing else.
abbrev pub plain_event : {F : Type 0} → Float F → Text → EventStatus → ExecutionEvent F
plain_event fl id s = record {
  submission_id = id;
  status = s;
  timestamp = 0;
  current_test_case = 0;
  total_test_cases = 0;
  verdict = none;
  test_case_result = none;
  compilation = none;
  stdout_chunk = [];
  stderr_chunk = [];
  wall_time_ms = fl.zero_f;
  cpu_time_ms = fl.zero_f;
  peak_memory_mb = fl.zero_f;
  error_details = [];
}
