-- ===== src/Models.antt =====
-- pkg/models/verdicts.go and pkg/models/result.go: the verdicts and the results of an execution.
pub mod Request
pub mod Bounds
use remote_runtime_engine.Base.{
  ℕ, ℤ, pos, ◌≡◌, refl, Bool, true, false, Option, none, some, Text, codes, Float, [],
}

-- `Verdict` is a string type; these are its constants.
pub data Verdict : Type 0 where
  accepted wrong_answer time_limit_exceeded memory_limit_exceeded : Verdict
  compilation_error runtime_error output_limit_exceeded system_error : Verdict

-- `Verdict.String`.
unfoldable pub verdict_string : Verdict → Text
verdict_string accepted = codes "ACCEPTED"
verdict_string wrong_answer = codes "WRONG_ANSWER"
verdict_string time_limit_exceeded = codes "TIME_LIMIT_EXCEEDED"
verdict_string memory_limit_exceeded = codes "MEMORY_LIMIT_EXCEEDED"
verdict_string compilation_error = codes "COMPILATION_ERROR"
verdict_string runtime_error = codes "RUNTIME_ERROR"
verdict_string output_limit_exceeded = codes "OUTPUT_LIMIT_EXCEEDED"
verdict_string system_error = codes "SYSTEM_ERROR"

-- `v == VerdictAccepted`.
unfoldable pub is_accepted : Verdict → Bool
is_accepted accepted = true
is_accepted _ = false

pub record CompilationResult (F : Type 0) : Type 0 where
  pub success : Bool
  pub exit_code : ℤ
  pub stdout : Text
  pub stderr : Text
  pub time_ms : F

-- Times are counted from the zero time.
pub record ExecutionResult (F : Type 0) : Type 0 where
  pub id : Text
  pub verdict : Verdict
  pub exit_code : ℤ
  pub stdout : Text
  pub stderr : Text
  pub wall_time_ms : F
  pub cpu_time_ms : F
  pub peak_memory_kb : ℤ
  pub peak_memory_mb : F
  pub oom_killed : Bool
  pub compilation : Option (CompilationResult F)
  pub error_details : Text
  pub sandbox_backend : Text
  pub executed_at : ℕ

-- The literal `ExecutionResult{}`, from which the others are built.
abbrev pub zero_result : {F : Type 0} → Float F → Verdict → ExecutionResult F
zero_result fl v = record {
  id = [];
  verdict = v;
  exit_code = pos 0;
  stdout = [];
  stderr = [];
  wall_time_ms = fl.zero_f;
  cpu_time_ms = fl.zero_f;
  peak_memory_kb = pos 0;
  peak_memory_mb = fl.zero_f;
  oom_killed = false;
  compilation = none;
  error_details = [];
  sandbox_backend = [];
  executed_at = 0;
}
