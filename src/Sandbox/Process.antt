-- ===== src/Sandbox/Process.antt =====
-- What the three backends of pkg/sandbox share: how a finished process is read, and the comparison
-- of its output with the expected one.
use remote_runtime_engine.Base.{
  ℕ, Bool, not, ◌||◌, List, text_eq, trim_newlines, ℤ, pos, negsuc, Float, if◌then◌else◌,
}
use remote_runtime_engine.Models.{Verdict, accepted, wrong_answer}
use remote_runtime_engine.Models.Request.{ExecutionRequest, is_empty}
use remote_runtime_engine.Sandbox.Buffer.{BoundedBuffer, capture, string, exceeded}

-- The error of `cmd.Run` or `cmd.Wait`: nil, an `*exec.ExitError` with its code, or any other.
pub data WaitError : Type 0 where
  no_error : WaitError
  exit_error : ℤ → WaitError
  other_error : WaitError

-- `exitCode`, which is -1 for an error that is no exit.
unfoldable pub exit_code : WaitError → ℤ
exit_code no_error = pos 0
exit_code (exit_error c) = c
exit_code other_error = negsuc 0

-- A process as the host saw it: what it wrote in parts, how it ended, and for how long it ran.
pub record Finished (F : Type 0) : Type 0 where
  pub stdout : List (List ℕ)
  pub stderr : List (List ℕ)
  pub wait_error : WaitError
  pub wall_ms : F

unfoldable pub captured_stdout : {F : Type 0} → ExecutionRequest F → Finished F → BoundedBuffer
captured_stdout r p = capture r.max_output_bytes p.stdout

unfoldable pub captured_stderr : {F : Type 0} → ExecutionRequest F → Finished F → BoundedBuffer
captured_stderr r p = capture r.max_output_bytes p.stderr

-- `stdoutBuf.Exceeded() || stderrBuf.Exceeded()`
unfoldable pub output_exceeded : {F : Type 0} → ExecutionRequest F → Finished F → Bool
output_exceeded r p = exceeded (captured_stdout r p) || exceeded (captured_stderr r p)

-- Whether the captured output differs from the expected one, line ends at its end aside.
unfoldable pub output_differs : {F : Type 0} → ExecutionRequest F → Finished F → Bool
output_differs r p =
    not (text_eq (trim_newlines (string (captured_stdout r p))) (trim_newlines r.expected_output))

-- `wallDuration > float64(TimeLimitMs)`
unfoldable pub over_time : {F : Type 0} → Float F → ExecutionRequest F → Finished F → Bool
over_time fl r p = fl.lt (fl.of_int r.time_limit_ms) p.wall_ms

-- The last case of each backend: the output matters only if one is expected.
unfoldable pub compare_output : {F : Type 0} → ExecutionRequest F → Finished F → Verdict
compare_output r p =
    if not (is_empty r.expected_output)
    then (if output_differs r p then wrong_answer else accepted)
    else accepted
