-- ===== src/Sandbox/DevProcess.antt =====
-- pkg/sandbox/dev_process.go: compilation and execution as a plain process.
use remote_runtime_engine.Base.{
  ℕ, Bool, true, false, ◌||◌, not, List, [], Text, pos, eqb_ℤ, Float, Result, ok, if◌then◌else◌,
}
use remote_runtime_engine.Models.{
  Verdict, CompilationResult, ExecutionResult, time_limit_exceeded, output_limit_exceeded,
  runtime_error, zero_result,
}
use remote_runtime_engine.Models.Request.{ExecutionRequest}
use remote_runtime_engine.Languages.{needs_compilation, run_command}
use remote_runtime_engine.Sandbox.Buffer.{string}
use remote_runtime_engine.Sandbox.Select.{SandboxContext, backend_name, dev_process}
use remote_runtime_engine.Sandbox.Process.{
  Finished, exit_code, captured_stdout, captured_stderr, output_exceeded, over_time, compare_output,
}

-- `targetPath` and the command that runs it.
unfoldable pub dev_command : {F : Type 0} → SandboxContext F → Text × List Text
dev_command c =
    run_command c.language (if needs_compilation c.language then c.binary_path else c.source_path)

-- `Compile`, over the compiler's run; it reports no error of its own. The native sandbox has the
-- same body.
unfoldable pub compile :
    {F : Type 0} → Float F → SandboxContext F → Finished F → Result Text (CompilationResult F)
compile fl c p =
    if not (needs_compilation c.language)
    then ok (record {
      success = true;
      exit_code = pos 0;
      stdout = [];
      stderr = [];
      time_ms = fl.zero_f;
    })
    else ok (record {
      success = eqb_ℤ (exit_code p.wait_error) (pos 0);
      exit_code = exit_code p.wait_error;
      stdout = string (captured_stdout c.request p);
      stderr = string (captured_stderr c.request p);
      time_ms = p.wall_ms;
    })

unfoldable pub dev_verdict :
    {F : Type 0} → Float F → ExecutionRequest F → Bool → Finished F → Verdict
dev_verdict fl r timed_out p =
    if timed_out || over_time fl r p
    then time_limit_exceeded
    else if not (eqb_ℤ (exit_code p.wait_error) (pos 0))
    then runtime_error
    else if output_exceeded r p
    then output_limit_exceeded
    else compare_output r p

pub record DevRun (F : Type 0) : Type 0 where
  pub timed_out : Bool
  pub process : Finished F
  pub executed_at : ℕ

-- `Execute`.
unfoldable pub dev_execute :
    {F : Type 0} → Float F → SandboxContext F → DevRun F → Result Text (ExecutionResult F)
unfolding dev_verdict
dev_execute fl c run =
    ok (record (zero_result fl (dev_verdict fl c.request run.timed_out run.process)) {
      id = c.id;
      exit_code = exit_code run.process.wait_error;
      stdout = string (captured_stdout c.request run.process);
      stderr = string (captured_stderr c.request run.process);
      wall_time_ms = run.process.wall_ms;
      cpu_time_ms = fl.mul run.process.wall_ms (fl.div (fl.of_int (pos 9)) (fl.of_int (pos 10)));
      peak_memory_kb = pos 1024;
      peak_memory_mb = fl.of_int (pos 1);
      oom_killed = false;
      sandbox_backend = backend_name dev_process;
      executed_at = run.executed_at;
    })
