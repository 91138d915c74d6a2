-- ===== src/Sandbox/Docker.antt =====
-- pkg/sandbox/docker.go: the arguments of the container, and the reading of its run.
use remote_runtime_engine.Base.{
  ℕ, suc, ◌<◌, ◌≤◌, ◌≡◌, refl, Bool-cases, inl, inr, arith, ◌+◌, ◌/◌, ◌%◌, Bool, false, ◌||◌, ◌&&◌,
  not, Option, none, some, List, [], ◌∷◌, ◌++◌, Text, codes, ℤ, pos, negsuc, eqb_ℤ, ltb, Float,
  Result, ok, if◌then◌else◌, zero,
}
use remote_runtime_engine.Models.{
  Verdict, ExecutionResult, accepted, time_limit_exceeded, memory_limit_exceeded,
  output_limit_exceeded, runtime_error, zero_result, is_accepted,
}
use remote_runtime_engine.Models.Request.{ExecutionRequest, is_empty}
use remote_runtime_engine.Languages.{
  source_filename, binary_filename, needs_compilation, run_command,
}
use remote_runtime_engine.Sandbox.Buffer.{string}
use remote_runtime_engine.Sandbox.Select.{SandboxContext, backend_name, docker}
use remote_runtime_engine.Sandbox.Process.{
  Finished, WaitError, no_error, exit_error, other_error, captured_stdout, captured_stderr,
  output_exceeded, over_time, compare_output,
}

-- The digits of a number, in front of `rest`; the fuel is above the number.
unfoldable pub decimal_from : ℕ → ℕ → Text → Text
decimal_from zero n rest = rest
decimal_from (suc fuel) n rest =
    let more = decimal_from fuel (n / 10) ((48 + n % 10) ∷ rest) in
    if ltb n 10 then (48 + n) ∷ rest else more

-- Any fuel above the number gives the same digits.
decimal_from-enough :
    (f g n : ℕ) (rest : Text) → n < f → n < g → decimal_from f n rest ≡ decimal_from g n rest
unfolding decimal_from
decimal_from-enough zero g n rest h k = absurd (omega (arith, h))
decimal_from-enough (suc f) zero n rest h k = absurd (omega (arith, k))
decimal_from-enough (suc f) (suc g) n rest h k = elim (Bool-cases (ltb n 10)) [
  | inl e ↦ rw (e) refl
  | inr e ↦
      (let big : 10 ≤ n = ground (arith, e) in
        rw (e) (
          decimal_from-enough f g (n / 10) ((48 + n % 10) ∷ rest) (omega (arith, h, big))
            (omega (arith, k, big))))
]

-- `%d`
unfoldable pub decimal : ℤ → Text
unfolding decimal_from
decimal (pos n) = decimal_from (suc n) n []
decimal (negsuc n) = b'-' ∷ decimal_from (suc (suc n)) (suc n) []

-- The file that runs, under the container's mount.
unfoldable pub target_file : {F : Type 0} → SandboxContext F → Text
target_file c =
    if needs_compilation c.language
    then codes "/workspace/" ++ binary_filename c.language
    else codes "/workspace/" ++ source_filename c.language

-- The options of the container and its image, in front of the command.
unfoldable pub container_options : {F : Type 0} → Float F → Text → ℤ → SandboxContext F → List Text
unfolding decimal
container_options fl image core c =
    codes "run"
    ∷ codes "-i"
    ∷ codes "--name"
    ∷ (codes "speedcode-exec-" ++ c.id)
    ∷ codes "--network"
    ∷ codes "none"
    ∷ codes "--read-only"
    ∷ codes "--tmpfs"
    ∷ codes "/tmp:rw,noexec,nosuid,nodev,size=64m"
    ∷ codes "--memory"
    ∷ (decimal c.request.memory_limit_mb ++ codes "m")
    ∷ codes "--memory-swap"
    ∷ (decimal c.request.memory_limit_mb ++ codes "m")
    ∷ codes "--cpus"
    ∷ fl.two_decimals c.request.cpu_quota
    ∷ codes "--cpuset-cpus"
    ∷ decimal core
    ∷ codes "--pids-limit"
    ∷ decimal c.request.pids_limit
    ∷ codes "--cap-drop"
    ∷ codes "ALL"
    ∷ codes "--security-opt"
    ∷ codes "no-new-privileges"
    ∷ codes "-v"
    ∷ (c.working_dir ++ codes ":/workspace:ro")
    ∷ codes "-w"
    ∷ codes "/workspace"
    ∷ image
    ∷ []

-- `dockerArgs`, the submitted program's command at the end.
unfoldable pub docker_args : {F : Type 0} → Float F → Text → ℤ → SandboxContext F → List Text
unfolding container_options target_file
docker_args fl image core c =
    let command = run_command c.language (target_file c) in
    container_options fl image core c ++ command.0 ∷ command.1

-- What `docker inspect` prints of the container, decoded: exit code and OOM flag, unless the call or
-- the decoding fails or the list is empty.
unfoldable pub inspect_container : Option (ℤ × Bool) → ℤ × Bool × ℤ
inspect_container none = (pos 0, false, pos 0)
inspect_container (some (exit, oom)) = (exit, oom, pos 0)

pub record DockerRun (F : Type 0) : Type 0 where
  pub process : Finished F
  pub inspected : Option (ℤ × Bool)
  pub executed_at : ℕ

-- `if err != nil && exitCode == 0`
unfoldable pub docker_exit_code : WaitError → ℤ → ℤ
docker_exit_code no_error code = code
docker_exit_code (exit_error c) code = if eqb_ℤ code (pos 0) then c else code
docker_exit_code other_error code = if eqb_ℤ code (pos 0) then negsuc 0 else code

-- `wallDuration >= float64(TimeLimitMs)`
unfoldable pub at_limit : {F : Type 0} → Float F → ExecutionRequest F → Finished F → Bool
at_limit fl r p = fl.le (fl.of_int r.time_limit_ms) p.wall_ms

-- The first `if`, which sets the verdict that the second one starts from.
unfoldable pub timed_verdict :
    {F : Type 0} → Float F → ExecutionRequest F → ℤ → Bool → Finished F → Verdict
unfolding at_limit
timed_verdict fl r exit oom p =
    if over_time fl r p || (eqb_ℤ exit (pos 124) || (eqb_ℤ exit (pos 137) && not oom))
    then (if at_limit fl r p then time_limit_exceeded else accepted)
    else accepted

unfoldable pub docker_verdict :
    {F : Type 0} → Float F → ExecutionRequest F → ℤ → Bool → Finished F → Verdict
unfolding timed_verdict
docker_verdict fl r exit oom p =
    let verdict = timed_verdict fl r exit oom p in
    if oom || (eqb_ℤ exit (pos 137) && oom)
    then memory_limit_exceeded
    else if is_accepted verdict && not (eqb_ℤ exit (pos 0))
    then runtime_error
    else if output_exceeded r p
    then output_limit_exceeded
    else if is_accepted verdict && not (is_empty r.expected_output)
    then compare_output r p
    else verdict

-- `Execute`. The estimate of the CPU time is nine tenths of the wall time.
unfoldable pub docker_execute :
    {F : Type 0} → Float F → SandboxContext F → DockerRun F → Result Text (ExecutionResult F)
unfolding docker_verdict inspect_container docker_exit_code
docker_execute fl c run =
    let (exit, oom, peak) = inspect_container run.inspected in
    let code = docker_exit_code run.process.wait_error exit in
    ok (record (zero_result fl (docker_verdict fl c.request code oom run.process)) {
      id = c.id;
      exit_code = code;
      stdout = string (captured_stdout c.request run.process);
      stderr = string (captured_stderr c.request run.process);
      wall_time_ms = run.process.wall_ms;
      cpu_time_ms = fl.mul run.process.wall_ms (fl.div (fl.of_int (pos 9)) (fl.of_int (pos 10)));
      peak_memory_kb = pos 0;
      peak_memory_mb = fl.div (fl.of_int peak) (fl.of_int (pos 1048576));
      oom_killed = oom;
      sandbox_backend = backend_name docker;
      executed_at = run.executed_at;
    })
