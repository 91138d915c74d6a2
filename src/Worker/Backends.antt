-- ===== src/Worker/Backends.antt =====
-- The three backends of pkg/sandbox as the sandboxes of a worker, over a machine with a file system and
-- the programs that they start.
use remote_runtime_engine.Base.{
  ℕ, none, some, List, [], ◌∷◌, ◌++◌, Text, codes, Float, Result, ok, err, CaseTable, if◌then◌else◌,
}
use remote_runtime_engine.Models.{CompilationResult}
use remote_runtime_engine.Models.Request.{Entropy, is_empty}
use remote_runtime_engine.Languages.{
  source_filename, binary_filename, compile_command, needs_compilation,
}
use remote_runtime_engine.Sandbox.Select.{
  SandboxContext, Backend, native, docker, dev_process, Host,
}
use remote_runtime_engine.Sandbox.Process.{Finished, no_error}
use remote_runtime_engine.Sandbox.Native.{NativeRun, native_execute}
use remote_runtime_engine.Sandbox.Docker.{DockerRun, docker_execute}
use remote_runtime_engine.Sandbox.DevProcess.{DevRun, dev_execute, compile}
use remote_runtime_engine.Sandbox.Files.{FileSystem, Machine}
use remote_runtime_engine.Sandbox.Workspace.{
  docker_prepare, docker_cleanup, dev_prepare, dev_cleanup, native_prepare, native_cleanup,
}
use remote_runtime_engine.Worker.{Env, Sandbox, ret, Compiled}

-- `NewDockerSandbox`: the image of the environment, or the fallback.
unfoldable pub docker_image : Text → Text
docker_image runner_image = if is_empty runner_image then codes "ubuntu:22.04" else runner_image

-- The arguments of `docker` that compile a program.
unfoldable pub docker_compile_args : {F : Type 0} → Text → SandboxContext F → List Text
docker_compile_args image c =
    let command =
      compile_command c.language (source_filename c.language) (binary_filename c.language) in
    codes "run"
    ∷ codes "--rm"
    ∷ codes "--network"
    ∷ codes "none"
    ∷ codes "-v"
    ∷ (c.working_dir ++ codes ":/workspace:rw")
    ∷ codes "-w"
    ∷ codes "/workspace"
    ∷ image
    ∷ command.0
    ∷ command.1

-- The host around the file system: its clock, its properties and random bytes, and the programs that
-- the backends start, by what they are told: a directory and a command, or the arguments of `docker`.
pub record Programs (S F : Type 0) : Type 0 where
  pub now : S → ℕ × S
  pub host : S → Host × S
  pub entropy : S → Entropy × S
  pub compiler : Text → Text × List Text → S → Finished F × S
  pub docker_compiler : List Text → S → Finished F × S
  pub native_run : SandboxContext F → S → NativeRun F × S
  pub docker_run : SandboxContext F → S → DockerRun F × S
  pub dev_run : SandboxContext F → S → DevRun F × S
  pub table : CaseTable
  pub stack : Text → Text

-- Neither compilation reports an error of its own.
abbrev pub compiled : {F : Type 0} → Result Text (CompilationResult F) → Compiled F
compiled (ok k) = record { result = some k; error = none }
compiled (err e) = record { result = none; error = some e }

-- A call of the host that is no call of the file system.
abbrev pub with_os : {S A : Type 0} → (S → A × S) → Machine S → A × Machine S
with_os f m = let (a, os) = f m.os in (a, record m { os = os })

module _ {S F : Type 0} (fl : Float F) (fs : FileSystem S) (ps : Programs S F) (image : Text) where
  -- `Compile` where the language needs it, over a run of the compiler.
  abbrev pub compile_with :
      (SandboxContext F → S → Finished F × S)
      → SandboxContext F
      → Machine S
      → Compiled F × Machine S
  compile_with run c m =
      if needs_compilation c.language
      then (let (p, m') = with_os (run c) m in (compiled (compile fl c p), m'))
      else (
        compiled (
            compile fl c
              (record { stdout = []; stderr = []; wait_error = no_error; wall_ms = fl.zero_f })),
        m,
      )

  abbrev pub on_machine : SandboxContext F → S → Finished F × S
  on_machine c = ps.compiler c.working_dir (compile_command c.language c.source_path c.binary_path)

  abbrev pub in_container : SandboxContext F → S → Finished F × S
  in_container c = ps.docker_compiler (docker_compile_args image c)

  -- `Compile` of the native sandbox.
  abbrev pub native_compile : SandboxContext F → Machine S → Compiled F × Machine S
  native_compile = compile_with on_machine

  unfoldable pub native_sandbox : Sandbox (Machine S) F
  native_sandbox = record {
    prepare = λ r lang m.
        let (t, m₁) = with_os ps.now m in
        let (c, m₂) = native_prepare fl fs t r lang m₁ in (ret c, m₂);
    compile = λ c m. let (k, m') = native_compile c m in (ret k, m');
    execute =
        λ c m. let (run, m') = with_os (ps.native_run c) m in (ret (native_execute fl c run), m');
    cleanup = λ c m. (native_cleanup fs c m).1;
  }

  unfoldable pub docker_sandbox : Sandbox (Machine S) F
  docker_sandbox = record {
    prepare = λ r lang m.
        let (t, m₁) = with_os ps.now m in
        let (c, m₂) = docker_prepare fs t r lang m₁ in (ret c, m₂);
    compile = λ c m. let (k, m') = compile_with in_container c m in (ret k, m');
    execute =
        λ c m. let (run, m') = with_os (ps.docker_run c) m in (ret (docker_execute fl c run), m');
    cleanup = λ c m. (docker_cleanup fs c m).1;
  }

  unfoldable pub dev_sandbox : Sandbox (Machine S) F
  dev_sandbox = record {
    prepare = λ r lang m.
        let (t, m₁) = with_os ps.now m in let (c, m₂) = dev_prepare fs t r lang m₁ in (ret c, m₂);
    compile = λ c m. let (k, m') = compile_with on_machine c m in (ret k, m');
    execute = λ c m. let (run, m') = with_os (ps.dev_run c) m in (ret (dev_execute fl c run), m');
    cleanup = λ c m. (dev_cleanup fs c m).1;
  }

  unfoldable pub sandbox_of : Backend → Sandbox (Machine S) F
  sandbox_of native = native_sandbox
  sandbox_of docker = docker_sandbox
  sandbox_of dev_process = dev_sandbox

  -- A worker with these sandboxes.
  abbrev pub machine_env : Env (Machine S) F
  machine_env = record {
    host = with_os ps.host;
    now = with_os ps.now;
    entropy = with_os ps.entropy;
    sandbox = sandbox_of;
    table = ps.table;
    stack = ps.stack;
  }

-- The stub of native_fallback.go that stands for the native sandbox off Linux.
abbrev pub only_on_linux : Text
only_on_linux = codes "native cgroup v2 sandbox is only supported on Linux hosts"

unfoldable pub fallback_sandbox : {S F : Type 0} → Sandbox S F
fallback_sandbox = record {
  prepare = λ r lang s. (ret (err only_on_linux), s);
  compile = λ c s. (ret (compiled (err only_on_linux)), s);
  execute = λ c s. (ret (err only_on_linux), s);
  cleanup = λ c s. s;
}
