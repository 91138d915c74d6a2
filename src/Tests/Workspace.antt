-- ===== src/Tests/Workspace.antt =====
-- A machine whose clock and directories are one counter, and whose programs print nothing: the theorems
-- about directories, cgroups and cores at concrete inputs.
use remote_runtime_engine.Base.{
  ℕ, suc, false, none, some, [], ◌++◌, codes, pos, ok, ◌==◌, if◌then◌else◌,
}
use remote_runtime_engine.Languages.{cpp}
use remote_runtime_engine.Models.Request.{ExecutionRequest}
use remote_runtime_engine.Sandbox.Process.{Finished, no_error}
use remote_runtime_engine.Sandbox.Files.{FileSystem}
use remote_runtime_engine.Sandbox.Workspace.{
  context, cgroup_base_slice, ephemeral_workspace, native_prepare,
}
use remote_runtime_engine.Sandbox.Workspace.Limits.{Ends, native_prepare-Ends}
use remote_runtime_engine.Sandbox.Workspace.Left.{left}
use remote_runtime_engine.Worker.Process.{process_job}
use remote_runtime_engine.Worker.Backends.{Programs, machine_env}
use remote_runtime_engine.Worker.Home.{Clean, process_job-Clean}
use remote_runtime_engine.Tests.{whole, ascii, entropy, sample_job}

-- A file system where a write fails while the counter is 2.
abbrev disk : FileSystem ℕ
disk = record {
  join = λ a b. a ++ codes "/" ++ b;
  mkdir_temp = λ p n. (ok (codes "/tmp/" ++ p), suc n);
  mkdir_all = λ p n. (none, suc n);
  write_file = λ p t n. (if n == 2 then some (codes "disk full") else none, suc n);
  remove_all = λ p n. (none, n);
  remove = λ p n. (none, n);
  stat = λ p n. (none, n);
  chown = λ p u g n. (none, n);
  chmod = λ p m n. (none, n);
}

abbrev silent : Finished ℕ
silent = record { stdout = []; stderr = []; wait_error = no_error; wall_ms = 1 }

abbrev programs : Programs ℕ ℕ
programs = record {
  now = λ n. (n, n);
  host = λ n. (
    record {
      goos = codes "linux";
      statfs_ok = false;
      statfs_type = 0;
      euid = 1000;
      docker_info_ok = false;
    },
    n,
  );
  entropy = λ n. (entropy, n);
  compiler = λ d c n. (silent, n);
  docker_compiler = λ a n. (silent, n);
  native_run = λ c n. (
    record {
      start_error = some (codes "no such file");
      attach_error = none;
      timed_out = false;
      process = silent;
      files = record { memory_peak = none; memory_events = none; cpu_stat = none };
      rusage = none;
      executed_at = n;
    },
    n,
  );
  docker_run = λ c n. (record { process = silent; inspected = none; executed_at = n }, n);
  dev_run = λ c n. (record { timed_out = false; process = silent; executed_at = n }, n);
  table = ascii;
  stack = λ m. m;
}

-- The native sandbox, whose limit of the memory cannot be written: the cgroup and the directory are
-- removed, and the slice stays.
process_job-Clean_example :
    Clean disk
      (process_job whole
        (machine_env whole disk programs (codes "image"))
        (some sample_job)
        (record { os = record { os = 0; calls = [] }; log = [] })).1.os
unfolding left
process_job-Clean_example =
    process_job-Clean whole disk programs (codes "image") sample_job
      (record { os = record { os = 0; calls = [] }; log = [] }) tt

abbrev asked : ExecutionRequest ℕ
asked = record {
  id = codes "exec-1";
  language = codes "cpp";
  code = codes "main";
  stdin = [];
  expected_output = [];
  time_limit_ms = pos 1000;
  memory_limit_mb = pos 64;
  cpu_quota = 1;
  pids_limit = pos 32;
  max_output_bytes = pos 1024;
  sandbox_type = codes "native";
}

native_prepare-Ends_example :
    Ends whole disk
      (context disk asked cpp
        (disk.join ephemeral_workspace asked.id)
        (disk.join cgroup_base_slice asked.id)
        7)
      []
      (native_prepare whole disk 7 asked cpp (record { os = 4; calls = [] }))
native_prepare-Ends_example =
    native_prepare-Ends whole disk 7 asked cpp (record { os = 4; calls = [] })
