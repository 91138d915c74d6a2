-- ===== src/Sandbox/Workspace.antt =====
-- `Prepare` and `Cleanup` of pkg/sandbox/docker.go, dev_process.go and native_linux.go.
pub mod Left
pub mod Limits
use remote_runtime_engine.Base.{
  ℕ, Bool, Option, none, some, List, [], ◌∷◌, ◌++◌, Text, codes, ℤ, pos, Float, Result, ok, err,
}
use remote_runtime_engine.Models.Request.{ExecutionRequest, is_empty}
use remote_runtime_engine.Models.Bounds.{memory_bytes}
use remote_runtime_engine.Languages.{LanguageHandler, source_filename, binary_filename}
use remote_runtime_engine.Sandbox.Select.{SandboxContext}
use remote_runtime_engine.Sandbox.Docker.{decimal}
use remote_runtime_engine.Sandbox.Files.{
  FileSystem, Machine, Io, after, ignoring, make_temp, make_all, write, erase_all, erase, look, own,
  allow, write_source_file,
}

abbrev pub Prepared : Type 0 → Type 0
Prepared F = Result Text (SandboxContext F)

abbrev pub cgroup_v2_root : Text
cgroup_v2_root = codes "/sys/fs/cgroup"

abbrev pub cgroup_base_slice : Text
cgroup_base_slice = codes "/sys/fs/cgroup/speedcode"

abbrev pub ephemeral_workspace : Text
ephemeral_workspace = codes "/tmp/speedcode"

abbrev pub subtree_control : Text
subtree_control = codes "+cpu +memory +pids\n"

-- The lines of `memory.max`, `cpu.max` and `pids.max`.
abbrev pub memory_line : {F : Type 0} → ExecutionRequest F → Text
memory_line r = decimal (memory_bytes r) ++ codes "\n"

abbrev pub cpu_line : {F : Type 0} → Float F → ExecutionRequest F → Text
cpu_line fl r =
    decimal (fl.to_int (fl.mul r.cpu_quota (fl.of_int (pos 100000)))) ++ codes " 100000\n"

abbrev pub pids_line : {F : Type 0} → ExecutionRequest F → Text
pids_line r = decimal r.pids_limit ++ codes "\n"

module _ {S F : Type 0} (fs : FileSystem S) where
  abbrev pub context : ExecutionRequest F → LanguageHandler → Text → Text → ℕ → SandboxContext F
  context r lang dir cgroup now = record {
    id = r.id;
    request = r;
    language = lang;
    working_dir = dir;
    source_path = fs.join dir (source_filename lang);
    binary_path = fs.join dir (binary_filename lang);
    cgroup_path = cgroup;
    created_at = now;
  }

  -- What follows `WriteSourceFile` in a temporary directory.
  unfoldable pub after_write : SandboxContext F → Option Text × Machine S → Prepared F × Machine S
  after_write c (none, m) = (ok c, m)
  after_write c (some e, m) = ignoring (erase_all fs c.working_dir m) (λ m'. (err e, m'))

  -- What follows `MkdirTemp`, whose error gets the message in front.
  unfoldable pub after_make_temp :
      Text
      → ExecutionRequest F
      → LanguageHandler
      → ℕ
      → Result Text Text × Machine S
      → Prepared F × Machine S
  unfolding after_write write_source_file
  after_make_temp message r lang now (err e, m) = (err (message ++ e), m)
  after_make_temp message r lang now (ok dir, m) =
      let c = context r lang dir [] now in after_write c (write_source_file fs c m)

  -- `Prepare` of the container sandbox, at the time `now`.
  unfoldable pub docker_prepare : ℕ → ExecutionRequest F → LanguageHandler → Io S (Prepared F)
  unfolding after_make_temp
  docker_prepare now r lang m =
      after_make_temp (codes "failed to create docker workspace: ") r lang now
        (make_temp fs (codes "speedcode-docker-" ++ (r.id ++ codes "-*")) m)

  unfoldable pub docker_cleanup : SandboxContext F → Io S (Option Text)
  docker_cleanup c m = erase_all fs c.working_dir m

  -- `Prepare` of the process sandbox.
  unfoldable pub dev_prepare : ℕ → ExecutionRequest F → LanguageHandler → Io S (Prepared F)
  unfolding after_make_temp
  dev_prepare now r lang m =
      after_make_temp (codes "failed to create dev workspace: ") r lang now
        (make_temp fs (codes "speedcode-dev-" ++ (r.id ++ codes "-*")) m)

  unfoldable pub dev_cleanup : SandboxContext F → Io S (Option Text)
  dev_cleanup c m = erase_all fs c.working_dir m

module _ {S : Type 0} (fs : FileSystem S) where
  -- What follows the test for the file `cgroup.kill`.
  unfoldable pub kill_all : Text → Option Text × Machine S → Machine S
  kill_all path (none, m) = (write fs path (codes "1\n") m).1
  kill_all path (some e, m) = m

module _ {S F : Type 0} (fs : FileSystem S) where
  -- `Cleanup` of the native sandbox, which returns no error.
  unfoldable pub native_cleanup : SandboxContext F → Io S (Option Text)
  unfolding kill_all
  native_cleanup c m =
      let kill_path = fs.join c.cgroup_path (codes "cgroup.kill") in
      ignoring (erase fs c.cgroup_path (kill_all fs kill_path (look fs kill_path m)))
        (λ m₁. ignoring (erase_all fs c.working_dir m₁) (λ m₂. (none, m₂)))

module _ {S F : Type 0} (fl : Float F) (fs : FileSystem S) where
  -- The limits of a job's cgroup.
  unfoldable pub write_limits : Text → ExecutionRequest F → Io S (Option Text)
  write_limits path r m =
      after (write fs (fs.join path (codes "memory.max")) (memory_line r) m)
        (codes "failed to set memory.max: ")
        (λ m₁.
          after (write fs (fs.join path (codes "cpu.max")) (cpu_line fl r) m₁)
            (codes "failed to set cpu.max: ")
            (λ m₂.
              after (write fs (fs.join path (codes "pids.max")) (pids_line r) m₂)
                (codes "failed to set pids.max: ") (λ m₃. (none, m₃))))

  -- `setupCgroupHierarchy`.
  unfoldable pub setup_cgroup_hierarchy : Text → ExecutionRequest F → Io S (Option Text)
  unfolding write_limits
  setup_cgroup_hierarchy path r m =
      after (make_all fs cgroup_base_slice m) (codes "failed to create base cgroup slice: ") (λ m₁.
        ignoring
          (write fs (fs.join cgroup_v2_root (codes "cgroup.subtree_control")) subtree_control m₁)
          (λ m₂.
            ignoring
              (write fs (fs.join cgroup_base_slice (codes "cgroup.subtree_control")) subtree_control
                m₂)
              (λ m₃.
                after (make_all fs path m₃) (codes "failed to create job cgroup slice: ")
                  (write_limits path r))))

  -- What follows `setupCgroupHierarchy`.
  unfoldable pub after_setup : SandboxContext F → Option Text × Machine S → Prepared F × Machine S
  unfolding native_cleanup
  after_setup c (none, m) = (ok c, m)
  after_setup c (some e, m) =
      ignoring (native_cleanup fs c m)
        (λ m'. (err (codes "cgroup v2 initialization failed: " ++ e), m'))

  -- What follows `WriteSourceFile`: the owner and the mode of the directory, and the cgroup.
  unfoldable pub after_source : SandboxContext F → Option Text × Machine S → Prepared F × Machine S
  unfolding after_setup setup_cgroup_hierarchy
  after_source c (some e, m) = (err e, m)
  after_source c (none, m) = ignoring (own fs c.working_dir 1001 1001 m) (λ m₁.
      ignoring (allow fs c.working_dir 0o755 m₁)
        (λ m₂. after_setup c (setup_cgroup_hierarchy c.cgroup_path c.request m₂)))

  -- `Prepare` of the native sandbox.
  unfoldable pub native_prepare : ℕ → ExecutionRequest F → LanguageHandler → Io S (Prepared F)
  unfolding after_source write_source_file
  native_prepare now r lang m =
      let c =
        context fs r lang (fs.join ephemeral_workspace r.id) (fs.join cgroup_base_slice r.id) now in
      after_source c (write_source_file fs c m)
