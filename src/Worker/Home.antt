-- ===== src/Worker/Home.antt =====
-- A job of pkg/worker/worker.go with the backends of pkg/sandbox: what it leaves in the file system.
use remote_runtime_engine.Base.{
  ◌≡◌, ◌⊎◌, refl, some, Text, Float, ok, err, All, Bool-cases, inl, inr,
}
use remote_runtime_engine.Models.Request.{ExecutionRequest}
use remote_runtime_engine.Languages.{LanguageHandler, needs_compilation}
use remote_runtime_engine.Sandbox.Select.{SandboxContext, Backend, native, docker, dev_process}
use remote_runtime_engine.Sandbox.Process.{Finished}
use remote_runtime_engine.Sandbox.Files.{FileSystem, Machine}
use remote_runtime_engine.Sandbox.Workspace.{
  Prepared, cgroup_base_slice, ephemeral_workspace, native_prepare, docker_prepare, dev_prepare,
}
use remote_runtime_engine.Sandbox.Workspace.Left.{
  left, OnlyLeft, Also, Leaves, docker_prepare-Leaves, dev_prepare-Leaves, docker_cleanup-left,
  dev_cleanup-left,
}
use remote_runtime_engine.Sandbox.Workspace.Left.Native.{
  NativeLeft, NativeLeaves, Refuses, native_prepare-Leaves, native_cleanup-OnlyLeft,
}
use remote_runtime_engine.Queue.{SubmissionJob}
use remote_runtime_engine.Worker.{World, ret}
use remote_runtime_engine.Worker.OnHost.Whole.{IsHome, AfterPrepare, process_job-home}
use remote_runtime_engine.Worker.Process.{process_job}
use remote_runtime_engine.Worker.Backends.{
  Programs, compile_with, on_machine, in_container, with_os, native_sandbox, docker_sandbox,
  dev_sandbox, sandbox_of, machine_env,
}

-- The directories that may stay: the slice that all the cgroups share, and a directory of the native
-- sandbox in which the file system refuses a source file.
abbrev pub Stays : {S : Type 0} → FileSystem S → Text → Type 0
Stays fs d =
    (d ≡ cgroup_base_slice) ⊎ ((id : Text) × (d ≡ fs.join ephemeral_workspace id) × Refuses fs d)

-- No other directory is left.
abbrev pub Clean : {S : Type 0} → FileSystem S → Machine S → Type 0
Clean fs m = All (Stays fs) (left m.calls)

-- While a sandbox is open, its own directory is left besides, and the cgroup of a native sandbox.
abbrev pub Own : {S F : Type 0} → FileSystem S → Backend → SandboxContext F → Machine S → Type 0
Own fs native c m = NativeLeft (Stays fs) c m
Own fs docker c m = OnlyLeft (Also c.working_dir (Stays fs)) m
Own fs dev_process c m = OnlyLeft (Also c.working_dir (Stays fs)) m

module _ {S F : Type 0} (fs : FileSystem S) where
  docker_prepared :
      (r : Prepared F × Machine S)
      → Leaves (Stays fs) r
      → AfterPrepare (Clean fs) (Own fs docker) (ret r.0, r.1)
  docker_prepared (ok c, m) h = h
  docker_prepared (err e, m) h = h

  dev_prepared :
      (r : Prepared F × Machine S)
      → Leaves (Stays fs) r
      → AfterPrepare (Clean fs) (Own fs dev_process) (ret r.0, r.1)
  dev_prepared (ok c, m) h = h
  dev_prepared (err e, m) h = h

  native_prepared :
      (r : Prepared F × Machine S)
      → NativeLeaves (Stays fs) r
      → AfterPrepare (Clean fs) (Own fs native) (ret r.0, r.1)
  native_prepared (ok c, m) h = h
  native_prepared (err e, m) h = h

module _ {S F : Type 0} (fl : Float F) (fs : FileSystem S) (ps : Programs S F) (image : Text) where
  home-prepare :
      (b : Backend) (r : ExecutionRequest F) (lang : LanguageHandler) (m : Machine S)
      → Clean fs m
      → AfterPrepare (Clean fs) (Own fs b) ((sandbox_of fl fs ps image b).prepare r lang m)
  unfolding sandbox_of native_sandbox docker_sandbox dev_sandbox
  home-prepare native r lang m h =
      let (t, m') = with_os ps.now m in
      native_prepared fs (native_prepare fl fs t r lang m') (
        native_prepare-Leaves fl fs (Stays fs) (inl refl) (λ id k. inr (id, refl, k)) t r lang m' h)
  home-prepare docker r lang m h =
      let (t, m') = with_os ps.now m in
      docker_prepared fs (docker_prepare fs t r lang m')
        (docker_prepare-Leaves fs (Stays fs) t r lang m' h)
  home-prepare dev_process r lang m h =
      let (t, m') = with_os ps.now m in
      dev_prepared fs (dev_prepare fs t r lang m') (dev_prepare-Leaves fs (Stays fs) t r lang m' h)

  compile_with-left :
      (P : Text → Type 0) (run : SandboxContext F → S → Finished F × S) (c : SandboxContext F)
      (m : Machine S)
      → OnlyLeft P m
      → OnlyLeft P (compile_with fl fs ps image run c m).1
  compile_with-left P run c m h = elim (Bool-cases (needs_compilation c.language)) [
    | inl y ↦ simp (y) h
    | inr y ↦ simp (y) h
  ]

  home-compile :
      (b : Backend) (c : SandboxContext F) (m : Machine S)
      → Own fs b c m
      → Own fs b c ((sandbox_of fl fs ps image b).compile c m).1
  unfolding sandbox_of native_sandbox docker_sandbox dev_sandbox
  home-compile native c m h =
      compile_with-left (Also c.cgroup_path (Also c.working_dir (Stays fs)))
        (on_machine fl fs ps image) c m h
  home-compile docker c m h =
      compile_with-left (Also c.working_dir (Stays fs)) (in_container fl fs ps image) c m h
  home-compile dev_process c m h =
      compile_with-left (Also c.working_dir (Stays fs)) (on_machine fl fs ps image) c m h

  home-execute :
      (b : Backend) (c c' : SandboxContext F) (m : Machine S)
      → Own fs b c m
      → Own fs b c ((sandbox_of fl fs ps image b).execute c' m).1
  unfolding sandbox_of native_sandbox docker_sandbox dev_sandbox
  home-execute native c c' m h = h
  home-execute docker c c' m h = h
  home-execute dev_process c c' m h = h

  home-now :
      (b : Backend) (c : SandboxContext F) (m : Machine S)
      → Own fs b c m
      → Own fs b c (with_os ps.now m).1
  home-now native c m h = h
  home-now docker c m h = h
  home-now dev_process c m h = h

  home-cleanup :
      (b : Backend) (c : SandboxContext F) (m : Machine S)
      → Own fs b c m
      → Clean fs ((sandbox_of fl fs ps image b).cleanup c m)
  unfolding sandbox_of native_sandbox docker_sandbox dev_sandbox
  home-cleanup native c m h = native_cleanup-OnlyLeft fl fs (Stays fs) c m h
  home-cleanup docker c m h = docker_cleanup-left fs (Stays fs) c m h
  home-cleanup dev_process c m h = dev_cleanup-left fs (Stays fs) c m h

  home-IsHome : IsHome (machine_env fl fs ps image) (Clean fs) (Own fs)
  home-IsHome = record {
    host = λ m h. h;
    entropy = λ m h. h;
    now = λ m h. h;
    prepare = home-prepare;
    inside_now = home-now;
    compile = home-compile;
    execute = home-execute;
    cleanup = home-cleanup;
  }

  -- Count a directory as left if it was made by `MkdirTemp` or by name and has since been the argument of
  -- no `Remove` or `RemoveAll`, whatever these answer. A job with the three backends, whatever the file
  -- system and the programs answer, where each directory that is left is the slice that all the
  -- cgroups share, or one of the native sandbox in which the file system, in one of its states, refuses
  -- a source file: it is so again after the job. So, on every path, panics included, a job calls for
  -- the removal of its temporary directory, and of the cgroup and the directory of a native sandbox,
  -- of the directory provided that no source file is ever refused in it.
  pub process_job-Clean :
      (j : SubmissionJob F) (w : World (Machine S) F)
      → Clean fs w.os
      → Clean fs (process_job fl (machine_env fl fs ps image) (some j) w).1.os
  process_job-Clean j w h =
      process_job-home fl (machine_env fl fs ps image) j (Clean fs) (Own fs) home-IsHome w h
