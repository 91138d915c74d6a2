-- ===== src/Sandbox/Workspace/Limits.antt =====
-- What `Prepare` of pkg/sandbox/native_linux.go has written when it returns, and what it has undone.
use remote_runtime_engine.Base.{
  ℕ, ◌≡◌, refl, Option, none, some, List, ◌∷◌, Text, codes, Float, ok, err,
}
use remote_runtime_engine.Models.Request.{ExecutionRequest}
use remote_runtime_engine.Languages.{LanguageHandler}
use remote_runtime_engine.Sandbox.Select.{SandboxContext}
use remote_runtime_engine.Sandbox.Files.{
  FileSystem, FileCall, makes_all, writes, removes_all, removes, Machine, Io, after,
  write_source_file, make_all, write, own, allow,
}
use remote_runtime_engine.Sandbox.Workspace.{
  Prepared, context, memory_line, cpu_line, pids_line, cgroup_base_slice, cgroup_v2_root,
  ephemeral_workspace, subtree_control, write_limits, setup_cgroup_hierarchy, native_cleanup,
  after_setup, after_source, native_prepare,
}

module _ {S F : Type 0} (fl : Float F) (fs : FileSystem S) where
  -- The newest calls wrote the limits of the request to the files of the cgroup.
  abbrev pub Limited : Text → ExecutionRequest F → Machine S → Type 0
  Limited path r m =
      (earlier : List FileCall) × (m.calls
        ≡ writes (fs.join path (codes "pids.max")) (pids_line r) none
          ∷ writes (fs.join path (codes "cpu.max")) (cpu_line fl r) none
          ∷ writes (fs.join path (codes "memory.max")) (memory_line r) none
          ∷ earlier)

  -- A chain of calls without an error leaves the cgroup limited.
  abbrev Limits : Text → ExecutionRequest F → Option Text × Machine S → Type 0
  Limits path r (none, m) = Limited path r m
  Limits path r (some e, m) = Unit {0}

  -- The end of the chain, with the answers of its calls.
  pids_set :
      (path : Text) (r : ExecutionRequest F) (a : Option Text) (m : Machine S)
      (earlier : List FileCall)
      → m.calls
        ≡ writes (fs.join path (codes "pids.max")) (pids_line r) a
          ∷ writes (fs.join path (codes "cpu.max")) (cpu_line fl r) none
          ∷ writes (fs.join path (codes "memory.max")) (memory_line r) none
          ∷ earlier
      → Limits path r (after (a, m) (codes "failed to set pids.max: ") (λ m₃. (none, m₃)))
  pids_set path r none m earlier h = (earlier, h)
  pids_set path r (some e) m earlier h = tt

  cpu_set :
      (path : Text) (r : ExecutionRequest F) (a : Option Text) (m : Machine S)
      (earlier : List FileCall)
      → m.calls
        ≡ writes (fs.join path (codes "cpu.max")) (cpu_line fl r) a
          ∷ writes (fs.join path (codes "memory.max")) (memory_line r) none
          ∷ earlier
      → Limits path r (
          after
            (a, m)
            (codes "failed to set cpu.max: ")
            (λ m₂.
              after
                (write fs (fs.join path (codes "pids.max")) (pids_line r) m₂)
                (codes "failed to set pids.max: ")
                (λ m₃. (none, m₃))))
  cpu_set path r none m earlier h =
      let (a, m') = write fs (fs.join path (codes "pids.max")) (pids_line r) m in
      pids_set path r a m' earlier (rw h refl)
  cpu_set path r (some e) m earlier h = tt

  write_limits-Limits :
      (path : Text) (r : ExecutionRequest F) (m : Machine S)
      → Limits path r (write_limits fl fs path r m)
  unfolding write_limits
  write_limits-Limits path r m =
      let (a, m') = write fs (fs.join path (codes "memory.max")) (memory_line r) m in
      memory_set a m' m.calls refl
    where
      memory_set :
          (a : Option Text) (m' : Machine S) (earlier : List FileCall)
          → m'.calls ≡ writes (fs.join path (codes "memory.max")) (memory_line r) a ∷ earlier
          → Limits path r (
              after
                (a, m')
                (codes "failed to set memory.max: ")
                (λ m₁.
                  after
                    (write fs (fs.join path (codes "cpu.max")) (cpu_line fl r) m₁)
                    (codes "failed to set cpu.max: ")
                    (λ m₂.
                      after
                        (write fs (fs.join path (codes "pids.max")) (pids_line r) m₂)
                        (codes "failed to set pids.max: ")
                        (λ m₃. (none, m₃)))))
      memory_set none m' earlier h =
          let (a, m″) = write fs (fs.join path (codes "cpu.max")) (cpu_line fl r) m' in
          cpu_set path r a m″ earlier (rw h refl)
      memory_set (some e) m' earlier h = tt

  after-Limits :
      (path : Text) (r : ExecutionRequest F) (a : Option Text × Machine S) (message : Text)
      (k : Io S (Option Text))
      → ((m : Machine S) → Limits path r (k m))
      → Limits path r (after a message k)
  after-Limits path r (none, m) message k h = h m
  after-Limits path r (some e, m) message k h = tt

  setup_cgroup_hierarchy-Limits :
      (path : Text) (r : ExecutionRequest F) (m : Machine S)
      → Limits path r (setup_cgroup_hierarchy fl fs path r m)
  unfolding setup_cgroup_hierarchy
  setup_cgroup_hierarchy-Limits path r m =
      after-Limits path r (make_all fs cgroup_base_slice m) _ _ (λ m₁.
        let m₂ =
          (write fs (fs.join cgroup_v2_root (codes "cgroup.subtree_control")) subtree_control
            m₁).1 in
        let m₃ =
          (write fs (fs.join cgroup_base_slice (codes "cgroup.subtree_control")) subtree_control
            m₂).1 in
        after-Limits path r (make_all fs path m₃) _ _ (write_limits-Limits path r))

  -- How a preparation with the context `c` ends that starts after the calls `before`: the cgroup of
  -- `c` has its limits; or the last calls removed the cgroup and the directory of `c`; or the only call
  -- failed to make that directory; or the only calls made it and failed to write the source file.
  pub data Ends (c : SandboxContext F) (before : List FileCall)
      : Prepared F × Machine S → Type 0 where
    ready : (m : Machine S) → Limited c.cgroup_path c.request m → Ends c before (ok c, m)
    undone :
        (e : Text) (m : Machine S) (a b : Option Text) (earlier : List FileCall)
        → m.calls ≡ removes_all c.working_dir a ∷ removes c.cgroup_path b ∷ earlier
        → Ends c before (err e, m)
    unmade :
        (e e' : Text) (m : Machine S)
        → m.calls ≡ makes_all c.working_dir (some e') ∷ before
        → Ends c before (err e, m)
    unwritten :
        (e e' : Text) (m : Machine S)
        → m.calls
          ≡ writes c.source_path c.request.code (some e') ∷ makes_all c.working_dir none ∷ before
        → Ends c before (err e, m)

  after_setup-Ends :
      (c : SandboxContext F) (before : List FileCall) (a : Option Text × Machine S)
      → Limits c.cgroup_path c.request a
      → Ends c before (after_setup fl fs c a)
  unfolding after_setup native_cleanup
  after_setup-Ends c before (none, m) h = ready m h
  after_setup-Ends c before (some e, m) h = undone _ _ _ _ _ refl

  after_source-ready :
      (c : SandboxContext F) (before : List FileCall) (m : Machine S)
      → Ends c before (after_source fl fs c (none, m))
  unfolding after_source
  after_source-ready c before m =
      let m₁ = (own fs c.working_dir 1001 1001 m).1 in
      let m₂ = (allow fs c.working_dir 0o755 m₁).1 in
      after_setup-Ends c before (setup_cgroup_hierarchy fl fs c.cgroup_path c.request m₂)
        (setup_cgroup_hierarchy-Limits c.cgroup_path c.request m₂)

  written :
      (c : SandboxContext F) (before : List FileCall) (a : Option Text) (m : Machine S)
      → m.calls ≡ writes c.source_path c.request.code a ∷ makes_all c.working_dir none ∷ before
      → Ends c before (
          after_source fl fs c
            (after (a, m) (codes "failed to write source code: ") (λ m₂. (none, m₂))))
  unfolding after_source
  written c before none m h = after_source-ready c before m
  written c before (some e) m h = unwritten _ e m h

  made :
      (c : SandboxContext F) (before : List FileCall) (a : Option Text) (m : Machine S)
      → m.calls ≡ makes_all c.working_dir a ∷ before
      → Ends c before (
          after_source fl fs c (
            after
              (a, m)
              (codes "failed to create sandbox workspace: ")
              (λ m₁.
                after
                  (write fs c.source_path c.request.code m₁)
                  (codes "failed to write source code: ")
                  (λ m₂. (none, m₂)))))
  unfolding after_source
  made c before none m h =
      let (a, m') = write fs c.source_path c.request.code m in written c before a m' (rw h refl)
  made c before (some e) m h = unmade _ e m h

  -- A preparation of the native sandbox works with the directory and the cgroup that are named after
  -- the request under /tmp/speedcode and under the slice of the program. One that returns a context
  -- returns that directory and cgroup, and has last written the limits of the request to the files of
  -- the cgroup, each without an error. One that fails has last removed the cgroup and the directory,
  -- unless its only call was to make the directory, which failed, or its only calls were to make it
  -- and to write the source file, which failed: then it has removed nothing.
  pub native_prepare-Ends :
      (now : ℕ) (r : ExecutionRequest F) (lang : LanguageHandler) (m : Machine S)
      → Ends
          (context fs r lang
            (fs.join ephemeral_workspace r.id)
            (fs.join cgroup_base_slice r.id)
            now)
          m.calls
          (native_prepare fl fs now r lang m)
  unfolding native_prepare write_source_file
  native_prepare-Ends now r lang m =
      let c =
        context fs r lang (fs.join ephemeral_workspace r.id) (fs.join cgroup_base_slice r.id) now in
      let (a, m') = make_all fs c.working_dir m in made c m.calls a m' refl
