-- ===== src/Sandbox/Workspace/Left/Native.antt =====
-- The directories that the native sandbox of pkg/sandbox/native_linux.go leaves.
use remote_runtime_engine.Base.{
  ℕ, ◌≡◌, refl, inl, inr, ap, Option, none, some, List, ◌∷◌, codes, Text, Float, ok, err, All,
}
use remote_runtime_engine.Models.Request.{ExecutionRequest}
use remote_runtime_engine.Languages.{LanguageHandler, source_filename}
use remote_runtime_engine.Sandbox.Select.{SandboxContext}
use remote_runtime_engine.Sandbox.Files.{
  FileSystem, FileCall, makes_all, writes, Machine, after, write_source_file, make_all, write, look,
  own, allow,
}
use remote_runtime_engine.Sandbox.Workspace.{
  Prepared, context, memory_line, cpu_line, pids_line, cgroup_base_slice, cgroup_v2_root,
  ephemeral_workspace, subtree_control, write_limits, setup_cgroup_hierarchy, kill_all,
  native_cleanup, after_setup, after_source, native_prepare,
}
use remote_runtime_engine.Sandbox.Workspace.Left.{
  left, OnlyLeft, Also, also, made, after-OnlyLeft, without-All,
}

-- While a native sandbox is open: its directory and its cgroup besides.
abbrev pub NativeLeft : {S F : Type 0} → (Text → Type 0) → SandboxContext F → Machine S → Type 0
NativeLeft P c m = OnlyLeft (Also c.cgroup_path (Also c.working_dir P)) m

abbrev pub NativeLeaves : {S F : Type 0} → (Text → Type 0) → Prepared F × Machine S → Type 0
NativeLeaves P (ok c, m) = NativeLeft P c m
NativeLeaves P (err e, m) = OnlyLeft P m

module _ {S : Type 0} (fs : FileSystem S) (P : Text → Type 0) where
  kill_all-OnlyLeft :
      (path : Text) (r : Option Text × Machine S) → OnlyLeft P r.1 → OnlyLeft P (kill_all fs path r)
  unfolding kill_all left
  kill_all-OnlyLeft path (none, m) h = h
  kill_all-OnlyLeft path (some e, m) h = h

module _ {S F : Type 0} (fl : Float F) (fs : FileSystem S) (P : Text → Type 0) where
  pub native_cleanup-OnlyLeft :
      (c : SandboxContext F) (m : Machine S)
      → NativeLeft P c m
      → OnlyLeft P (native_cleanup fs c m).1
  unfolding native_cleanup left
  native_cleanup-OnlyLeft c m h =
      let path = fs.join c.cgroup_path (codes "cgroup.kill") in
      without-All P c.working_dir _ (
        without-All (Also c.working_dir P) c.cgroup_path _ (
          kill_all-OnlyLeft fs (Also c.cgroup_path (Also c.working_dir P)) path (look fs path m) h))

  write_limits-OnlyLeft :
      (path : Text) (r : ExecutionRequest F) (m : Machine S)
      → OnlyLeft P m
      → OnlyLeft P (write_limits fl fs path r m).1
  unfolding write_limits left
  write_limits-OnlyLeft path r m h =
      after-OnlyLeft P (write fs (fs.join path (codes "memory.max")) (memory_line r) m) _ _ h
        (λ m₁ h₁.
          after-OnlyLeft P (write fs (fs.join path (codes "cpu.max")) (cpu_line fl r) m₁) _ _ h₁
            (λ m₂ h₂.
              after-OnlyLeft P (write fs (fs.join path (codes "pids.max")) (pids_line r) m₂) _ _ h₂
                (λ m₃ h₃. h₃)))

  setup_cgroup_hierarchy-OnlyLeft :
      (path : Text) (r : ExecutionRequest F) (m : Machine S)
      → P cgroup_base_slice
      → P path
      → OnlyLeft P m
      → OnlyLeft P (setup_cgroup_hierarchy fl fs path r m).1
  unfolding setup_cgroup_hierarchy left
  setup_cgroup_hierarchy-OnlyLeft path r m b p h =
      after-OnlyLeft P (make_all fs cgroup_base_slice m) _ _
        (made P cgroup_base_slice (fs.mkdir_all cgroup_base_slice m.os).0 m.calls b h)
        (λ m₁ h₁.
          let m₂ =
            (write fs (fs.join cgroup_v2_root (codes "cgroup.subtree_control")) subtree_control
              m₁).1 in
          let m₃ =
            (write fs (fs.join cgroup_base_slice (codes "cgroup.subtree_control")) subtree_control
              m₂).1 in
          after-OnlyLeft P (make_all fs path m₃) _ _
            (made P path (fs.mkdir_all path m₃.os).0 m₃.calls p h₁) (write_limits-OnlyLeft path r))

  after_setup-Leaves :
      (c : SandboxContext F) (r : Option Text × Machine S)
      → NativeLeft P c r.1
      → NativeLeaves P (after_setup fl fs c r)
  unfolding after_setup
  after_setup-Leaves c (none, m) h = h
  after_setup-Leaves c (some e, m) h = native_cleanup-OnlyLeft c m h

-- After `WriteSourceFile` of the native sandbox, which undoes nothing.
abbrev Sourced :
    {S F : Type 0} → (Text → Type 0) → SandboxContext F → Option Text × Machine S → Type 0
Sourced P c (none, m) = OnlyLeft (Also c.working_dir P) m
Sourced P c (some e, m) = OnlyLeft P m

-- The file system refuses a source file in the directory `d`, in one of its states.
abbrev pub Refuses : {S : Type 0} → FileSystem S → Text → Type 0
Refuses {S} fs d =
    (lang : LanguageHandler) × (text e : Text) × (s : S) × ((fs.write_file
        (fs.join d (source_filename lang)) text s).0
      ≡ some e)

module _ {S F : Type 0} (fl : Float F) (fs : FileSystem S) (P : Text → Type 0)
    (base : P cgroup_base_slice)
    (refused : (id : Text)
      → Refuses fs (fs.join ephemeral_workspace id)
      → P (fs.join ephemeral_workspace id)) where
  after_source-Leaves :
      (c : SandboxContext F) (r : Option Text × Machine S)
      → Sourced P c r
      → NativeLeaves P (after_source fl fs c r)
  unfolding after_source left
  after_source-Leaves c (some e, m) h = h
  after_source-Leaves c (none, m) h =
      let m₁ = (own fs c.working_dir 1001 1001 m).1 in
      let m₂ = (allow fs c.working_dir 0o755 m₁).1 in
      after_setup-Leaves fl fs P c (setup_cgroup_hierarchy fl fs c.cgroup_path c.request m₂) (
        setup_cgroup_hierarchy-OnlyLeft fl fs (Also c.cgroup_path (Also c.working_dir P))
          c.cgroup_path c.request m₂ (inl (inl base)) (inr refl)
          (also (Also c.working_dir P) c.cgroup_path (left m.calls) h))

  source_written :
      (c : SandboxContext F) (text : Text) (a : Option Text) (m : Machine S) (l : List FileCall)
      → ((e : Text) → a ≡ some e → P c.working_dir)
      → m.calls ≡ writes c.source_path text a ∷ makes_all c.working_dir none ∷ l
      → All P (left l)
      → Sourced P c (after (a, m) (codes "failed to write source code: ") (λ m₂. (none, m₂)))
  unfolding left
  source_written c text none m l k e h = rw (e) (inr refl, also P c.working_dir (left l) h)
  source_written c text (some x) m l k e h = rw (e) (k x refl, h)

  directory_made :
      (c : SandboxContext F) (a : Option Text) (m : Machine S) (l : List FileCall)
      → ((s : S) (e : Text)
          → (fs.write_file c.source_path c.request.code s).0 ≡ some e
          → P c.working_dir)
      → m.calls ≡ makes_all c.working_dir a ∷ l
      → All P (left l)
      → Sourced P c (
          after
            (a, m)
            (codes "failed to create sandbox workspace: ")
            (λ m₁.
              after
                (write fs c.source_path c.request.code m₁)
                (codes "failed to write source code: ")
                (λ m₂. (none, m₂))))
  unfolding left
  directory_made c none m l k e h =
      let (a, m') = write fs c.source_path c.request.code m in
      source_written c c.request.code a m' l (k m.os)
        (ap (λ r. writes c.source_path c.request.code a ∷ r) e) h
  directory_made c (some x) m l k e h = rw (e) h

  pub native_prepare-Leaves :
      (now : ℕ) (r : ExecutionRequest F) (lang : LanguageHandler) (m : Machine S)
      → OnlyLeft P m
      → NativeLeaves P (native_prepare fl fs now r lang m)
  unfolding native_prepare write_source_file
  native_prepare-Leaves now r lang m h =
      let c =
        context fs r lang (fs.join ephemeral_workspace r.id) (fs.join cgroup_base_slice r.id) now in
      let (a, m') = make_all fs c.working_dir m in
      after_source-Leaves c (write_source_file fs c m)
        (directory_made c a m' m.calls (λ s e k. refused r.id (lang, r.code, e, s, k)) refl h)
