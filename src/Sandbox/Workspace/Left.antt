-- ===== src/Sandbox/Workspace/Left.antt =====
-- The directories of pkg/sandbox that are left: made by `MkdirTemp` or named in a `MkdirAll` that
-- succeeded, and since then the argument of no `Remove` and no `RemoveAll`, whatever these answered. The
-- parents that `MkdirAll` makes on its way are not counted.
pub mod Native
use remote_runtime_engine.Base.{
  ℕ, ◌≡◌, ◌⊎◌, refl, Bool-cases, inl, inr, ap, ◌∙◌, true, Option, none, some, List, [], ◌∷◌, ◌++◌,
  codes, Text, text_eq, text_eq_refl, Float, Result, ok, err, All, if◌then◌else◌,
}
use remote_runtime_engine.Models.Request.{ExecutionRequest}
use remote_runtime_engine.Languages.{LanguageHandler, source_filename}
use remote_runtime_engine.Sandbox.Select.{SandboxContext}
use remote_runtime_engine.Sandbox.Files.{
  FileSystem, FileCall, makes_temp, makes_all, writes, removes_all, removes, Machine, Io, after,
  write_source_file, make_all, write, look, own, allow,
}
use remote_runtime_engine.Sandbox.Workspace.{
  Prepared, context, memory_line, cpu_line, pids_line, cgroup_base_slice, cgroup_v2_root,
  ephemeral_workspace, subtree_control, after_write, after_make_temp, docker_prepare,
  docker_cleanup, dev_prepare, dev_cleanup, write_limits, setup_cgroup_hierarchy, kill_all,
  native_cleanup, after_setup, after_source, native_prepare,
}

unfoldable pub without : Text → List Text → List Text
without d [] = []
without d (e ∷ ds) = let rest = without d ds in if text_eq d e then rest else e ∷ rest

unfoldable pub left : List FileCall → List Text
unfolding without
left [] = []
left (makes_temp p (ok d) ∷ l) = d ∷ left l
left (makes_temp p (err e) ∷ l) = left l
left (makes_all d none ∷ l) = d ∷ left l
left (makes_all d (some e) ∷ l) = left l
left (removes_all d e ∷ l) = without d (left l)
left (removes d e ∷ l) = without d (left l)
left (_ ∷ l) = left l

pub without-All :
    (P : Text → Type 0) (d : Text) (ds : List Text)
    → All (λ e. P e ⊎ (e ≡ d)) ds
    → All P (without d ds)
unfolding without
without-All P d [] h = tt
without-All P d (e ∷ ds) (inl p, h) = elim (Bool-cases (text_eq d e)) [
  | inl y ↦ simp (y) (without-All P d ds h)
  | inr y ↦ simp (y) (p, without-All P d ds h)
]
without-All P d (e ∷ ds) (inr k, h) =
    let same : text_eq d e ≡ true = ap (text_eq d) k ∙ text_eq_refl d in
    simp (same) (without-All P d ds h)

weaken : (P Q : Text → Type 0) → ((d : Text) → P d → Q d) → (ds : List Text) → All P ds → All Q ds
weaken P Q f [] h = tt
weaken P Q f (d ∷ ds) h = (f d h.0, weaken P Q f ds h.1)

-- Only such directories are left.
abbrev pub OnlyLeft : {S : Type 0} → (Text → Type 0) → Machine S → Type 0
OnlyLeft P m = All P (left m.calls)

-- The directories of `P`, and `d`.
abbrev pub Also : Text → (Text → Type 0) → Text → Type 0
Also d P e = P e ⊎ (e ≡ d)

pub also : (P : Text → Type 0) (d : Text) (ds : List Text) → All P ds → All (Also d P) ds
also P d ds h = weaken P (Also d P) (λ e p. inl p) ds h

pub made :
    (P : Text → Type 0) (d : Text) (a : Option Text) (l : List FileCall)
    → P d
    → All P (left l)
    → All P (left (makes_all d a ∷ l))
unfolding left
made P d none l p h = (p, h)
made P d (some e) l p h = h

module _ {S : Type 0} (P : Text → Type 0) where
  -- The rest of a chain of calls.
  pub after-OnlyLeft :
      (r : Option Text × Machine S) (message : Text) (k : Io S (Option Text))
      → OnlyLeft P r.1
      → ((m : Machine S) → OnlyLeft P m → OnlyLeft P (k m).1)
      → OnlyLeft P (after r message k).1
  after-OnlyLeft (none, m) message k h kk = kk m h
  after-OnlyLeft (some e, m) message k h kk = h

module _ {S F : Type 0} (fs : FileSystem S) (P : Text → Type 0) where
  write_source_file-OnlyLeft :
      (c : SandboxContext F) (m : Machine S)
      → P c.working_dir
      → OnlyLeft P m
      → OnlyLeft P (write_source_file fs c m).1
  unfolding write_source_file left
  write_source_file-OnlyLeft c m p h =
      after-OnlyLeft P (make_all fs c.working_dir m) _ _
        (made P c.working_dir (fs.mkdir_all c.working_dir m.os).0 m.calls p h)
        (λ m₁ h₁. after-OnlyLeft P (write fs c.source_path c.request.code m₁) _ _ h₁ (λ m₂ h₂. h₂))

-- After a preparation that starts where only directories of `P` are left: with an error no other is
-- left, with a context only its own.
abbrev pub Leaves : {S F : Type 0} → (Text → Type 0) → Prepared F × Machine S → Type 0
Leaves P (ok c, m) = OnlyLeft (Also c.working_dir P) m
Leaves P (err e, m) = OnlyLeft P m

module _ {S F : Type 0} (fs : FileSystem S) (P : Text → Type 0) where
  after_write-Leaves :
      (c : SandboxContext F) (r : Option Text × Machine S)
      → OnlyLeft (Also c.working_dir P) r.1
      → Leaves P (after_write fs c r)
  unfolding after_write left
  after_write-Leaves c (none, m) h = h
  after_write-Leaves c (some e, m) h = without-All P c.working_dir (left m.calls) h

  after_make_temp-Leaves :
      (message pattern : Text) (r : ExecutionRequest F) (lang : LanguageHandler) (now : ℕ)
      (a : Result Text Text) (m : Machine S)
      → OnlyLeft P m
      → Leaves P (
          after_make_temp fs message r lang now
            (a, record m { calls = makes_temp pattern a ∷ m.calls }))
  unfolding after_make_temp left
  after_make_temp-Leaves message pattern r lang now (err e) m h = h
  after_make_temp-Leaves message pattern r lang now (ok d) m h =
      let c = context fs r lang d [] now in
      after_write-Leaves c
        (write_source_file fs c (record m { calls = makes_temp pattern (ok d) ∷ m.calls }))
        (write_source_file-OnlyLeft fs (Also d P) c
          (record m { calls = makes_temp pattern (ok d) ∷ m.calls }) (inr refl)
          (inr refl, also P d (left m.calls) h))

  pub docker_prepare-Leaves :
      (now : ℕ) (r : ExecutionRequest F) (lang : LanguageHandler) (m : Machine S)
      → OnlyLeft P m
      → Leaves P (docker_prepare fs now r lang m)
  unfolding docker_prepare
  docker_prepare-Leaves now r lang m h =
      let pattern = codes "speedcode-docker-" ++ (r.id ++ codes "-*") in
      let (a, os) = fs.mkdir_temp pattern m.os in
      after_make_temp-Leaves (codes "failed to create docker workspace: ") pattern r lang now a
        (record m { os = os }) h

  pub dev_prepare-Leaves :
      (now : ℕ) (r : ExecutionRequest F) (lang : LanguageHandler) (m : Machine S)
      → OnlyLeft P m
      → Leaves P (dev_prepare fs now r lang m)
  unfolding dev_prepare
  dev_prepare-Leaves now r lang m h =
      let pattern = codes "speedcode-dev-" ++ (r.id ++ codes "-*") in
      let (a, os) = fs.mkdir_temp pattern m.os in
      after_make_temp-Leaves (codes "failed to create dev workspace: ") pattern r lang now a
        (record m { os = os }) h

  pub docker_cleanup-left :
      (c : SandboxContext F) (m : Machine S)
      → OnlyLeft (Also c.working_dir P) m
      → OnlyLeft P (docker_cleanup fs c m).1
  unfolding docker_cleanup left
  docker_cleanup-left c m h = without-All P c.working_dir (left m.calls) h

  pub dev_cleanup-left :
      (c : SandboxContext F) (m : Machine S)
      → OnlyLeft (Also c.working_dir P) m
      → OnlyLeft P (dev_cleanup fs c m).1
  unfolding dev_cleanup left
  dev_cleanup-left c m h = without-All P c.working_dir (left m.calls) h
