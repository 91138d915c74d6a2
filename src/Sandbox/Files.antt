-- ===== src/Sandbox/Files.antt =====
-- pkg/sandbox/sandbox.go, `WriteSourceFile`, and the calls of the file system that the backends make.
-- The file system is a record of functions over its state; a machine is that state and the calls so far.
use remote_runtime_engine.Base.{ℕ, Option, none, some, List, ◌∷◌, ◌++◌, Text, codes, Result}
use remote_runtime_engine.Sandbox.Select.{SandboxContext}

-- The functions of the packages os and path/filepath, with the text of an error.
pub record FileSystem (S : Type 0) : Type 0 where
  pub join : Text → Text → Text
  pub mkdir_temp : Text → S → Result Text Text × S
  pub mkdir_all : Text → S → Option Text × S
  pub write_file : Text → Text → S → Option Text × S
  pub remove_all : Text → S → Option Text × S
  pub remove : Text → S → Option Text × S
  pub stat : Text → S → Option Text × S
  pub chown : Text → ℕ → ℕ → S → Option Text × S
  pub chmod : Text → ℕ → S → Option Text × S

-- A call with its arguments and its answer.
pub data FileCall : Type 0 where
  makes_temp : Text → Result Text Text → FileCall
  makes_all : Text → Option Text → FileCall
  writes : Text → Text → Option Text → FileCall
  removes_all : Text → Option Text → FileCall
  removes : Text → Option Text → FileCall
  stats : Text → Option Text → FileCall
  chowns : Text → ℕ → ℕ → Option Text → FileCall
  chmods : Text → ℕ → Option Text → FileCall

-- The newest call is the first.
pub record Machine (S : Type 0) : Type 0 where
  pub os : S
  pub calls : List FileCall

abbrev pub Io : Type 0 → Type 0 → Type 0
Io S A = Machine S → A × Machine S

module _ {S A : Type 0} where
  abbrev pub calling : (S → A × S) → (A → FileCall) → Io S A
  calling f call m = let (a, os) = f m.os in (a, record { os = os; calls = call a ∷ m.calls })

-- `if err := f(); err != nil { return fmt.Errorf(message + "%w", err) }`, and what follows.
abbrev pub after :
    {S : Type 0} → Option Text × Machine S → Text → Io S (Option Text) → Option Text × Machine S
after (none, m) message k = k m
after (some e, m) message k = (some (message ++ e), m)

-- A call whose error is dropped, and what follows.
abbrev pub ignoring : {S A : Type 0} → Option Text × Machine S → Io S A → A × Machine S
ignoring (e, m) k = k m

module _ {S : Type 0} (fs : FileSystem S) where
  abbrev pub make_temp : Text → Io S (Result Text Text)
  make_temp pattern = calling (fs.mkdir_temp pattern) (makes_temp pattern)

  abbrev pub make_all : Text → Io S (Option Text)
  make_all path = calling (fs.mkdir_all path) (makes_all path)

  abbrev pub write : Text → Text → Io S (Option Text)
  write path data' = calling (fs.write_file path data') (writes path data')

  abbrev pub erase_all : Text → Io S (Option Text)
  erase_all path = calling (fs.remove_all path) (removes_all path)

  abbrev pub erase : Text → Io S (Option Text)
  erase path = calling (fs.remove path) (removes path)

  abbrev pub look : Text → Io S (Option Text)
  look path = calling (fs.stat path) (stats path)

  abbrev pub own : Text → ℕ → ℕ → Io S (Option Text)
  own path uid gid = calling (fs.chown path uid gid) (chowns path uid gid)

  abbrev pub allow : Text → ℕ → Io S (Option Text)
  allow path mode = calling (fs.chmod path mode) (chmods path mode)

module _ {S F : Type 0} (fs : FileSystem S) where
  -- `WriteSourceFile`.
  unfoldable pub write_source_file : SandboxContext F → Io S (Option Text)
  write_source_file c m =
      after (make_all fs c.working_dir m) (codes "failed to create sandbox workspace: ") (λ m₁.
        after (write fs c.source_path c.request.code m₁) (codes "failed to write source code: ")
          (λ m₂. (none, m₂)))
