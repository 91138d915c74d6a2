-- ===== src/Worker.antt =====
-- pkg/worker: the processing of one job, and the pool of workers. This file holds what a worker acts
-- on: its host, the sandboxes, and a log of its effects on the store, the event bus and the metrics.
pub mod Case
pub mod Evaluate
pub mod Process
pub mod Protocol
pub mod Keeps
pub mod Effects
pub mod Outcome
pub mod Score
pub mod Stored
pub mod Recorded
pub mod Numbering
pub mod Volume
pub mod Broadcast
pub mod Stream
pub mod OnHost
pub mod Backends
pub mod Home
pub mod Pool
use remote_runtime_engine.Base.{
  ℕ, ◌≡◌, refl, ◌⊎◌, inl, inr, Bool, true, false, Option, none, some, List, [], ◌∷◌, Text, ℤ, Float,
  Result, ok, err, CaseTable,
}
use remote_runtime_engine.Models.{Verdict, CompilationResult, ExecutionResult}
use remote_runtime_engine.Models.Request.{ExecutionRequest, Entropy}
use remote_runtime_engine.Languages.{LanguageHandler}
use remote_runtime_engine.Sandbox.Select.{SandboxContext, Backend, Host}
use remote_runtime_engine.Events.{ExecutionEvent}
use remote_runtime_engine.Store.{SubmissionState}

-- A call that returns, or panics with a message.
pub data Step (A : Type 0) : Type 0 where
  ret : A → Step A
  panic : Text → Step A

-- `(*CompilationResult, error)`, of which both may be set.
pub record Compiled (F : Type 0) : Type 0 where
  pub result : Option (CompilationResult F)
  pub error : Option Text

-- The interface `Sandbox`, over the state `S` of the host.
pub record Sandbox (S F : Type 0) : Type 0 where
  pub prepare : ExecutionRequest F → LanguageHandler → S → Step (Result Text (SandboxContext F)) × S
  pub compile : SandboxContext F → S → Step (Compiled F) × S
  pub execute : SandboxContext F → S → Step (Result Text (ExecutionResult F)) × S
  pub cleanup : SandboxContext F → S → S

-- What a worker finds around it: the host, the clock, random bytes, the sandboxes, the case table of
-- Unicode, and the text of a stack.
pub record Env (S F : Type 0) : Type 0 where
  pub host : S → Host × S
  pub now : S → ℕ × S
  pub entropy : S → Entropy × S
  pub sandbox : Backend → Sandbox S F
  pub table : CaseTable
  pub stack : Text → Text

-- The constants of `SecurityViolationType` that a worker reports, and its own label.
pub data Violation : Type 0 where
  memory_oom timeout_exceeded syscall_blocked compilation_failure : Violation

-- What a worker does to the outside. The errors of the store and of the bus are dropped.
pub data Effect (F : Type 0) : Type 0 where
  publishes : Text → ExecutionEvent F → Effect F
  saves : SubmissionState F → Effect F
  prepares : ExecutionRequest F → Effect F
  opens : SandboxContext F → Effect F
  cleans : SandboxContext F → Effect F
  records : Text → Verdict → Text → F → F → F → Effect F
  audits : Text → Text → Text → Violation → Text → Effect F
  violates : Violation → Effect F

-- The host's state, and the effects so far, the newest first.
pub record World (S F : Type 0) : Type 0 where
  pub os : S
  pub log : List (Effect F)

abbrev pub Job : Type 0 → Type 0 → Type 0 → Type 0
Job S F A = World S F → Step A × World S F

abbrev pub continue : {S F A B : Type 0} → Step A → (A → Job S F B) → Job S F B
continue (ret a) f w = f a w
continue (panic m) f w = (panic m, w)

infixl 5 ◌>>=◌ ◌>>◌
abbrev pub ◌>>=◌ : {S F A B : Type 0} → Job S F A → (A → Job S F B) → Job S F B
◌>>=◌ m f w = let (r, w') = m w in continue r f w'

abbrev pub ◌>>◌ : {S F A B : Type 0} → Job S F A → Job S F B → Job S F B
m >> n = m >>= λ _. n

abbrev pub pure : {S F A : Type 0} → A → Job S F A
pure a w = (ret a, w)

abbrev pub emit : {S F : Type 0} → Effect F → Job S F (Unit {0})
emit e w = (ret tt, record w { log = e ∷ w.log })

-- A call that changes the host.
abbrev pub on_host : {S F A : Type 0} → (S → A × S) → Job S F A
on_host f w = let (a, os) = f w.os in (ret a, record w { os = os })

-- A call that changes the host and may panic.
abbrev pub guarded : {S F A : Type 0} → (S → Step A × S) → Job S F A
guarded f w = let (r, os) = f w.os in (r, record w { os = os })

pub Step-cases : {A : Type 0} (r : Step A) → ((a : A) × (r ≡ ret a)) ⊎ ((m : Text) × (r ≡ panic m))
Step-cases (ret a) = inl (a, refl)
Step-cases (panic m) = inr (m, refl)
