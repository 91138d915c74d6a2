-- ===== src/Store.antt =====
-- pkg/store/store.go and pkg/store/memory_store.go: the state of a submission, and the store that
-- keeps it in memory. Each method holds the lock for all of its body, and copies what it stores.
pub mod Lookup
pub mod Contract
pub mod Redis
use remote_runtime_engine.Base.{
  ℕ, Bool, Option, none, some, List, [], Text, Float, Result, ok, err, lookup, insert,
}
use remote_runtime_engine.Models.{Verdict, CompilationResult}
use remote_runtime_engine.Events.{EventStatus, TestCaseResult}

pub record SubmissionState (F : Type 0) : Type 0 where
  pub submission_id : Text
  pub status : EventStatus
  pub verdict : Verdict
  pub language : Text
  pub total_test_cases : ℕ
  pub passed_test_cases : ℕ
  pub results : List (TestCaseResult F)
  pub compilation : Option (CompilationResult F)
  pub peak_memory_mb : F
  pub total_cpu_time_ms : F
  pub total_wall_time_ms : F
  pub error_details : Text
  pub created_at : ℕ
  pub updated_at : ℕ
  pub completed_at : Option ℕ

-- The literal with a submission, its status, verdict and language, and nothing else.
abbrev pub plain_state :
    {F : Type 0} → Float F → Text → EventStatus → Verdict → Text → SubmissionState F
plain_state fl id s v lang = record {
  submission_id = id;
  status = s;
  verdict = v;
  language = lang;
  total_test_cases = 0;
  passed_test_cases = 0;
  results = [];
  compilation = none;
  peak_memory_mb = fl.zero_f;
  total_cpu_time_ms = fl.zero_f;
  total_wall_time_ms = fl.zero_f;
  error_details = [];
  created_at = 0;
  updated_at = 0;
  completed_at = none;
}

pub data StoreError : Type 0 where
  not_found : StoreError

pub record MemoryStore (F : Type 0) : Type 0 where
  pub states : List (Text × SubmissionState F)

unfoldable pub new_memory_store : {F : Type 0} → MemoryStore F
new_memory_store = record { states = [] }

-- `SaveState` at the time `now`; a nil state is ignored.
unfoldable pub save_state :
    {F : Type 0} → ℕ → Option (SubmissionState F) → MemoryStore F → MemoryStore F
save_state now none m = m
save_state now (some s) m = record {
  states = insert s.submission_id (record s { updated_at = now }) m.states;
}

unfoldable pub get_state :
    {F : Type 0} → Text → MemoryStore F → Result StoreError (SubmissionState F)
get_state id m = elim (lookup id m.states) [ none ↦ err not_found | some s ↦ ok s ]

unfoldable pub close : {F : Type 0} → MemoryStore F → MemoryStore F
close m = record { states = [] }
