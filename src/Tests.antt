-- ===== src/Tests.antt =====
-- Concrete inputs, and the theorems at them.
mod Models
mod Sandbox
mod Queue
mod Worker
mod Engine
mod Events
mod Api
mod Pool
pub mod Codec
mod StateCodec
mod Contracts
mod Stores
mod Live
mod Workspace
mod Cli
mod Redis
mod System
mod Metrics
mod Broadcast
mod Daemons
use remote_runtime_engine.Base.{
  ℕ, zero, suc, ◌+◌, ◌*◌, ◌/◌, ◌<◌, ◌≡◌, refl, Bool, true, false, List, [], ◌∷◌, Option, none, some,
  Text, codes, ℤ, pos, pos_part, ltb, leb, Float, CaseTable, arith,
}
use remote_runtime_engine.Models.Request.{ExecutionRequest, Entropy}
use remote_runtime_engine.Queue.{TestCase, SubmissionJob}

pub below_itself : (a : ℕ) → ltb a a ≡ false
below_itself a = ground arith

pub below_below : (a b c : ℕ) → ltb a b ≡ true → ltb b c ≡ true → ltb a c ≡ true
below_below a b c h k = ground arith

-- Whole numbers in place of floats.
abbrev pub whole : Float ℕ
whole = record {
  zero_f = 0;
  of_int = pos_part;
  to_int = pos;
  add = λ a b. a + b;
  mul = λ a b. a * b;
  div = λ a b. a / b;
  lt = ltb;
  le = leb;
  two_decimals = λ a. (48 + a) ∷ [];
  lt_irrefl = below_itself;
  lt_trans = below_below;
}

-- No folding above ASCII.
abbrev pub ascii : CaseTable
ascii = record { lower = λ c. c }

abbrev pub entropy : Entropy
entropy = record { bytes = some (1 ∷ 255 ∷ []); stamp = [] }

abbrev pub wild_request : ExecutionRequest ℕ
wild_request = record {
  id = [];
  language = codes " PY";
  code = codes "pass";
  stdin = [];
  expected_output = codes "3";
  time_limit_ms = pos 60000;
  memory_limit_mb = pos 0;
  cpu_quota = 0;
  pids_limit = pos 0;
  max_output_bytes = pos 4;
  sandbox_type = [];
}

abbrev pub secret_case : TestCase
secret_case = record { id = codes "tc-1"; input = []; expected_output = []; is_hidden = true }

abbrev pub sample_job : SubmissionJob ℕ
sample_job = record {
  submission_id = codes "sub-1";
  language = codes "cpp";
  code = codes "main";
  time_limit_ms = pos 99999;
  memory_limit_mb = pos 0;
  cpu_quota = 0;
  pids_limit = pos 0;
  max_output_bytes = pos 0;
  sandbox_type = codes "dev";
  test_cases = secret_case ∷ secret_case ∷ [];
  enqueued_at = 0;
}
