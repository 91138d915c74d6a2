-- ===== src/Models/Request.antt =====
-- pkg/models/request.go: the execution request, its defaults and its caps.
use remote_runtime_engine.Base.{
  ℕ, ◌+◌, ◌/◌, ◌%◌, Bool, true, false, ◌||◌, Option, none, some, List, [], ◌∷◌, ◌++◌, Text, codes,
  text_eq, trim_space, to_lower, CaseTable, Float, ℤ, pos, ltb, leb_ℤ, ltb_ℤ, mul64, if◌then◌else◌,
}

abbrev pub default_time_limit_ms : ℤ
default_time_limit_ms = pos 2000

abbrev pub default_memory_limit_mb : ℤ
default_memory_limit_mb = pos 128

abbrev pub default_pids_limit : ℤ
default_pids_limit = pos 32

abbrev pub default_max_output_bytes : ℤ
default_max_output_bytes = pos 1048576

abbrev pub max_allowed_time_limit_ms : ℤ
max_allowed_time_limit_ms = pos 10000

abbrev pub max_allowed_memory_mb : ℤ
max_allowed_memory_mb = pos 1024

-- `DefaultCpuQuota`, 1.0.
abbrev pub default_cpu_quota : {F : Type 0} → Float F → F
default_cpu_quota fl = fl.of_int (pos 1)

pub record ExecutionRequest (F : Type 0) : Type 0 where
  pub id : Text
  pub language : Text
  pub code : Text
  pub stdin : Text
  pub expected_output : Text
  pub time_limit_ms : ℤ
  pub memory_limit_mb : ℤ
  pub cpu_quota : F
  pub pids_limit : ℤ
  pub max_output_bytes : ℤ
  pub sandbox_type : Text

abbrev pub is_empty : Text → Bool
is_empty [] = true
is_empty (c ∷ s) = false

hex_digit : ℕ → ℕ
hex_digit d = if ltb d 10 then 48 + d else 87 + d

-- `hex.EncodeToString`.
unfoldable pub hex : List ℕ → Text
unfolding hex_digit
hex [] = []
hex (b ∷ bs) = hex_digit (b / 16) ∷ hex_digit (b % 16) ∷ hex bs

-- What `generateExecutionID` reads: eight random bytes, unless the read fails, and the formatted time.
pub record Entropy : Type 0 where
  pub bytes : Option (List ℕ)
  pub stamp : Text

unfoldable pub generate_execution_id : Entropy → Text
generate_execution_id e = elim e.bytes [
  | none ↦ codes "exec-" ++ e.stamp
  | some bs ↦ codes "exec-" ++ hex bs
]

-- The aliases of a trimmed, lower-case language name.
unfoldable pub alias : Text → Text
alias l =
    let py = if text_eq l (codes "py") || text_eq l (codes "python") then codes "python3" else l in
    if text_eq py (codes "c++") || text_eq py (codes "g++") then codes "cpp" else py

unfoldable pub normalize_language : CaseTable → Text → Text
normalize_language table l = alias (to_lower table (trim_space l))

-- `if x <= 0 { x = d } else if x > cap { x = cap }`
unfoldable pub cap_limit : ℤ → ℤ → ℤ → ℤ
cap_limit d cap x = if leb_ℤ x (pos 0) then d else if ltb_ℤ cap x then cap else x

-- `if x <= 0 { x = d }`
unfoldable pub or_default : ℤ → ℤ → ℤ
or_default d x = if leb_ℤ x (pos 0) then d else x

unfoldable pub or_default_quota : {F : Type 0} → Float F → F → F
or_default_quota fl q = if fl.le q fl.zero_f then default_cpu_quota fl else q

unfoldable pub or_text : Text → Text → Text
or_text d s = if is_empty s then d else s

-- `(*ExecutionRequest).Normalize`.
unfoldable pub normalize :
    {F : Type 0} → Float F → CaseTable → Entropy → ExecutionRequest F → ExecutionRequest F
unfolding cap_limit or_default or_default_quota or_text
normalize fl table e r = record r {
  id = or_text (generate_execution_id e) r.id;
  language = normalize_language table r.language;
  time_limit_ms = cap_limit default_time_limit_ms max_allowed_time_limit_ms r.time_limit_ms;
  memory_limit_mb = cap_limit default_memory_limit_mb max_allowed_memory_mb r.memory_limit_mb;
  cpu_quota = or_default_quota fl r.cpu_quota;
  pids_limit = or_default default_pids_limit r.pids_limit;
  max_output_bytes = or_default default_max_output_bytes r.max_output_bytes;
  sandbox_type = or_text (codes "auto") r.sandbox_type;
}

-- `TimeoutDuration`, in nanoseconds.
unfoldable pub timeout_duration : {F : Type 0} → ExecutionRequest F → ℤ
timeout_duration r = mul64 r.time_limit_ms 1000000
