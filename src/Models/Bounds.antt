-- ===== src/Models/Bounds.antt =====
-- What `Normalize` of pkg/models/request.go guarantees to the sandboxes.
use remote_runtime_engine.Base.{
  ℕ, ◌*◌, ◌≤◌, ◌≡◌, ap, ◌∙◌, ◌≢◌, [], ◌∷◌, Text, CaseTable, Float, ℤ, pos, pos_part, mul64,
  mul64_small, ◌≤ℤ◌, arith, Option-cases, inl, inr,
}
use remote_runtime_engine.Models.Request.{
  ExecutionRequest, Entropy, normalize, cap_limit, or_default, or_text, timeout_duration,
  default_max_output_bytes, default_memory_limit_mb, default_pids_limit, default_time_limit_ms,
  max_allowed_time_limit_ms, max_allowed_memory_mb, generate_execution_id,
}

-- The limits of a request, as every sandbox relies on them.
pub record IsBounded {F : Type 0} (r : ExecutionRequest F) : Type 0 where
  pub time_positive : pos 1 ≤ℤ r.time_limit_ms
  pub time_capped : r.time_limit_ms ≤ℤ max_allowed_time_limit_ms
  pub memory_positive : pos 1 ≤ℤ r.memory_limit_mb
  pub memory_capped : r.memory_limit_mb ≤ℤ max_allowed_memory_mb
  pub pids_positive : pos 1 ≤ℤ r.pids_limit
  pub output_positive : pos 1 ≤ℤ r.max_output_bytes
  pub named : r.id ≢ []
  pub preferred : r.sandbox_type ≢ []

cap_limit_bounds :
    (d cap x : ℤ)
    → pos 1 ≤ℤ d
    → d ≤ℤ cap
    → (pos 1 ≤ℤ cap_limit d cap x) × (cap_limit d cap x ≤ℤ cap)
unfolding cap_limit
cap_limit_bounds d cap x h k = ground arith

or_default_pos : (d x : ℤ) → pos 1 ≤ℤ d → pos 1 ≤ℤ or_default d x
unfolding or_default
or_default_pos d x h = ground arith

or_text-ne-nil : (d s : Text) → d ≢ [] → or_text d s ≢ []
unfolding or_text
or_text-ne-nil d [] h = h
or_text-ne-nil d (c ∷ s) h = λ e. cc

generate_execution_id-ne-nil : (e : Entropy) → generate_execution_id e ≢ []
unfolding generate_execution_id
generate_execution_id-ne-nil e h = elim (Option-cases e.bytes) [
  | inl n ↦ ground arith
  | inr (bs, n) ↦ ground arith
]

module _ {F : Type 0} (fl : Float F) (table : CaseTable) where
  -- After `Normalize` the time and memory limits lie between 1 and their hard caps, the pids and
  -- output limits are positive, and the request has an id and a sandbox preference, whatever the
  -- request held.
  pub normalize-IsBounded :
      (e : Entropy) (r : ExecutionRequest F) → IsBounded (normalize fl table e r)
  unfolding normalize
  normalize-IsBounded e r = record {
    time_positive =
        (cap_limit_bounds default_time_limit_ms max_allowed_time_limit_ms r.time_limit_ms
          (omega arith) (omega arith)).0;
    time_capped =
        (cap_limit_bounds default_time_limit_ms max_allowed_time_limit_ms r.time_limit_ms
          (omega arith) (omega arith)).1;
    memory_positive =
        (cap_limit_bounds default_memory_limit_mb max_allowed_memory_mb r.memory_limit_mb
          (omega arith) (omega arith)).0;
    memory_capped =
        (cap_limit_bounds default_memory_limit_mb max_allowed_memory_mb r.memory_limit_mb
          (omega arith) (omega arith)).1;
    pids_positive = or_default_pos default_pids_limit r.pids_limit (omega arith);
    output_positive = or_default_pos default_max_output_bytes r.max_output_bytes (omega arith);
    named = or_text-ne-nil _ r.id (generate_execution_id-ne-nil e);
    preferred = or_text-ne-nil _ r.sandbox_type (λ h. cc);
  }

-- The memory limit in bytes, `MemoryLimitMB*1024*1024` of pkg/sandbox/native_linux.go.
unfoldable pub memory_bytes : {F : Type 0} → ExecutionRequest F → ℤ
memory_bytes r = mul64 (mul64 r.memory_limit_mb 1024) 1024

cap_exact : (x : ℤ) (k : ℕ) → pos 1 ≤ℤ x → x ≤ℤ pos k → (x ≡ pos (pos_part x)) × (pos_part x ≤ k)
cap_exact x k h j = ground arith

timeout_exact : (n : ℕ) → n ≤ 10000 → mul64 (pos n) 1000000 ≡ pos (n * 1000000)
timeout_exact n h = mul64_small n 1000000 (omega arith)

memory_exact : (n : ℕ) → n ≤ 1024 → mul64 (mul64 (pos n) 1024) 1024 ≡ pos (n * 1048576)
memory_exact n h =
    rw (mul64_small n 1024 (omega arith), mul64_small (n * 1024) 1024 (omega arith))
      (ap pos (omega arith))

module _ {F : Type 0} (r : ExecutionRequest F) (b : IsBounded r) where
  -- For a request within its limits the timeout in nanoseconds and the memory limit in bytes are the
  -- exact products: the int64 multiplications of the sandboxes do not wrap.
  pub limits_exact :
      (timeout_duration r ≡ pos (pos_part r.time_limit_ms * 1000000))
      × (memory_bytes r ≡ pos (pos_part r.memory_limit_mb * 1048576))
  unfolding timeout_duration memory_bytes
  limits_exact =
      let time = cap_exact r.time_limit_ms 10000 b.time_positive b.time_capped in
      let memory = cap_exact r.memory_limit_mb 1024 b.memory_positive b.memory_capped in
      (
        ap (λ x. mul64 x 1000000) time.0 ∙ timeout_exact (pos_part r.time_limit_ms) time.1,
        ap (λ x. mul64 (mul64 x 1024) 1024) memory.0
            ∙ memory_exact (pos_part r.memory_limit_mb) memory.1,
      )
