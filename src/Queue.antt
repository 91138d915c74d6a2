-- ===== src/Queue.antt =====
-- pkg/queue/queue.go: the job that travels from the API to the workers, and the errors of a queue.
pub mod Memory
pub mod Fifo
pub mod Race
pub mod Contract
pub mod Refinement
pub mod Redis
use remote_runtime_engine.Base.{
  ℕ, ◌≡◌, Bool, true, false, List, Text, codes, ℤ, Float, if◌then◌else◌, ◌==◌,
}
use remote_runtime_engine.Models.Request.{
  default_time_limit_ms, default_memory_limit_mb, default_pids_limit, default_max_output_bytes,
  or_default, or_default_quota, or_text,
}

pub record TestCase : Type 0 where
  pub id : Text
  pub input : Text
  pub expected_output : Text
  pub is_hidden : Bool

pub record SubmissionJob (F : Type 0) : Type 0 where
  pub submission_id : Text
  pub language : Text
  pub code : Text
  pub time_limit_ms : ℤ
  pub memory_limit_mb : ℤ
  pub cpu_quota : F
  pub pids_limit : ℤ
  pub max_output_bytes : ℤ
  pub sandbox_type : Text
  pub test_cases : List TestCase
  pub enqueued_at : ℕ

-- `ErrQueueEmpty`, `ErrQueueClosed`, `ErrBackpressureExceeded`, and the error of a context.
pub data QueueError : Type 0 where
  queue_empty queue_closed backpressure_exceeded context_done : QueueError

-- `(*SubmissionJob).Normalize`, which caps nothing.
unfoldable pub normalize_job : {F : Type 0} → Float F → ℕ → SubmissionJob F → SubmissionJob F
unfolding or_default or_default_quota or_text
normalize_job fl now j = record j {
  time_limit_ms = or_default default_time_limit_ms j.time_limit_ms;
  memory_limit_mb = or_default default_memory_limit_mb j.memory_limit_mb;
  cpu_quota = or_default_quota fl j.cpu_quota;
  pids_limit = or_default default_pids_limit j.pids_limit;
  max_output_bytes = or_default default_max_output_bytes j.max_output_bytes;
  sandbox_type = or_text (codes "auto") j.sandbox_type;
  enqueued_at = if j.enqueued_at == 0 then now else j.enqueued_at;
}
