-- ===== src/Security/Audit.antt =====
-- pkg/security/audit.go: the record of a violation. Its JSON encoding is a parameter, and the line that
-- the logger prints is the result.
use remote_runtime_engine.Base.{ℕ, Option, none, some, Text, codes, [], ◌++◌, Result, ok, err}

-- The constants of `SecurityViolationType`.
pub data ViolationType : Type 0 where
  syscall_blocked network_attempt memory_oom : ViolationType
  fork_bomb unauthorized_file timeout_exceeded : ViolationType

unfoldable pub violation_type_string : ViolationType → Text
violation_type_string syscall_blocked = codes "SECCOMP_SYSCALL_BLOCKED"
violation_type_string network_attempt = codes "NETWORK_SOCKET_DENIED"
violation_type_string memory_oom = codes "MEMORY_OOM_KILLED"
violation_type_string fork_bomb = codes "PID_EXHAUSTION_FORK_BOMB"
violation_type_string unauthorized_file = codes "UNAUTHORIZED_FILE_ACCESS"
violation_type_string timeout_exceeded = codes "WALL_CLOCK_TIMEOUT"

pub record AuditEvent : Type 0 where
  pub timestamp : ℕ
  pub submission_id : Text
  pub violation_type : ViolationType
  pub language : Text
  pub sandbox_backend : Text
  pub details : Text
  pub client_ip : Text
  pub host_name : Text

-- The prefix of `auditLogger`.
abbrev pub audit_prefix : Text
audit_prefix = codes "[SECURITY AUDIT] "

-- What follows `json.Marshal`: an event that cannot be encoded prints nothing.
unfoldable pub printed : Result Text Text → Option Text
printed (ok line) = some (audit_prefix ++ line)
printed (err e) = none

-- `LogViolation` on a host of some name, which is empty if it is unknown, at the time `now`.
unfoldable pub log_violation :
    (AuditEvent → Result Text Text)
    → Text
    → ℕ
    → Text
    → Text
    → Text
    → ViolationType
    → Text
    → Option Text
unfolding printed
log_violation marshal hostname now submission_id lang sandbox v_type details = printed (
    marshal (record {
      timestamp = now;
      submission_id = submission_id;
      violation_type = v_type;
      language = lang;
      sandbox_backend = sandbox;
      details = details;
      client_ip = [];
      host_name = hostname;
    }))
