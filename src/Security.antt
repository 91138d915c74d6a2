-- ===== src/Security.antt =====
-- pkg/security: the profile of system calls, and the audit log.
pub mod Seccomp
pub mod Audit
