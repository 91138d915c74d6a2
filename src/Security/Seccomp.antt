-- ===== src/Security/Seccomp.antt =====
-- pkg/security/seccomp.go: the profile of system calls.
use remote_runtime_engine.Base.{
  ℕ, ◌≡◌, refl, ap, sym, ◌∙◌, Bool, true, false, not, ◌&&◌, ◌||◌, List, [], ◌∷◌, ◌++◌, Text, codes,
  text_eq, text_eq_sound, if◌then◌else◌, arith,
}

-- A filter on a parameter, of uint64.
pub record Arg : Type 0 where
  pub index : ℕ
  pub value : ℕ
  pub value_two : ℕ
  pub op : Text

pub record SyscallRule : Type 0 where
  pub names : List Text
  pub action : Text
  pub args : List Arg

pub record SeccompProfile : Type 0 where
  pub default_action : Text
  pub architectures : List Text
  pub syscalls : List SyscallRule

-- Files, memory and processes.
abbrev pub allowed : SyscallRule
allowed = record {
  names =
      codes "read"
      ∷ codes "write"
      ∷ codes "open"
      ∷ codes "openat"
      ∷ codes "close"
      ∷ codes "fstat"
      ∷ codes "stat"
      ∷ codes "lstat"
      ∷ codes "lseek"
      ∷ codes "mmap"
      ∷ codes "mprotect"
      ∷ codes "munmap"
      ∷ codes "brk"
      ∷ codes "rt_sigaction"
      ∷ codes "rt_sigprocmask"
      ∷ codes "rt_sigreturn"
      ∷ codes "ioctl"
      ∷ codes "pread64"
      ∷ codes "pwrite64"
      ∷ codes "readv"
      ∷ codes "writev"
      ∷ codes "access"
      ∷ codes "faccessat"
      ∷ codes "faccessat2"
      ∷ codes "pipe"
      ∷ codes "pipe2"
      ∷ codes "select"
      ∷ codes "pselect6"
      ∷ codes "poll"
      ∷ codes "ppoll"
      ∷ codes "nanosleep"
      ∷ codes "clock_nanosleep"
      ∷ codes "clock_gettime"
      ∷ codes "clock_getres"
      ∷ codes "gettimeofday"
      ∷ codes "getpid"
      ∷ codes "getppid"
      ∷ codes "gettid"
      ∷ codes "getuid"
      ∷ codes "getgid"
      ∷ codes "geteuid"
      ∷ codes "getegid"
      ∷ codes "exit"
      ∷ codes "exit_group"
      ∷ codes "futex"
      ∷ codes "sched_yield"
      ∷ codes "sched_getaffinity"
      ∷ codes "arch_prctl"
      ∷ codes "set_tid_address"
      ∷ codes "set_robust_list"
      ∷ codes "get_robust_list"
      ∷ codes "rseq"
      ∷ codes "prlimit64"
      ∷ codes "getrandom"
      ∷ codes "sysinfo"
      ∷ codes "uname"
      ∷ codes "getcwd"
      ∷ codes "readlink"
      ∷ codes "readlinkat"
      ∷ codes "fcntl"
      ∷ codes "dup"
      ∷ codes "dup2"
      ∷ codes "dup3"
      ∷ codes "sigaltstack"
      ∷ codes "epoll_create"
      ∷ codes "epoll_create1"
      ∷ codes "epoll_ctl"
      ∷ codes "epoll_wait"
      ∷ codes "epoll_pwait"
      ∷ codes "eventfd"
      ∷ codes "eventfd2"
      ∷ codes "clone"
      ∷ codes "clone3"
      ∷ codes "wait4"
      ∷ codes "waitid"
      ∷ codes "execve"
      ∷ [];
  action = codes "SCMP_ACT_ALLOW";
  args = [];
}

-- Calls that change the host.
abbrev pub killed : SyscallRule
killed = record {
  names =
      codes "ptrace"
      ∷ codes "reboot"
      ∷ codes "kexec_load"
      ∷ codes "kexec_file_load"
      ∷ codes "bpf"
      ∷ codes "setns"
      ∷ codes "unshare"
      ∷ codes "mount"
      ∷ codes "umount"
      ∷ codes "umount2"
      ∷ codes "pivot_root"
      ∷ codes "chroot"
      ∷ codes "syslog"
      ∷ codes "init_module"
      ∷ codes "finit_module"
      ∷ codes "delete_module"
      ∷ codes "iopl"
      ∷ codes "ioperm"
      ∷ codes "swapon"
      ∷ codes "swapoff"
      ∷ [];
  action = codes "SCMP_ACT_KILL_PROCESS";
  args = [];
}

-- The network.
abbrev pub denied : SyscallRule
denied = record {
  names =
      codes "socket"
      ∷ codes "bind"
      ∷ codes "connect"
      ∷ codes "listen"
      ∷ codes "accept"
      ∷ codes "accept4"
      ∷ codes "sendto"
      ∷ codes "recvfrom"
      ∷ codes "sendmsg"
      ∷ codes "recvmsg"
      ∷ codes "shutdown"
      ∷ codes "getsockopt"
      ∷ codes "setsockopt"
      ∷ [];
  action = codes "SCMP_ACT_ERRNO";
  args = [];
}

-- `DefaultSeccompProfile`.
unfoldable pub default_seccomp_profile : SeccompProfile
default_seccomp_profile = record {
  default_action = codes "SCMP_ACT_ERRNO";
  architectures = codes "SCMP_ARCH_X86_64" ∷ codes "SCMP_ARCH_X86" ∷ codes "SCMP_ARCH_AARCH64" ∷ [];
  syscalls = allowed ∷ killed ∷ denied ∷ [];
}

-- Whether a call is among the names.
unfoldable pub names_call : Text → List Text → Bool
names_call call [] = false
names_call call (n ∷ ns) = text_eq n call || names_call call ns

-- The action of the first rule that names the call, or else the default.
unfoldable pub decide : Text → List SyscallRule → Text → Text
unfolding names_call
decide by_default [] call = by_default
decide by_default (r ∷ rs) call =
    let rest = decide by_default rs call in if names_call call r.names then r.action else rest

unfoldable named_by : Text → List SyscallRule → Bool
named_by call [] = false
named_by call (r ∷ rs) = names_call call r.names || named_by call rs

unfoldable apart : List Text → List SyscallRule → Bool
apart [] rs = true
apart (n ∷ ns) rs = not (named_by n rs) && apart ns rs

-- No call is named by two rules.
unfoldable disjoint : List SyscallRule → Bool
disjoint [] = true
disjoint (r ∷ rs) = apart r.names rs && disjoint rs

apart-named :
    (call : Text) (ns : List Text) (rs : List SyscallRule)
    → apart ns rs ≡ true
    → names_call call ns ≡ true
    → named_by call rs ≡ false
unfolding apart names_call
apart-named call [] rs h k = absurd (cc)
apart-named call (n ∷ ns) rs h k = ground (arith, text_eq_sound n call, apart-named call ns rs)

named_by-append :
    (call : Text) (before : List SyscallRule) (r : SyscallRule) (after : List SyscallRule)
    → names_call call r.names ≡ true
    → named_by call (before ++ r ∷ after) ≡ true
unfolding named_by
named_by-append call [] r after h = ground (arith, h)
named_by-append call (b ∷ before) r after h = ground (arith, named_by-append call before r after h)

decide-disjoint :
    (by_default call : Text) (before : List SyscallRule) (r : SyscallRule)
    (after : List SyscallRule)
    → disjoint (before ++ r ∷ after) ≡ true
    → names_call call r.names ≡ true
    → decide by_default (before ++ r ∷ after) call ≡ r.action
unfolding decide disjoint
decide-disjoint by_default call [] r after h k = simp (k) refl
decide-disjoint by_default call (b ∷ before) r after h k = ground (
  arith,
  decide-disjoint by_default call before r after,
  apart-named call b.names (before ++ r ∷ after),
  named_by-append call before r after k,
)

profile_disjoint : disjoint default_seccomp_profile.syscalls ≡ true
unfolding disjoint apart named_by names_call text_eq default_seccomp_profile
profile_disjoint = refl

-- The order of the rules of the default profile does not matter: every rule that names a system call
-- is the one that decides it.
pub decide-default_seccomp_profile :
    (call : Text) (before : List SyscallRule) (r : SyscallRule) (after : List SyscallRule)
    → default_seccomp_profile.syscalls ≡ before ++ r ∷ after
    → names_call call r.names ≡ true
    → decide default_seccomp_profile.default_action default_seccomp_profile.syscalls call ≡ r.action
decide-default_seccomp_profile call before r after e h =
    ap (λ rs. decide default_seccomp_profile.default_action rs call) e
    ∙ decide-disjoint default_seccomp_profile.default_action call before r after
        (ap disjoint (sym e) ∙ profile_disjoint) h
