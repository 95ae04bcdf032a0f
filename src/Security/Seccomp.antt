-- ===== src/Security/Seccomp.antt =====
-- The syscall filters of src/security.cpp, over libseccomp, which is a parameter.
pub mod Allowlist
pub mod Loads
use voix.Base.{
  ℕ, ◌≡◌, ◌↔◌, refl, sym, ap, ◌∙◌, Bool, true, false, not, Option, none, some, List, [], ◌∷◌, ◌++◌,
  Text, codes, is_empty, In, arith, inl, inr, ◌⊎◌, if◌then◌else◌, Option-cases,
}
use voix.Files.{Expected, value, unexpected}

-- The result of `seccomp_rule_add`: success, the three errors that say that the architecture lacks
-- the syscall, and any other error.
pub data Added : Type 0 where
  added edom enosys eopnotsupp failed : Added

-- libseccomp: `seccomp_init`, `seccomp_syscall_resolve_name` (`none` for __NR_SCMP_ERROR),
-- `SCMP_SYS`, `seccomp_rule_add` and `seccomp_load`.
pub record Libseccomp : Type 0 where
  pub init_ok : Bool
  pub resolve_name : Text → Option ℕ
  pub scmp_sys : Text → ℕ
  pub rule_add : ℕ → Added
  pub load_ok : Bool

-- A loaded filter: what happens to a syscall with no rule, and the syscalls that have one (a rule
-- does the opposite of the default).
pub record Filter : Type 0 where
  pub default_allow : Bool
  pub rules : List ℕ

abbrev pub k_allowlist_baseline : List Text
k_allowlist_baseline =
    codes "execve"
    ∷ codes "execveat"
    ∷ codes "exit"
    ∷ codes "exit_group"
    ∷ codes "brk"
    ∷ codes "mmap"
    ∷ codes "munmap"
    ∷ codes "mprotect"
    ∷ codes "mremap"
    ∷ codes "madvise"
    ∷ codes "arch_prctl"
    ∷ codes "set_tid_address"
    ∷ codes "set_robust_list"
    ∷ codes "rseq"
    ∷ codes "getpid"
    ∷ codes "gettid"
    ∷ codes "getppid"
    ∷ codes "getuid"
    ∷ codes "geteuid"
    ∷ codes "getgid"
    ∷ codes "getegid"
    ∷ codes "getgroups"
    ∷ codes "prlimit64"
    ∷ codes "sched_yield"
    ∷ codes "sched_getaffinity"
    ∷ codes "rt_sigaction"
    ∷ codes "rt_sigprocmask"
    ∷ codes "rt_sigreturn"
    ∷ codes "sigaltstack"
    ∷ codes "restart_syscall"
    ∷ codes "clock_gettime"
    ∷ codes "clock_nanosleep"
    ∷ codes "nanosleep"
    ∷ codes "gettimeofday"
    ∷ codes "time"
    ∷ codes "times"
    ∷ codes "read"
    ∷ codes "write"
    ∷ codes "readv"
    ∷ codes "writev"
    ∷ codes "pread64"
    ∷ codes "pwrite64"
    ∷ codes "lseek"
    ∷ codes "close"
    ∷ codes "dup"
    ∷ codes "dup2"
    ∷ codes "dup3"
    ∷ codes "fcntl"
    ∷ codes "ioctl"
    ∷ codes "open"
    ∷ codes "openat"
    ∷ codes "stat"
    ∷ codes "fstat"
    ∷ codes "lstat"
    ∷ codes "newfstatat"
    ∷ codes "statx"
    ∷ codes "access"
    ∷ codes "faccessat"
    ∷ codes "faccessat2"
    ∷ codes "getcwd"
    ∷ codes "getdents64"
    ∷ codes "readlink"
    ∷ codes "readlinkat"
    ∷ codes "fstatfs"
    ∷ codes "statfs"
    ∷ codes "poll"
    ∷ codes "ppoll"
    ∷ codes "select"
    ∷ codes "pselect6"
    ∷ codes "epoll_create1"
    ∷ codes "epoll_ctl"
    ∷ codes "epoll_wait"
    ∷ codes "epoll_pwait"
    ∷ codes "eventfd2"
    ∷ codes "pipe"
    ∷ codes "pipe2"
    ∷ codes "futex"
    ∷ codes "getrandom"
    ∷ codes "uname"
    ∷ codes "sysinfo"
    ∷ codes "socket"
    ∷ codes "connect"
    ∷ codes "accept"
    ∷ codes "accept4"
    ∷ codes "bind"
    ∷ codes "listen"
    ∷ codes "sendto"
    ∷ codes "recvfrom"
    ∷ codes "sendmsg"
    ∷ codes "recvmsg"
    ∷ codes "shutdown"
    ∷ codes "getsockname"
    ∷ codes "getpeername"
    ∷ codes "setsockopt"
    ∷ codes "getsockopt"
    ∷ []

abbrev pub k_blacklist : List Text
k_blacklist =
    codes "kexec_load"
    ∷ codes "delete_module"
    ∷ codes "init_module"
    ∷ codes "finit_module"
    ∷ codes "reboot"
    ∷ codes "swapon"
    ∷ codes "swapoff"
    ∷ codes "ptrace"
    ∷ codes "bpf"
    ∷ codes "userfaultfd"
    ∷ codes "perf_event_open"
    ∷ codes "keyctl"
    ∷ codes "add_key"
    ∷ codes "request_key"
    ∷ codes "open_by_handle_at"
    ∷ codes "name_to_handle_at"
    ∷ codes "io_uring_setup"
    ∷ codes "process_vm_readv"
    ∷ codes "process_vm_writev"
    ∷ []

-- `validate_syscall_names`: the first name that is empty or unknown.
unfoldable pub validate_syscall_names : Libseccomp → List Text → Option Text
validate_syscall_names lib [] = none
validate_syscall_names lib (name ∷ names) =
    let rest = validate_syscall_names lib names in
    if is_empty name
    then some name
    else elim (lib.resolve_name name) [ none ↦ some name | some sc ↦ rest ]

-- One call of `seccomp_rule_add`: the rules afterwards, or `none` for an error that is not tolerated.
unfoldable pub add_rule : Libseccomp → ℕ → List ℕ → Option (List ℕ)
add_rule lib sc rules = elim (lib.rule_add sc) [
  | added ↦ some (rules ++ sc ∷ [])
  | failed ↦ none
  | _ ↦ some rules
]

-- `add_allow_rule`
unfoldable pub add_allow_rule : Libseccomp → Text → List ℕ → Option (List ℕ)
add_allow_rule lib name rules = elim (lib.resolve_name name) [
  | none ↦ none
  | some sc ↦ add_rule lib sc rules
]

unfoldable pub add_allow_rules : Libseccomp → List Text → List ℕ → Option (List ℕ)
add_allow_rules lib [] rules = some rules
add_allow_rules lib (name ∷ names) rules = elim (add_allow_rule lib name rules) [
  | none ↦ none
  | some more ↦ add_allow_rules lib names more
]

unfoldable pub add_kill_rules : Libseccomp → List Text → List ℕ → Option (List ℕ)
add_kill_rules lib [] rules = some rules
add_kill_rules lib (name ∷ names) rules = elim (add_rule lib (lib.scmp_sys name) rules) [
  | none ↦ none
  | some more ↦ add_kill_rules lib names more
]

-- `seccomp_load`; 126 is `ExitCode::NoExec`.
unfoldable pub load_filter : Libseccomp → Bool → Option (List ℕ) → Expected ℕ Filter
load_filter lib default_allow none = unexpected 126
load_filter lib default_allow (some rules) =
    if lib.load_ok
    then value (record { default_allow = default_allow; rules = rules })
    else unexpected 126

-- `applySeccompBlacklist`
unfoldable pub apply_seccomp_blacklist : Libseccomp → Expected ℕ Filter
apply_seccomp_blacklist lib =
    if not lib.init_ok
    then unexpected 126
    else load_filter lib true (add_kill_rules lib k_blacklist [])

-- The two loops of `applySeccompAllowlist`.
unfoldable pub add_allowlist : Libseccomp → List Text → Option (List ℕ)
add_allowlist lib extra_syscalls = elim (add_allow_rules lib k_allowlist_baseline []) [
  | none ↦ none
  | some rules ↦ add_allow_rules lib extra_syscalls rules
]

unfoldable pub apply_seccomp_allowlist : Libseccomp → List Text → Expected ℕ Filter
apply_seccomp_allowlist lib extra_syscalls =
    if not lib.init_ok
    then unexpected 126
    else load_filter lib false (add_allowlist lib extra_syscalls)
