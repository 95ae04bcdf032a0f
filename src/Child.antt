-- ===== src/Child.antt =====
-- `Command::execute` of src/command.cpp: the stages of the child, each of which may end it, and the
-- parent's exit status. The build has libcap and libseccomp.
pub mod Stages
pub mod Confined
pub mod Target
pub mod Profiles
pub mod Reaches
pub mod Status
pub mod Records
use voix.Base.{
  ℕ, ◌+◌, Bool, true, false, not, ◌&&◌, ◌||◌, Option, none, some, List, [], ◌∷◌, Text, codes,
  is_empty, leb, ltb, ◌==◌, nat_eq, list_eq, if◌then◌else◌,
}
use voix.Rule.{Rule}
use voix.Identity.{UserIdentity}
use voix.Files.{Kernel, Expected, value, unexpected, ExecutableInfo}
use voix.Files.Executables.{resolve_executable, open_executable}
use voix.Config.{Config, SecurityProfile, k_seccomp_mode_allowlist, k_seccomp_mode_blacklist}
use voix.Environment.{CommandOptions, resolve_profile, sanitize_environment, apply_environment}
use voix.Environment.Table.{Env}
use voix.Shell.{exec_args}
use voix.Security.Seccomp.{Libseccomp, Filter, apply_seccomp_blacklist, apply_seccomp_allowlist}

pub data Resource : Type 0 where
  nofile nproc core : Resource

-- What the kernel answers to the child's calls: whether each succeeds.
pub record Calls : Type 0 where
  pub sigmask_ok : Bool
  pub setgroups_ok : Bool
  pub setgid_ok : Bool
  pub setuid_ok : Bool
  pub drop_caps_ok : Bool  -- all of the calls of `dropCapabilities`
  pub getrlimit_nofile : Option ℕ
  pub setrlimit_ok : Resource → Bool
  pub dup2_ok : Bool
  pub close_range_ok : Bool  -- the syscall is there and succeeds
  pub no_new_privs_ok : Bool
  pub fcntl_ok : Bool  -- both calls of `do_exec`
  pub seccomp : Libseccomp

pub record Limit : Type 0 where
  pub resource : Resource
  pub cur : ℕ
  pub max : ℕ

-- The attributes of the child that the stages change.
pub record Process : Type 0 where
  pub default_signals : Bool
  pub umask : ℕ
  pub groups : List ℕ
  pub gid : ℕ
  pub uid : ℕ
  pub capabilities : Bool  -- whether any are left
  pub environment : Env
  pub limits : List Limit
  pub open_fds : List ℕ
  pub no_new_privs : Bool
  pub filter : Option Filter

-- A stage gives the process afterwards, or the status of its `_exit`.
infixl 5 ◌>>=◌
abbrev pub ◌>>=◌ : {A B : Type 0} → Expected ℕ A → (A → Expected ℕ B) → Expected ℕ B
value a >>= f = f a
unexpected status >>= f = unexpected status

unfoldable pub reset_child_signals_and_umask : Calls → Process → Expected ℕ Process
reset_child_signals_and_umask calls p =
    if not calls.sigmask_ok
    then unexpected 70
    else value (record p { default_signals = true; umask = 18 })

unfoldable set_groups : Calls → UserIdentity → Process → Expected ℕ Process
set_groups calls target p =
    if is_empty target.groups
    then value p
    else if not calls.setgroups_ok
    then unexpected 126
    else value (record p { groups = target.groups })

unfoldable set_gid : Calls → UserIdentity → Process → Expected ℕ Process
set_gid calls target p =
    if not calls.setgid_ok then unexpected 126 else value (record p { gid = target.gid })

unfoldable set_uid : Calls → UserIdentity → Process → Expected ℕ Process
set_uid calls target p =
    if not calls.setuid_ok then unexpected 126 else value (record p { uid = target.uid })

unfoldable pub apply_privilege_transition : Calls → UserIdentity → Process → Expected ℕ Process
unfolding set_groups set_gid set_uid
apply_privilege_transition calls target p = do
  grouped ← set_groups calls target p
  owned ← set_gid calls target grouped
  set_uid calls target owned

unfoldable pub apply_capability_drop : Calls → SecurityProfile → Process → Expected ℕ Process
apply_capability_drop calls profile p =
    if profile.retain_full_capabilities
    then value p
    else if not calls.drop_caps_ok
    then unexpected 1
    else value (record p { capabilities = false })

unfoldable set_limit : Calls → Resource → ℕ → ℕ → Process → Expected ℕ Process
set_limit calls resource cur max p =
    if not (calls.setrlimit_ok resource)
    then unexpected 126
    else value
        (record p { limits = record { resource = resource; cur = cur; max = max } ∷ p.limits })

-- `setResourceLimits`
unfoldable pub set_resource_limits : Calls → Process → Expected ℕ Process
unfolding set_limit
set_resource_limits calls p = do
  files ← set_limit calls nofile 1024 4096 p
  processes ← set_limit calls nproc 512 1024 files
  set_limit calls core 0 0 processes

unfoldable pub keep_fds : (ℕ → Bool) → List ℕ → List ℕ
keep_fds keep [] = []
keep_fds keep (fd ∷ fds) = let rest = keep_fds keep fds in if keep fd then fd ∷ rest else rest

-- The end of the loop that closes descriptors one by one.
abbrev pub max_fd : Option ℕ → ℕ
max_fd none = 4096
max_fd (some limit) = if leb limit 65536 then limit else 65536

-- The executable's descriptor moved to 3.
abbrev move_fd : ℕ → List ℕ → List ℕ
move_fd executable_fd fds =
    if executable_fd == 3
    then fds
    else 3 ∷ keep_fds (λ fd. not (fd == 3) && not (fd == executable_fd)) fds

abbrev pub survives : Calls → ℕ → Bool
survives calls fd =
    if calls.close_range_ok then ltb fd 4 else ltb fd 4 || leb (max_fd calls.getrlimit_nofile) fd

unfoldable pub close_fds : Calls → SecurityProfile → ℕ → Process → Expected ℕ (Process × ℕ)
unfolding keep_fds
close_fds calls profile executable_fd p =
    if profile.retain_full_capabilities
    then value (p, executable_fd)
    else if not (executable_fd == 3) && not calls.dup2_ok
    then unexpected 126
    else value
        (record p { open_fds = keep_fds (survives calls) (move_fd executable_fd p.open_fds) }, 3)

unfoldable pub apply_resource_limits_and_close_fds :
    Calls → SecurityProfile → ℕ → Process → Expected ℕ (Process × ℕ)
apply_resource_limits_and_close_fds calls profile executable_fd p = do
  limited ← (if profile.enable_resource_limits then set_resource_limits calls p else value p)
  close_fds calls profile executable_fd limited

unfoldable load : Expected ℕ Filter → Process → Expected ℕ Process
load (unexpected status) p = unexpected status
load (value filter) p = value (record p { filter = some filter })

-- The filter that the profile's mode asks for; 78 is `ExitCode::Config`.
unfoldable pub apply_seccomp : Calls → SecurityProfile → Config → Process → Expected ℕ Process
unfolding load
apply_seccomp calls profile config p =
    if profile.seccomp_mode == k_seccomp_mode_allowlist
    then load (apply_seccomp_allowlist calls.seccomp profile.seccomp_allow) p
    else if profile.seccomp_mode == k_seccomp_mode_blacklist
    then if config.seccomp_enabled && profile.enable_seccomp
      then load (apply_seccomp_blacklist calls.seccomp) p
      else value p
    else unexpected 78

unfoldable pub apply_kernel_confinement :
    Calls → SecurityProfile → Config → Process → Expected ℕ Process
apply_kernel_confinement calls profile config p =
    if profile.retain_full_capabilities
    then value p
    else if not calls.no_new_privs_ok
    then unexpected 126
    else apply_seccomp calls profile config (record p { no_new_privs = true })

-- What `fexecve` is called with.
pub record Execution : Type 0 where
  pub process : Process
  pub fd : ℕ
  pub argv : List Text

unfoldable pub do_exec :
    Calls → Text → List Text → CommandOptions → UserIdentity → ℕ → Process → Expected ℕ Execution
do_exec calls cmd_str args options target executable_fd p =
    if not calls.fcntl_ok
    then unexpected 126
    else value (record {
      process = p;
      fd = executable_fd;
      argv = exec_args options.login_shell cmd_str args target;
    })

abbrev pub target_name : UserIdentity → Text
target_name target = if is_empty target.username then codes "root" else target.username

-- The child, up to its call of `fexecve`; `raw_env` is the caller's environment.
unfoldable pub run_child :
    Calls
    → Config
    → CommandOptions
    → Rule
    → UserIdentity
    → List Text
    → Text
    → List Text
    → ℕ
    → Process
    → Expected ℕ Execution
run_child calls config options rule target raw_env policy_path args executable_fd p = do
  let profile = resolve_profile config rule (target_name target)
  let saved_env = sanitize_environment profile options raw_env
  reset ← reset_child_signals_and_umask calls p
  switched ← apply_privilege_transition calls target reset
  dropped ← apply_capability_drop calls profile switched
  scrubbed ← apply_resource_limits_and_close_fds calls profile executable_fd (record dropped {
    environment = apply_environment profile config options rule target saved_env;
  })
  confined ← apply_kernel_confinement calls profile config scrubbed.0
  do_exec calls policy_path args options target scrubbed.1 confined

-- What becomes of the child, as the parent sees it.
pub data Outcome : Type 0 where
  fork_failed wait_failed other_status : Outcome
  exited signaled : ℕ → Outcome

abbrev pub parent_status : Outcome → ℕ
parent_status fork_failed = 70
parent_status wait_failed = 70
parent_status other_status = 70
parent_status (exited status) = status
parent_status (signaled signum) = 128 + signum

-- The file that is opened: the target's shell for a login shell.
unfoldable pub executable_to_open :
    Kernel → ℕ → ExecutableInfo → CommandOptions → UserIdentity → Option ExecutableInfo
executable_to_open k owner command options target =
    if options.login_shell
    then elim (resolve_executable k owner
        (if is_empty target.shell then codes "/bin/sh" else target.shell) []) [
          | value info ↦ some info
          | unexpected e ↦ none
        ]
    else some command

-- `Command::execute` in the parent; the outcome is that of the child of an open executable.
unfoldable pub execute :
    Kernel → ℕ → Bool → (ℕ → Outcome) → ExecutableInfo → CommandOptions → UserIdentity → ℕ
execute k owner block_ok outcome command options target =
    elim (executable_to_open k owner command options target) [
      | none ↦ 126
      | some executable ↦ elim (open_executable k owner executable) [
        | unexpected e ↦ 126
        | value fd ↦ if not block_ok then 70 else parent_status (outcome fd)
      ]
    ]

-- What the system gives to one command: the kernel's answers, those to the child's calls, whether
-- the signals are blocked and the fork succeeds, the caller's environment, the process before the
-- stages, whether `fexecve` succeeds, and what becomes of the program that is executed.
pub record Machine : Type 0 where
  pub kernel : Kernel
  pub calls : Calls
  pub block_ok : Bool
  pub fork_ok : Bool
  pub raw_env : List Text
  pub process : Process
  pub fexecve_ok : Execution → Bool
  pub program : Execution → Outcome

unfoldable pub child_outcome :
    Machine
    → Config
    → ExecutableInfo
    → List Text
    → CommandOptions
    → Rule
    → UserIdentity
    → ℕ
    → Outcome
child_outcome m config command args options rule target executable_fd =
    if not m.fork_ok
    then fork_failed
    else elim (run_child m.calls config options rule target m.raw_env command.policy_path args
        executable_fd m.process) [
          | unexpected status ↦ exited status
          | value execution ↦ if m.fexecve_ok execution then m.program execution else exited 126
        ]

-- `Command::execute` as a whole; executables belong to root.
unfoldable pub run_command :
    Machine → Config → ExecutableInfo → List Text → CommandOptions → Rule → UserIdentity → ℕ
unfolding child_outcome
run_command m config command args options rule target =
    execute m.kernel 0 m.block_ok (child_outcome m config command args options rule target) command
      options target
