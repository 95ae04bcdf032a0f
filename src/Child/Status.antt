-- ===== src/Child/Status.antt =====
-- `Command::execute` of src/command.cpp: the bounds of the exit status.
use voix.Base.{
  ℕ, ◌<◌, Bool, true, false, not, ◌&&◌, Option, none, some, List, [], Text, is_empty, arith, inl,
  inr, Bool-cases, ◌==◌, nat_eq, list_eq, if◌then◌else◌,
}
use voix.Rule.{Rule}
use voix.Identity.{UserIdentity}
use voix.Files.{Expected, value, unexpected, ExecutableInfo, FileError}
use voix.Files.Executables.{open_executable}
use voix.Config.{Config, SecurityProfile, k_seccomp_mode_allowlist, k_seccomp_mode_blacklist}
use voix.Security.Seccomp.{
  Filter, load_filter, apply_seccomp_blacklist, apply_seccomp_allowlist, add_kill_rules,
  add_allowlist, k_blacklist,
}
use voix.Environment.{CommandOptions, resolve_profile}
use voix.Child.{
  Calls, Process, Resource, nofile, nproc, core, reset_child_signals_and_umask,
  apply_privilege_transition, apply_capability_drop, set_limit, set_groups, set_gid, set_uid,
  close_fds, set_resource_limits, apply_resource_limits_and_close_fds, load, apply_seccomp,
  apply_kernel_confinement, Execution, do_exec, run_child, target_name, Outcome, parent_status,
  executable_to_open, execute, Machine, child_outcome, run_command, exited, fork_failed, ◌>>=◌,
}

-- A stage that ends the child with a byte, if it ends it.
abbrev Bounded : {A : Type 0} → Expected ℕ A → Type 0
Bounded (value a) = Unit
Bounded (unexpected status) = status < 256

bind-Bounded :
    {A B : Type 0} (r : Expected ℕ A) (f : A → Expected ℕ B)
    → Bounded r
    → ((a : A) → Bounded (f a))
    → Bounded (r >>= f)
bind-Bounded (value a) f h then_bounded = then_bounded a
bind-Bounded (unexpected status) f h then_bounded = h

if-Bounded :
    {A : Type 0} (b : Bool) (r s : Expected ℕ A)
    → Bounded r
    → Bounded s
    → Bounded (if b then r else s)
if-Bounded true r s h k = h
if-Bounded false r s h k = k

module _ (calls : Calls) where
  filter-Bounded :
      (default_allow : Bool) (made : Option (List ℕ))
      → Bounded (load_filter calls.seccomp default_allow made)
  unfolding load_filter
  filter-Bounded default_allow none = omega arith
  filter-Bounded default_allow (some rules) = if-Bounded calls.seccomp.load_ok _ _ tt (omega arith)

  blacklist-Bounded : Bounded (apply_seccomp_blacklist calls.seccomp)
  unfolding apply_seccomp_blacklist
  blacklist-Bounded =
      if-Bounded (not calls.seccomp.init_ok) _ _ (omega arith)
        (filter-Bounded true (add_kill_rules calls.seccomp k_blacklist []))

  allowlist-Bounded : (names : List Text) → Bounded (apply_seccomp_allowlist calls.seccomp names)
  unfolding apply_seccomp_allowlist
  allowlist-Bounded names =
      if-Bounded (not calls.seccomp.init_ok) _ _ (omega arith)
        (filter-Bounded false (add_allowlist calls.seccomp names))

  load-Bounded :
      (filter : Expected ℕ Filter) (p : Process) → Bounded filter → Bounded (load filter p)
  unfolding load
  load-Bounded (value f) p h = tt
  load-Bounded (unexpected status) p h = h

  set_limit-Bounded :
      (resource : Resource) (cur max : ℕ) (p : Process)
      → Bounded (set_limit calls resource cur max p)
  unfolding set_limit
  set_limit-Bounded resource cur max p =
      if-Bounded (not (calls.setrlimit_ok resource)) _ _ (omega arith) tt

  transition-Bounded :
      (target : UserIdentity) (p : Process) → Bounded (apply_privilege_transition calls target p)
  unfolding apply_privilege_transition set_groups set_gid set_uid
  transition-Bounded target p =
      bind-Bounded (set_groups calls target p) _
        (if-Bounded (is_empty target.groups) _ _ tt
          (if-Bounded (not calls.setgroups_ok) _ _ (omega arith) tt))
        λ grouped.
          bind-Bounded (set_gid calls target grouped) _
            (if-Bounded (not calls.setgid_ok) _ _ (omega arith) tt)
            λ owned. if-Bounded (not calls.setuid_ok) _ _ (omega arith) tt

  limits-Bounded :
      (profile : SecurityProfile) (fd : ℕ) (p : Process)
      → Bounded (apply_resource_limits_and_close_fds calls profile fd p)
  unfolding apply_resource_limits_and_close_fds set_resource_limits close_fds
  limits-Bounded profile fd p =
      bind-Bounded (if profile.enable_resource_limits then set_resource_limits calls p else value p)
        _
        (if-Bounded profile.enable_resource_limits (set_resource_limits calls p) _
          (bind-Bounded (set_limit calls nofile 1024 4096 p) _
            (set_limit-Bounded nofile 1024 4096 p)
            λ files.
              bind-Bounded (set_limit calls nproc 512 1024 files) _
                (set_limit-Bounded nproc 512 1024 files)
                λ processes. set_limit-Bounded core 0 0 processes)
          tt)
        λ limited.
          if-Bounded profile.retain_full_capabilities _ _ tt
            (if-Bounded (not (fd == 3) && not calls.dup2_ok) _ _ (omega arith) tt)

  confinement-Bounded :
      (profile : SecurityProfile) (config : Config) (p : Process)
      → Bounded (apply_kernel_confinement calls profile config p)
  unfolding apply_kernel_confinement apply_seccomp
  confinement-Bounded profile config p = if-Bounded profile.retain_full_capabilities _ _ tt (
      if-Bounded (not calls.no_new_privs_ok) _ _ (omega arith) (
        if-Bounded (profile.seccomp_mode == k_seccomp_mode_allowlist) _ _
          (load-Bounded (apply_seccomp_allowlist calls.seccomp profile.seccomp_allow) _
            (allowlist-Bounded profile.seccomp_allow))
          (if-Bounded (profile.seccomp_mode == k_seccomp_mode_blacklist) _ _
            (if-Bounded (config.seccomp_enabled && profile.enable_seccomp) _ _
              (load-Bounded (apply_seccomp_blacklist calls.seccomp) _ blacklist-Bounded) tt)
            (omega arith))))

  run_child-Bounded :
      (config : Config) (options : CommandOptions) (rule : Rule) (target : UserIdentity)
      (raw_env : List Text) (policy_path : Text) (args : List Text) (executable_fd : ℕ)
      (p : Process)
      → Bounded
          (run_child calls config options rule target raw_env policy_path args executable_fd p)
  unfolding run_child reset_child_signals_and_umask apply_capability_drop do_exec
  run_child-Bounded config options rule target raw_env policy_path args executable_fd p =
      let profile = resolve_profile config rule (target_name target) in
      bind-Bounded (reset_child_signals_and_umask calls p) _
        (if-Bounded (not calls.sigmask_ok) _ _ (omega arith) tt)
        λ reset.
          bind-Bounded (apply_privilege_transition calls target reset) _
            (transition-Bounded target reset)
            λ switched.
              bind-Bounded (apply_capability_drop calls profile switched) _
                (if-Bounded profile.retain_full_capabilities _ _ tt
                  (if-Bounded (not calls.drop_caps_ok) _ _ (omega arith) tt))
                λ dropped.
                  bind-Bounded (apply_resource_limits_and_close_fds calls profile executable_fd _) _
                    (limits-Bounded profile executable_fd _)
                    λ scrubbed.
                      bind-Bounded (apply_kernel_confinement calls profile config scrubbed.0) _
                        (confinement-Bounded profile config scrubbed.0)
                        λ confined. if-Bounded (not calls.fcntl_ok) _ _ (omega arith) tt

-- The program ends with a byte or by a signal below 128.
abbrev pub IsByte : Outcome → Type 0
IsByte outcome = parent_status outcome < 256

module _ (m : Machine) (programs : (e : Execution) → IsByte (m.program e)) where
  abbrev ran : Expected ℕ Execution → Outcome
  ran r = elim r [
    | unexpected status ↦ exited status
    | value execution ↦ if m.fexecve_ok execution then m.program execution else exited 126
  ]

  ran-IsByte : (r : Expected ℕ Execution) → Bounded r → IsByte (ran r)
  ran-IsByte (value execution) h = elim (Bool-cases (m.fexecve_ok execution)) [
    | inl executed ↦ rw executed (programs execution)
    | inr failed ↦ rw failed (omega arith)
  ]
  ran-IsByte (unexpected status) h = h

  fork-IsByte :
      (b : Bool) (outcome : Outcome) → IsByte outcome → IsByte (if b then fork_failed else outcome)
  fork-IsByte true outcome h = omega arith
  fork-IsByte false outcome h = h

  opened-IsByte :
      (opened : Expected FileError ℕ) (outcome : ℕ → Outcome)
      → ((fd : ℕ) → IsByte (outcome fd))
      → (elim opened [
        | unexpected e ↦ 126
        | value fd ↦ if not m.block_ok then 70 else parent_status (outcome fd)
      ])
        < 256
  opened-IsByte (unexpected e) outcome h = omega arith
  opened-IsByte (value fd) outcome h = elim (Bool-cases m.block_ok) [
    | inl blocked ↦ rw blocked (h fd)
    | inr refused ↦ rw refused (omega arith)
  ]

  found-IsByte :
      (found : Option ExecutableInfo) (outcome : ℕ → Outcome)
      → ((fd : ℕ) → IsByte (outcome fd))
      → (elim found [
        | none ↦ 126
        | some executable ↦ elim (open_executable m.kernel 0 executable) [
          | unexpected e ↦ 126
          | value fd ↦ if not m.block_ok then 70 else parent_status (outcome fd)
        ]
      ])
        < 256
  found-IsByte none outcome h = omega arith
  found-IsByte (some executable) outcome h =
      opened-IsByte (open_executable m.kernel 0 executable) outcome h

  -- Where every program ends with a byte, so does the command, whatever ends it before.
  pub run_command-bound :
      (config : Config) (command : ExecutableInfo) (args : List Text) (options : CommandOptions)
      (rule : Rule) (target : UserIdentity)
      → run_command m config command args options rule target < 256
  unfolding run_command execute child_outcome
  run_command-bound config command args options rule target =
      found-IsByte (executable_to_open m.kernel 0 command options target)
        (child_outcome m config command args options rule target)
        λ fd.
          fork-IsByte (not m.fork_ok)
            (ran (
              run_child m.calls config options rule target m.raw_env command.policy_path args fd
                m.process))
            (ran-IsByte
              (run_child m.calls config options rule target m.raw_env command.policy_path args fd
                m.process)
              (run_child-Bounded m.calls config options rule target m.raw_env command.policy_path
                args fd m.process))
