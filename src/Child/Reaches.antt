-- ===== src/Child/Reaches.antt =====
-- `Command::execute` of src/command.cpp over a configuration that `Config::load` has accepted: that
-- the child gets to its call of `fexecve`.
use voix.Base.{
  ℕ, ◌≡◌, refl, Bool, true, false, not, ◌&&◌, List, Text, is_empty, arith, inl, inr, ◌==◌, nat_eq,
  list_eq, if◌then◌else◌,
}
use voix.Rule.{Rule}
use voix.Identity.{UserIdentity}
use voix.Files.{Expected, value, unexpected}
use voix.Config.{Config, SecurityProfile}
use voix.Config.Sections.{IsUsable}
use voix.Security.Seccomp.{Filter}
use voix.Security.Seccomp.Loads.{
  Works, apply_seccomp_blacklist-loads, apply_seccomp_allowlist-loads,
}
use voix.Environment.{CommandOptions, resolve_profile}
use voix.Child.Profiles.{Passed, resolve_profile-Passed, Passed-cases}
use voix.Child.{
  Calls, Process, Resource, nofile, nproc, core, reset_child_signals_and_umask,
  apply_privilege_transition, apply_capability_drop, set_limit, set_groups, set_gid, set_uid,
  close_fds, set_resource_limits, apply_resource_limits_and_close_fds, load, apply_seccomp,
  apply_kernel_confinement, Execution, do_exec, run_child, target_name, ◌>>=◌,
}

-- Every call of the child succeeds.
abbrev pub AllSucceed : Calls → Type 0
AllSucceed calls =
    ((calls.sigmask_ok ≡ true)
      × (calls.setgroups_ok ≡ true)
      × (calls.setgid_ok ≡ true)
      × (calls.setuid_ok ≡ true))
    × ((calls.drop_caps_ok ≡ true)
        × ((resource : Resource) → calls.setrlimit_ok resource ≡ true)
        × (calls.dup2_ok ≡ true))
    × ((calls.no_new_privs_ok ≡ true) × (calls.fcntl_ok ≡ true) × Works calls.seccomp)

-- A stage that ends the child under no circumstances.
abbrev Reaches : {A : Type 0} → Expected ℕ A → Type 0
Reaches {A} r = (a : A) × (r ≡ value a)

bind-Reaches :
    {A B : Type 0} (r : Expected ℕ A) (f : A → Expected ℕ B)
    → Reaches r
    → ((a : A) → Reaches (f a))
    → Reaches (r >>= f)
bind-Reaches (value a) f h then_reaches = then_reaches a
bind-Reaches (unexpected status) f (a, e) then_reaches = absurd (ground arith)

-- A call that has succeeded, under a test.
checked-Reaches :
    {A : Type 0} (ok : Bool) (status : ℕ) (r : Expected ℕ A)
    → ok ≡ true
    → Reaches r
    → Reaches (if not ok then unexpected status else r)
checked-Reaches true status r e h = h
checked-Reaches false status r e h = absurd (ground arith)

guarded-Reaches :
    {A : Type 0} (asked ok : Bool) (status : ℕ) (r : Expected ℕ A)
    → ok ≡ true
    → Reaches r
    → Reaches (if asked && not ok then unexpected status else r)
guarded-Reaches true ok status r e h = checked-Reaches ok status r e h
guarded-Reaches false ok status r e h = h

either-Reaches :
    {A : Type 0} (b : Bool) (r s : Expected ℕ A)
    → Reaches r
    → Reaches s
    → Reaches (if b then r else s)
either-Reaches true r s h k = h
either-Reaches false r s h k = k

module _ (calls : Calls) (works : AllSucceed calls) where
  reset-Reaches : (p : Process) → Reaches (reset_child_signals_and_umask calls p)
  unfolding reset_child_signals_and_umask
  reset-Reaches p = checked-Reaches calls.sigmask_ok 70 _ works.0.0 (_, refl)

  transition-Reaches :
      (target : UserIdentity) (p : Process) → Reaches (apply_privilege_transition calls target p)
  unfolding apply_privilege_transition set_groups set_gid set_uid
  transition-Reaches target p =
      bind-Reaches (set_groups calls target p) _
        (either-Reaches (is_empty target.groups) _ _ (p, refl)
          (checked-Reaches calls.setgroups_ok 126 _ works.0.1 (_, refl)))
        λ grouped.
          bind-Reaches (set_gid calls target grouped) _
            (checked-Reaches calls.setgid_ok 126 _ works.0.2 (_, refl))
            λ owned. checked-Reaches calls.setuid_ok 126 _ works.0.3 (_, refl)

  drop-Reaches :
      (profile : SecurityProfile) (p : Process) → Reaches (apply_capability_drop calls profile p)
  unfolding apply_capability_drop
  drop-Reaches profile p =
      either-Reaches profile.retain_full_capabilities _ _ (p, refl)
        (checked-Reaches calls.drop_caps_ok 1 _ works.1.0 (_, refl))

  set_limit-Reaches :
      (resource : Resource) (cur max : ℕ) (p : Process)
      → Reaches (set_limit calls resource cur max p)
  unfolding set_limit
  set_limit-Reaches resource cur max p =
      checked-Reaches (calls.setrlimit_ok resource) 126 _ (works.1.1 resource) (_, refl)

  close_fds-Reaches :
      (profile : SecurityProfile) (fd : ℕ) (p : Process) → Reaches (close_fds calls profile fd p)
  unfolding close_fds
  close_fds-Reaches profile fd p =
      either-Reaches profile.retain_full_capabilities _ _ ((p, fd), refl)
        (guarded-Reaches (not (fd == 3)) calls.dup2_ok 126 _ works.1.2 (_, refl))

  limits-Reaches :
      (profile : SecurityProfile) (fd : ℕ) (p : Process)
      → Reaches (apply_resource_limits_and_close_fds calls profile fd p)
  unfolding apply_resource_limits_and_close_fds set_resource_limits
  limits-Reaches profile fd p =
      bind-Reaches (if profile.enable_resource_limits then set_resource_limits calls p else value p)
        _
        (either-Reaches profile.enable_resource_limits (set_resource_limits calls p) _
          (bind-Reaches (set_limit calls nofile 1024 4096 p) _
            (set_limit-Reaches nofile 1024 4096 p)
            λ files.
              bind-Reaches (set_limit calls nproc 512 1024 files) _
                (set_limit-Reaches nproc 512 1024 files)
                λ processes. set_limit-Reaches core 0 0 processes)
          (p, refl))
        (close_fds-Reaches profile fd)

  load-Reaches :
      (filter : Expected ℕ Filter) (p : Process)
      → (f : Filter) × (filter ≡ value f)
      → Reaches (load filter p)
  unfolding load
  load-Reaches (value f) p h = (_, refl)
  load-Reaches (unexpected status) p (f, e) = absurd (ground arith)

  apply_seccomp-Reaches :
      (profile : SecurityProfile) (config : Config) (p : Process)
      → Passed calls.seccomp profile
      → Reaches (apply_seccomp calls profile config p)
  unfolding apply_seccomp
  apply_seccomp-Reaches profile config p passed = elim (Passed-cases calls.seccomp profile passed) [
    | inl (listed, fine) ↦
        rw (apply_seccomp, listed)
          (load-Reaches _ p
            (apply_seccomp_allowlist-loads calls.seccomp works.2.2 profile.seccomp_allow fine))
    | inr (other, black) ↦
        rw (apply_seccomp, other, black)
          (either-Reaches (config.seccomp_enabled && profile.enable_seccomp) _ _
            (load-Reaches _ p (apply_seccomp_blacklist-loads calls.seccomp works.2.2)) (p, refl))
  ]

  confinement-Reaches :
      (profile : SecurityProfile) (config : Config) (p : Process)
      → Passed calls.seccomp profile
      → Reaches (apply_kernel_confinement calls profile config p)
  unfolding apply_kernel_confinement
  confinement-Reaches profile config p passed =
      either-Reaches profile.retain_full_capabilities _ _ (p, refl)
        (checked-Reaches calls.no_new_privs_ok 126 _ works.2.0
          (apply_seccomp-Reaches profile config _ passed))

  -- When every call of the child succeeds and every profile of the configuration has passed
  -- `profile_error`, as in a configuration that `load` accepts, the child gets to the execution of the
  -- command, whatever the rule, its profile, the target, the arguments and the environment.
  pub run_child-reaches :
      (regex_ok : Text → Bool) (config : Config)
      → IsUsable calls.seccomp regex_ok config
      → (options : CommandOptions) (rule : Rule) (target : UserIdentity) (raw_env : List Text)
        (policy_path : Text) (args : List Text) (executable_fd : ℕ) (p : Process)
      → (e : Execution) × (run_child calls config options rule target raw_env policy_path args
            executable_fd p
          ≡ value e)
  unfolding run_child do_exec
  run_child-reaches regex_ok config usable options rule target raw_env policy_path args
        executable_fd p =
      let profile = resolve_profile config rule (target_name target) in
      let passed = resolve_profile-Passed calls.seccomp config usable.0 rule (target_name target) in
      bind-Reaches (reset_child_signals_and_umask calls p) _ (reset-Reaches p) λ reset.
        bind-Reaches (apply_privilege_transition calls target reset) _
          (transition-Reaches target reset)
          λ switched.
            bind-Reaches (apply_capability_drop calls profile switched) _
              (drop-Reaches profile switched)
              λ dropped.
                bind-Reaches (apply_resource_limits_and_close_fds calls profile executable_fd _) _
                  (limits-Reaches profile executable_fd _)
                  λ scrubbed.
                    bind-Reaches (apply_kernel_confinement calls profile config scrubbed.0) _
                      (confinement-Reaches profile config scrubbed.0 passed)
                      λ confined. checked-Reaches calls.fcntl_ok 126 _ works.2.1 (_, refl)
