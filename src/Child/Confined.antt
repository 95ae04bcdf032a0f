-- ===== src/Child/Confined.antt =====
-- `Command::execute` of src/command.cpp: what holds of a child when it executes the command.
use voix.Base.{
  ℕ, ◌≡◌, refl, sym, ap, ◌∙◌, Bool, true, false, ◌&&◌, List, Text, is_empty, All, arith, nat_eq,
  list_eq, if◌then◌else◌,
}
use voix.Rule.{Rule}
use voix.Identity.{UserIdentity}
use voix.Files.{value}
use voix.Config.{Config, SecurityProfile}
use voix.Shell.{exec_args}
use voix.Environment.{CommandOptions, resolve_profile, sanitize_environment, apply_environment}
use voix.Environment.Table.{Env}
use voix.Child.Stages.{
  bind-value, reset_result, transition_result, drop_result, limits_result, close_result,
  confinement_result, filter_of, FilterFor,
}
use voix.Child.{
  Calls, Process, reset_child_signals_and_umask, apply_privilege_transition, apply_capability_drop,
  close_fds, set_resource_limits, apply_resource_limits_and_close_fds, apply_kernel_confinement,
  Execution, do_exec, run_child, survives, target_name,
}

-- The attributes that the stages behind the environment leave as they are.
abbrev kept : Process → ℕ × ℕ × List ℕ × Env × Bool
kept p = (p.uid, p.gid, p.groups, p.environment, p.capabilities)

module _ (calls : Calls) (profile : SecurityProfile) (config : Config) where
  -- The stages behind the environment.
  tail_result :
      (p limited scrubbed q : Process) (executable_fd fd : ℕ)
      → limited ≡ record p { limits = limited.limits }
      → close_fds calls profile executable_fd limited ≡ value (scrubbed, fd)
      → apply_kernel_confinement calls profile config scrubbed ≡ value q
      → (kept q ≡ kept p)
        × (profile.retain_full_capabilities ≡ false
            → (q.no_new_privs ≡ true)
              × (fd ≡ 3)
              × All (λ left. survives calls left ≡ true) q.open_fds
              × FilterFor calls profile config p.filter q.filter)
  tail_result p limited scrubbed q executable_fd fd s4 e5 e6 =
      let s5 = close_result calls profile executable_fd fd limited scrubbed e5 in
      let s6 = confinement_result calls profile config scrubbed q e6 in
      let filter_kept : scrubbed.filter ≡ p.filter =
        ap (λ r. r.filter) s5.0 ∙ ap (λ r. r.filter) s4 in
      (
        ap kept s6.0 ∙ ap kept s5.0 ∙ ap kept s4,
        λ confined.
            let (privs, loaded) = s6.1 confined in
            let (moved, closed) = s5.1 confined in
            let fds : scrubbed.open_fds ≡ q.open_fds = sym (ap (λ r. r.open_fds) s6.0) in
            (
              privs,
              moved,
              rw fds at closed,
              rw filter_kept at (filter_of calls profile config _ q loaded),
            ),
      )

module _ (calls : Calls) (config : Config) (options : CommandOptions) (rule : Rule)
    (target : UserIdentity) (raw_env : List Text) (policy_path : Text) (args : List Text)
    (executable_fd : ℕ) (p : Process) where
  abbrev pub profile : SecurityProfile
  profile = resolve_profile config rule (target_name target)

  abbrev pub final_environment : Env
  final_environment =
      apply_environment profile config options rule target
        (sanitize_environment profile options raw_env)

  -- What holds of an execution that the child gets to.
  abbrev pub Reached : Execution → Type 0
  Reached e =
      (e.process.uid ≡ target.uid)
      × (e.process.gid ≡ target.gid)
      × (e.process.groups ≡ (if is_empty target.groups then p.groups else target.groups))
      × (e.process.environment ≡ final_environment)
      × (e.argv ≡ exec_args options.login_shell policy_path args target)

  -- Moreover, for a profile that does not retain capabilities.
  abbrev pub Confined : Execution → Type 0
  Confined e =
      (e.process.capabilities ≡ false)
      × (e.process.no_new_privs ≡ true)
      × (e.fd ≡ 3)
      × All (λ fd. survives calls fd ≡ true) e.process.open_fds
      × FilterFor calls profile config p.filter e.process.filter

  exec_result :
      (fd : ℕ) (q : Process) (e : Execution)
      → do_exec calls policy_path args options target fd q ≡ value e
      → record {
        process = q;
        fd = fd;
        argv = exec_args options.login_shell policy_path args target;
      }
        ≡ e
  unfolding do_exec
  exec_result fd q e h = ground arith

  -- The attributes behind the first three stages.
  head_result :
      (reset switched dropped : Process)
      → reset_child_signals_and_umask calls p ≡ value reset
      → apply_privilege_transition calls target reset ≡ value switched
      → apply_capability_drop calls profile switched ≡ value dropped
      → dropped ≡ record p {
        default_signals = true;
        umask = 18;
        groups = if is_empty target.groups then p.groups else target.groups;
        gid = target.gid;
        uid = target.uid;
        capabilities = profile.retain_full_capabilities && p.capabilities;
      }
  head_result reset switched dropped e1 e2 e3 =
      rw
        (
          drop_result calls profile switched dropped e3,
          transition_result calls target reset switched e2,
          reset_result calls p reset e1,
        )
        refl

  combined :
      (dropped q : Process) (e : Execution) (fd : ℕ)
      → dropped ≡ record p {
        default_signals = true;
        umask = 18;
        groups = if is_empty target.groups then p.groups else target.groups;
        gid = target.gid;
        uid = target.uid;
        capabilities = profile.retain_full_capabilities && p.capabilities;
      }
      → (kept q ≡ kept (record dropped { environment = final_environment }))
        × (profile.retain_full_capabilities ≡ false
            → (q.no_new_privs ≡ true)
              × (fd ≡ 3)
              × All (λ left. survives calls left ≡ true) q.open_fds
              × FilterFor calls profile config dropped.filter q.filter)
      → record {
        process = q;
        fd = fd;
        argv = exec_args options.login_shell policy_path args target;
      }
        ≡ e
      → Reached e × (profile.retain_full_capabilities ≡ false → Confined e)
  combined dropped q e fd head tail done = rw (sym done) (
    (
      ap (λ k. k.0) tail.0 ∙ ap (λ r. r.uid) head,
      ap (λ k. k.1) tail.0 ∙ ap (λ r. r.gid) head,
      ap (λ k. k.2) tail.0 ∙ ap (λ r. r.groups) head,
      ap (λ k. k.3) tail.0,
      refl,
    ),
    λ unretained.
        let (privs, moved, closed, filtered) = tail.1 unretained in
        let before : dropped.filter ≡ p.filter = ap (λ r. r.filter) head in
        let caps : profile.retain_full_capabilities && p.capabilities ≡ false = ground arith in
        (
          ap (λ k. k.4) tail.0 ∙ ap (λ r. r.capabilities) head ∙ caps,
          privs,
          moved,
          closed,
          rw before at filtered,
        ),
  )

  run_child-stages :
      (e : Execution)
      → run_child calls config options rule target raw_env policy_path args executable_fd p
        ≡ value e
      → Reached e × (profile.retain_full_capabilities ≡ false → Confined e)
  unfolding run_child apply_resource_limits_and_close_fds
  run_child-stages e h =
      let (reset, e1, r1) = bind-value (reset_child_signals_and_umask calls p) _ e h in
      let (switched, e2, r2) = bind-value (apply_privilege_transition calls target reset) _ e r1 in
      let (dropped, e3, r3) = bind-value (apply_capability_drop calls profile switched) _ e r2 in
      let with_env = record dropped { environment = final_environment } in
      let (scrubbed, e45, r45) =
        bind-value (apply_resource_limits_and_close_fds calls profile executable_fd with_env) _ e
          r3 in
      let (limited, e4, e5) =
        bind-value
          (if profile.enable_resource_limits
            then set_resource_limits calls with_env
            else value with_env)
          _ scrubbed e45 in
      let (confined, e6, r6) =
        bind-value (apply_kernel_confinement calls profile config scrubbed.0) _ e r45 in
      let head = head_result reset switched dropped e1 e2 e3 in
      let s4 = limits_result calls profile with_env limited e4 in
      let tail =
        tail_result calls profile config with_env limited scrubbed.0 confined executable_fd
          scrubbed.1 s4 e5 e6 in
      let done = exec_result scrubbed.1 confined e r6 in
      combined dropped confined e scrubbed.1 head tail done

  pub run_child-Reached :
      (e : Execution)
      → run_child calls config options rule target raw_env policy_path args executable_fd p
        ≡ value e
      → Reached e
  run_child-Reached e h = (run_child-stages e h).0

  -- When the child gets to execute the command under a profile that does not retain capabilities, it
  -- has none, can gain no privilege, executes descriptor 3, holds only descriptors that closing
  -- leaves open, and runs under the seccomp filter of the profile's mode; no filter is loaded only
  -- where the mode is blacklist and the configuration or the profile turns it off.
  pub run_child-Confined :
      (e : Execution)
      → run_child calls config options rule target raw_env policy_path args executable_fd p
        ≡ value e
      → profile.retain_full_capabilities ≡ false
      → Confined e
  run_child-Confined e h unretained = (run_child-stages e h).1 unretained
