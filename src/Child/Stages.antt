-- ===== src/Child/Stages.antt =====
-- `Command::execute` of src/command.cpp: what each stage of the child leaves behind.
use voix.Base.{
  ℕ, ◌≡◌, refl, sym, ap, ◌∙◌, Bool, true, false, ◌&&◌, Option, some, List, [], ◌∷◌, is_empty, All,
  arith, inl, inr, ◌⊎◌, Bool-cases, ◌==◌, nat_eq, list_eq, list_beq_iff, if◌then◌else◌,
}
use voix.Identity.{UserIdentity}
use voix.Files.{Expected, value, unexpected}
use voix.Config.{Config, SecurityProfile, k_seccomp_mode_allowlist, k_seccomp_mode_blacklist}
use voix.Security.Seccomp.{Filter, apply_seccomp_blacklist, apply_seccomp_allowlist}
use voix.Child.{
  Calls, Process, reset_child_signals_and_umask, apply_privilege_transition, apply_capability_drop,
  keep_fds, close_fds, set_resource_limits, apply_seccomp, apply_kernel_confinement, survives,
  Resource, nofile, nproc, core, set_limit, set_groups, set_gid, set_uid, ◌>>=◌, load, move_fd,
}

pub bind-value :
    {A B : Type 0} (r : Expected ℕ A) (f : A → Expected ℕ B) (b : B)
    → (r >>= f) ≡ value b
    → (a : A) × (r ≡ value a) × (f a ≡ value b)
bind-value (unexpected status) f b e = absurd (ground arith)
bind-value (value a) f b e = (a, refl, e)

keep_fds-All : (keep : ℕ → Bool) (fds : List ℕ) → All (λ fd. keep fd ≡ true) (keep_fds keep fds)
unfolding keep_fds
keep_fds-All keep [] = tt
keep_fds-All keep (fd ∷ fds) = elim (Bool-cases (keep fd)) [
  | inl kept ↦ rw kept (kept, keep_fds-All keep fds)
  | inr left_out ↦ rw left_out (keep_fds-All keep fds)
]

module _ (calls : Calls) where
  pub reset_result :
      (p q : Process)
      → reset_child_signals_and_umask calls p ≡ value q
      → q ≡ record p { default_signals = true; umask = 18 }
  unfolding reset_child_signals_and_umask
  reset_result p q e = ground arith

  pub transition_result :
      (target : UserIdentity) (p q : Process)
      → apply_privilege_transition calls target p ≡ value q
      → q ≡ record p {
        groups = if is_empty target.groups then p.groups else target.groups;
        gid = target.gid;
        uid = target.uid;
      }
  unfolding apply_privilege_transition set_groups set_gid set_uid
  transition_result target p q e = elim (Bool-cases (is_empty target.groups)) [
    | inl no_group ↦ ground arith
    | inr some_group ↦ ground arith
  ]

  pub drop_result :
      (profile : SecurityProfile) (p q : Process)
      → apply_capability_drop calls profile p ≡ value q
      → q ≡ record p { capabilities = profile.retain_full_capabilities && p.capabilities }
  unfolding apply_capability_drop
  drop_result profile p q e = elim (Bool-cases profile.retain_full_capabilities) [
    | inl retained ↦ ground arith
    | inr confined ↦ ground arith
  ]

  set_limit-limits :
      (resource : Resource) (cur max : ℕ) (p q : Process)
      → set_limit calls resource cur max p ≡ value q
      → q ≡ record p { limits = q.limits }
  unfolding set_limit
  set_limit-limits resource cur max p q e = elim (Bool-cases (calls.setrlimit_ok resource)) [
    | inl ok ↦
        let same : record p {
          limits = record { resource = resource; cur = cur; max = max } ∷ p.limits;
        }
            ≡ q =
          ground arith in
        rw (sym same) refl
    | inr refused ↦ absurd (ground arith)
  ]

  set_resource_limits-limits :
      (p q : Process) → set_resource_limits calls p ≡ value q → q ≡ record p { limits = q.limits }
  unfolding set_resource_limits
  set_resource_limits-limits p q e =
      let (files, e1, r1) = bind-value (set_limit calls nofile 1024 4096 p) _ q e in
      let (processes, e2, r2) = bind-value (set_limit calls nproc 512 1024 files) _ q r1 in
      let s1 = set_limit-limits nofile 1024 4096 p files e1 in
      let s2 = set_limit-limits nproc 512 1024 files processes e2 in
      let s3 = set_limit-limits core 0 0 processes q r2 in ground arith

  -- The two steps of `applyResourceLimitsAndCloseFDs`.
  pub limits_result :
      (profile : SecurityProfile) (p q : Process)
      → (if profile.enable_resource_limits then set_resource_limits calls p else value p) ≡ value q
      → q ≡ record p { limits = q.limits }
  limits_result profile p q e = elim (Bool-cases profile.enable_resource_limits) [
    | inl limited ↦ set_resource_limits-limits p q (ground arith)
    | inr free ↦ let same : p ≡ q = ground arith in rw (sym same) refl
  ]

  pub close_result :
      (profile : SecurityProfile) (executable_fd fd : ℕ) (p q : Process)
      → close_fds calls profile executable_fd p ≡ value (q, fd)
      → (q ≡ record p { open_fds = q.open_fds })
        × (profile.retain_full_capabilities ≡ false
            → (fd ≡ 3) × All (λ left. survives calls left ≡ true) q.open_fds)
  unfolding close_fds
  close_result profile executable_fd fd p q e = elim (Bool-cases profile.retain_full_capabilities) [
    | inl retained ↦
        let same : p ≡ q = ground arith in (rw (sym same) refl, λ confined. absurd (ground arith))
    | inr confined ↦
        let fds = keep_fds (survives calls) (move_fd executable_fd p.open_fds) in
        let same : (record p { open_fds = fds } ≡ q) × (3 ≡ fd) = ground arith in
        rw (sym same.0, sym same.1)
          (refl, λ _. (refl, keep_fds-All (survives calls) (move_fd executable_fd p.open_fds)))
  ]

  load_result :
      (filter : Expected ℕ Filter) (p q : Process)
      → load filter p ≡ value q
      → q ≡ record p { filter = q.filter }
  unfolding load
  load_result (unexpected status) p q e = absurd (ground arith)
  load_result (value f) p q e =
      let same : record p { filter = some f } ≡ q = ground arith in rw (sym same) refl

  seccomp_result :
      (profile : SecurityProfile) (config : Config) (p q : Process)
      → apply_seccomp calls profile config p ≡ value q
      → q ≡ record p { filter = q.filter }
  unfolding apply_seccomp
  seccomp_result profile config p q e =
      elim (Bool-cases (profile.seccomp_mode == k_seccomp_mode_allowlist)) [
        | inl allowlist ↦
            load_result (apply_seccomp_allowlist calls.seccomp profile.seccomp_allow) p q
              (ground arith)
        | inr other ↦ elim (Bool-cases (profile.seccomp_mode == k_seccomp_mode_blacklist)) [
          | inl blacklist ↦ elim (Bool-cases (config.seccomp_enabled && profile.enable_seccomp)) [
            | inl enabled ↦ load_result (apply_seccomp_blacklist calls.seccomp) p q (ground arith)
            | inr disabled ↦ let same : p ≡ q = ground arith in rw (sym same) refl
          ]
          | inr unknown ↦ absurd (ground arith)
        ]
      ]

  pub confinement_result :
      (profile : SecurityProfile) (config : Config) (p q : Process)
      → apply_kernel_confinement calls profile config p ≡ value q
      → (q ≡ record p { no_new_privs = q.no_new_privs; filter = q.filter })
        × (profile.retain_full_capabilities ≡ false
            → (q.no_new_privs ≡ true)
              × (apply_seccomp calls profile config (record p { no_new_privs = true }) ≡ value q))
  unfolding apply_kernel_confinement
  confinement_result profile config p q e = elim (Bool-cases profile.retain_full_capabilities) [
    | inl retained ↦
        let same : p ≡ q = ground arith in (rw (sym same) refl, λ confined. absurd (ground arith))
    | inr confined ↦
        let loaded : apply_seccomp calls profile config (record p { no_new_privs = true })
            ≡ value q =
          ground arith in
        let same = seccomp_result profile config (record p { no_new_privs = true }) q loaded in
        let set : q.no_new_privs ≡ true = ap (λ r. r.no_new_privs) same in
        (
          same ∙ ap (λ b. record p { no_new_privs = b; filter = q.filter }) (sym set),
          λ _. (set, loaded),
        )
  ]

module _ (calls : Calls) where
  load_filter_of :
      (filter : Expected ℕ Filter) (p q : Process)
      → load filter p ≡ value q
      → (f : Filter) × (q.filter ≡ some f) × (filter ≡ value f)
  unfolding load
  load_filter_of (unexpected status) p q e = absurd (ground arith)
  load_filter_of (value f) p q e =
      let same : record p { filter = some f } ≡ q = ground arith in rw (sym same) (f, refl, refl)

  -- The seccomp filter that is in force: that of the mode, and none new only in blacklist mode where
  -- the configuration or the profile turns it off.
  abbrev pub FilterFor : SecurityProfile → Config → Option Filter → Option Filter → Type 0
  FilterFor profile config before after =
      (profile.seccomp_mode ≡ k_seccomp_mode_allowlist)
        × ((f : Filter) × (after ≡ some f)
            × (apply_seccomp_allowlist calls.seccomp profile.seccomp_allow ≡ value f))
      ⊎ (profile.seccomp_mode ≡ k_seccomp_mode_blacklist)
        × ((config.seccomp_enabled && profile.enable_seccomp ≡ true)
              × ((f : Filter) × (after ≡ some f)
                  × (apply_seccomp_blacklist calls.seccomp ≡ value f))
            ⊎ (config.seccomp_enabled && profile.enable_seccomp ≡ false) × (after ≡ before))

  pub filter_of :
      (profile : SecurityProfile) (config : Config) (p q : Process)
      → apply_seccomp calls profile config p ≡ value q
      → FilterFor profile config p.filter q.filter
  unfolding apply_seccomp
  filter_of profile config p q e =
      elim (Bool-cases (profile.seccomp_mode == k_seccomp_mode_allowlist)) [
        | inl allowlist ↦ inl (
          (list_beq_iff _ _).0 allowlist,
          load_filter_of (apply_seccomp_allowlist calls.seccomp profile.seccomp_allow) p q
              (ground arith),
        )
        | inr other ↦ elim (Bool-cases (profile.seccomp_mode == k_seccomp_mode_blacklist)) [
          | inl blacklist ↦ elim (Bool-cases (config.seccomp_enabled && profile.enable_seccomp)) [
            | inl enabled ↦ inr (
              (list_beq_iff _ _).0 blacklist,
              inl (
                enabled,
                load_filter_of (apply_seccomp_blacklist calls.seccomp) p q (ground arith),
              ),
            )
            | inr disabled ↦
                let same : p ≡ q = ground arith in
                inr ((list_beq_iff _ _).0 blacklist, inr (disabled, rw (sym same) refl))
          ]
          | inr unknown ↦ absurd (ground arith)
        ]
      ]
