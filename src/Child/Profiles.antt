-- ===== src/Child/Profiles.antt =====
-- The profile that src/command.cpp resolves, over a configuration that src/config.cpp has accepted.
use voix.Base.{
  ◌≡◌, refl, sym, Bool, true, false, ◌&&◌, Option, none, some, List, [], ◌∷◌, Text, All, is_empty,
  arith, inl, inr, ◌⊎◌, Bool-cases, Option-cases, ◌==◌, nat_eq, list_eq, list_beq, codes,
  if◌then◌else◌,
}
use voix.Rule.{Rule}
use voix.Config.{
  Config, SecurityProfile, default_profile, find_profile, get_profile, is_unconfined_target,
  k_seccomp_mode_allowlist, k_seccomp_mode_blacklist,
}
use voix.Config.Validation.{profile_error}
use voix.Security.Seccomp.{Libseccomp, validate_syscall_names}
use voix.Environment.{resolve_profile, unconfined_profile}

-- A profile that `profile_error` has passed, under some name.
abbrev pub Passed : Libseccomp → SecurityProfile → Type 0
Passed lib profile = (name : Text) × (profile_error lib name profile ≡ none)

module _ (lib : Libseccomp) where
  find_profile-Passed :
      (name : Text) (profiles : List (Text × SecurityProfile))
      → All (λ p. profile_error lib p.0 p.1 ≡ none) profiles
      → (profile : SecurityProfile) → find_profile name profiles ≡ some profile
      → Passed lib profile
  unfolding find_profile
  find_profile-Passed name [] h profile e = absurd (ground arith)
  find_profile-Passed name ((key, first) ∷ more) h profile e = elim (Bool-cases (key == name)) [
    | inl same ↦ let is : first ≡ profile = ground arith in (key, rw (sym is) h.0)
    | inr other ↦ find_profile-Passed name more h.1 profile (ground arith)
  ]

  default_profile-Passed : Passed lib default_profile
  unfolding profile_error validate_syscall_names list_beq codes
  default_profile-Passed = ([], refl)

  unconfined_profile-Passed : Passed lib unconfined_profile
  unfolding profile_error validate_syscall_names list_beq codes
  unconfined_profile-Passed = ([], refl)

  found-Passed :
      (found : Option SecurityProfile)
      → ((profile : SecurityProfile) → found ≡ some profile → Passed lib profile)
      → Passed lib (elim found [ some profile ↦ profile | none ↦ default_profile ])
  found-Passed none h = default_profile-Passed
  found-Passed (some profile) h = h profile refl

  get_profile-Passed :
      (c : Config)
      → All (λ p. profile_error lib p.0 p.1 ≡ none) c.security_profiles
      → (name : Text) → Passed lib (get_profile c name)
  unfolding get_profile
  get_profile-Passed c h name =
      found-Passed (find_profile name c.security_profiles)
        (find_profile-Passed name c.security_profiles h)

  preserved-Passed :
      (profile : SecurityProfile)
      → Passed lib profile
      → Passed lib (record profile { preserve_full_environment = true })
  unfolding profile_error
  preserved-Passed profile h = h

  if-Passed :
      (b : Bool) (p q : SecurityProfile)
      → Passed lib p
      → Passed lib q
      → Passed lib (if b then p else q)
  if-Passed true p q h k = h
  if-Passed false p q h k = k

  pub resolve_profile-Passed :
      (c : Config)
      → All (λ p. profile_error lib p.0 p.1 ≡ none) c.security_profiles
      → (rule : Rule) (user : Text) → Passed lib (resolve_profile c rule user)
  unfolding resolve_profile
  resolve_profile-Passed c h rule user =
      let unconfined = is_unconfined_target c user in
      let chosen =
        if-Passed (is_empty rule.profile && unconfined) _ _ unconfined_profile-Passed
          (get_profile-Passed c h rule.profile) in
      if-Passed unconfined _ _ (preserved-Passed _ chosen) chosen

  -- The two modes, and what the second asks for.
  pub Passed-cases :
      (profile : SecurityProfile)
      → Passed lib profile
      → ((profile.seccomp_mode == k_seccomp_mode_allowlist ≡ true)
          × (validate_syscall_names lib profile.seccomp_allow ≡ none))
        ⊎ ((profile.seccomp_mode == k_seccomp_mode_allowlist ≡ false)
            × (profile.seccomp_mode == k_seccomp_mode_blacklist ≡ true))
  unfolding profile_error
  Passed-cases profile (name, e) =
      elim (Bool-cases (profile.seccomp_mode == k_seccomp_mode_allowlist)) [
        | inl listed ↦ elim (Option-cases (validate_syscall_names lib profile.seccomp_allow)) [
          | inl fine ↦ inl (listed, fine)
          | inr (x, bad) ↦ absurd (ground arith)
        ]
        | inr other ↦ elim (Bool-cases (profile.seccomp_mode == k_seccomp_mode_blacklist)) [
          | inl black ↦ inr (other, black)
          | inr unknown ↦ absurd (ground arith)
        ]
      ]
