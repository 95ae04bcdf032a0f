-- ===== src/Config/Profiles.antt =====
-- One entry of `security.profiles`, as `Config::load` of src/config.cpp reads it.
use voix.Base.{Bool, not, Option, none, some, List, [], ◌∷◌, ◌++◌, Text, codes, if◌then◌else◌}
use voix.Files.{Expected, value, unexpected}
use voix.Config.{SecurityProfile, ConfigError, default_profile}
use voix.Config.Yaml.{Yaml, ◌>>=◌, on_field}

module _ {N : Type 0} (yaml : Yaml N) where
  set_flag :
      (Bool → SecurityProfile → SecurityProfile) → N → SecurityProfile → Option SecurityProfile
  set_flag f node profile = do flag ← yaml.as_bool node; some (f flag profile)

  set_mode : N → SecurityProfile → Option SecurityProfile
  set_mode node profile = do
    mode ← yaml.as_string node
    some (record profile { seccomp_mode = mode })

  -- The fields but the last.
  unfoldable pub parse_flags : N → Option SecurityProfile
  unfolding on_field set_flag set_mode
  parse_flags node = do
    a ←
        on_field yaml node (codes "retain_full_capabilities")
          (set_flag (λ b p. record p { retain_full_capabilities = b })) default_profile
    b ←
        on_field yaml node (codes "enable_seccomp")
          (set_flag (λ b p. record p { enable_seccomp = b })) a
    c ←
        on_field yaml node (codes "enable_resource_limits")
          (set_flag (λ b p. record p { enable_resource_limits = b })) b
    d ←
        on_field yaml node (codes "scrub_environment")
          (set_flag (λ b p. record p { scrub_environment = b })) c
    e ←
        on_field yaml node (codes "preserve_full_environment")
          (set_flag (λ b p. record p { preserve_full_environment = b })) d
    on_field yaml node (codes "seccomp_mode") set_mode e

  unfoldable pub allow_entries : Text → List N → List Text → Expected ConfigError (List Text)
  allow_entries name [] allowed = value allowed
  allow_entries name (node ∷ nodes) allowed =
      if not (yaml.is_scalar node)
      then unexpected (ConfigError.allow_entry_not_scalar name)
      else elim (yaml.as_string node) [
        | none ↦ unexpected ConfigError.yaml_error
        | some syscall ↦ allow_entries name nodes (allowed ++ syscall ∷ [])
      ]

  abbrev with_allow :
      SecurityProfile → Expected ConfigError (List Text) → Expected ConfigError SecurityProfile
  with_allow profile (unexpected e) = unexpected e
  with_allow profile (value allowed) = value (record profile { seccomp_allow = allowed })

  read_allow : Text → SecurityProfile → N → Expected ConfigError SecurityProfile
  unfolding allow_entries
  read_allow name profile node =
      if not (yaml.is_sequence node)
      then unexpected (ConfigError.allow_not_list name)
      else elim (yaml.items node) [
        | none ↦ unexpected ConfigError.yaml_error
        | some nodes ↦ with_allow profile (allow_entries name nodes profile.seccomp_allow)
      ]

  unfoldable pub parse_profile : Text → N → Expected ConfigError SecurityProfile
  unfolding parse_flags read_allow
  parse_profile name node = elim (parse_flags node) [
    | none ↦ unexpected ConfigError.yaml_error
    | some profile ↦ elim (yaml.field node (codes "seccomp_allow")) [
      | none ↦ unexpected ConfigError.yaml_error
      | some none ↦ value profile
      | some (some found) ↦ read_allow name profile found
    ]
  ]
