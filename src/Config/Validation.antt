-- ===== src/Config/Validation.antt =====
-- The checks on a configuration in src/config.cpp: `profile_error`, `validate_sanctuary_path` and
-- `validate`.
use voix.Base.{
  Bool, true, false, not, ◌&&◌, Option, none, some, List, [], ◌∷◌, Text, is_empty, ◌==◌, nat_eq,
  list_eq, if◌then◌else◌,
}
use voix.Rule.{Rule}
use voix.Paths.{is_absolute}
use voix.Files.{Kernel, enoent, value, unexpected}
use voix.Files.Trust.{is_trusted_path}
use voix.Security.Seccomp.{Libseccomp, validate_syscall_names}
use voix.Config.{
  Config, SecurityProfile, ConfigError, k_seccomp_mode_allowlist, k_seccomp_mode_blacklist,
}

abbrev pub syscall_error : Text → SecurityProfile → Option Text → Option ConfigError
syscall_error name profile (some syscall) = some (ConfigError.bad_syscall name syscall)
syscall_error name profile none =
    if not (is_empty profile.seccomp_allow)
      && not (profile.seccomp_mode == k_seccomp_mode_allowlist)
    then some (ConfigError.allow_without_allowlist name)
    else none

-- `profile_error`
unfoldable pub profile_error : Libseccomp → Text → SecurityProfile → Option ConfigError
profile_error lib name profile =
    if not (profile.seccomp_mode == k_seccomp_mode_blacklist)
      && not (profile.seccomp_mode == k_seccomp_mode_allowlist)
    then some (ConfigError.unknown_mode name profile.seccomp_mode)
    else syscall_error name profile (validate_syscall_names lib profile.seccomp_allow)

-- `validate_sanctuary_path`
unfoldable pub validate_sanctuary_path : Kernel → Text → Option ConfigError
validate_sanctuary_path k path =
    if is_empty path then some ConfigError.sanctuary_empty else elim (k.directory_status path) [
      | unexpected enoent ↦ some (ConfigError.sanctuary_missing path)
      | unexpected e ↦ some (ConfigError.sanctuary_inaccessible path)
      | value false ↦ some (ConfigError.sanctuary_not_directory path)
      | value true ↦
          if not (is_trusted_path k path) then some (ConfigError.sanctuary_untrusted path) else none
    ]

-- The first check of `validate`.
unfoldable pub check_sanctuary : Kernel → Text → Option ConfigError
check_sanctuary k path =
    if is_empty path then some ConfigError.sanctuary_empty else elim (k.directory_status path) [
      | unexpected e ↦ some (ConfigError.sanctuary_inaccessible path)
      | value false ↦ some (ConfigError.sanctuary_not_directory path)
      | value true ↦ none
    ]

-- The first complaint of a loop.
unfoldable pub first_error : {A : Type 0} → (A → Option ConfigError) → List A → Option ConfigError
first_error check [] = none
first_error check (a ∷ rest) = elim (check a) [ some e ↦ some e | none ↦ first_error check rest ]

unfoldable pub check_path : Text → Option ConfigError
check_path path = if is_absolute path then none else some (ConfigError.path_not_absolute path)

abbrev pub is_none : {A : Type 0} → Option A → Bool
is_none none = true
is_none (some a) = false

unfoldable pub check_argument : Rule → Text → Option ConfigError
check_argument rule arg =
    if is_empty arg then some (ConfigError.rule_empty_argument rule.ident) else none

unfoldable pub check_rule : Rule → Option ConfigError
unfolding check_argument first_error
check_rule rule =
    if is_empty rule.ident && (is_none rule.ident_uid && is_none rule.ident_gid)
    then some ConfigError.rule_without_identity
    else if not (is_empty rule.cmd) && not (is_empty rule.cmdargs)
    then first_error (check_argument rule) rule.cmdargs
    else none

unfoldable pub check_entry : Text → Option ConfigError
check_entry entry = if is_empty entry then some ConfigError.blocklist_empty_entry else none

unfoldable pub or_else : Option ConfigError → Option ConfigError → Option ConfigError
or_else (some e) other = some e
or_else none other = other

-- `validate`: the complaint that it returns with.
unfoldable pub validate_error : Kernel → Libseccomp → Config → Option ConfigError
unfolding or_else
validate_error k lib c = or_else (check_sanctuary k c.sanctuary) (
    or_else (first_error check_path c.path_list) (
      or_else (first_error check_rule c.rules) (
        or_else (first_error check_entry c.blocklist)
          (first_error (λ p. profile_error lib p.0 p.1) c.security_profiles))))

unfoldable pub validate : Kernel → Libseccomp → Config → Bool × Config
validate k lib c = elim (validate_error k lib c) [
  | none ↦ (true, record c { last_error = none })
  | some e ↦ (false, record c { last_error = some e })
]
