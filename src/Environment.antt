-- ===== src/Environment.antt =====
-- The environment of the executed command: `resolve_profile`, `sanitize_environment`,
-- `build_environment` and `apply_environment` of src/command.cpp.
pub mod Table
pub mod Sanitizing
pub mod Overrides
pub mod Repeated
use voix.Base.{
  ℕ, Bool, true, false, not, ◌&&◌, ◌||◌, Option, none, some, List, [], ◌∷◌, ◌++◌, Text, codes,
  contains, starts_with, find_char, is_empty, any, take, drop, suc, ◌==◌, nat_eq, list_eq,
  if◌then◌else◌,
}
use voix.Rule.{Rule}
use voix.Identity.{UserIdentity}
use voix.Config.{
  Config, SecurityProfile, k_seccomp_mode_blacklist, get_profile, get_path, is_unconfined_target,
}
use voix.Environment.Table.{Env, set_entry, set_if, setenv_all}

-- `CommandOptions` of include/command.hpp
pub record CommandOptions : Type 0 where
  pub preserve_env : Bool
  pub login_shell : Bool
  pub set_home : Bool
  pub list_commands : Bool
  pub check_config : Bool

-- The "system" profile of an unconfined target.
abbrev pub unconfined_profile : SecurityProfile
unconfined_profile = record {
  retain_full_capabilities = true;
  enable_seccomp = false;
  enable_resource_limits = false;
  scrub_environment = false;
  preserve_full_environment = true;
  seccomp_mode = k_seccomp_mode_blacklist;
  seccomp_allow = [];
}

unfoldable pub resolve_profile : Config → Rule → Text → SecurityProfile
resolve_profile config rule target_user =
    let unconfined = is_unconfined_target config target_user in
    let chosen =
      if is_empty rule.profile && unconfined
      then unconfined_profile
      else get_profile config rule.profile in
    if unconfined then record chosen { preserve_full_environment = true } else chosen

-- `preserve_sanitized_env`
abbrev pub preserves_sanitized : SecurityProfile → CommandOptions → Bool
preserves_sanitized profile options =
    not profile.preserve_full_environment && (options.preserve_env || not profile.scrub_environment)

abbrev pub whitelist : List Text
whitelist = codes "TERM" ∷ codes "DISPLAY" ∷ codes "XAUTHORITY" ∷ codes "LANG" ∷ codes "PATH" ∷ []

abbrev dangerous_env_names : List Text
dangerous_env_names =
    codes "BASH_ENV"
    ∷ codes "ENV"
    ∷ codes "IFS"
    ∷ codes "CDPATH"
    ∷ codes "GCONV_PATH"
    ∷ codes "GETCONF_DIR"
    ∷ codes "HOSTALIASES"
    ∷ []

abbrev dangerous_env_prefixes : List Text
dangerous_env_prefixes =
    codes "LD_"
    ∷ codes "CC"
    ∷ codes "CXX"
    ∷ codes "CMAKE_"
    ∷ codes "PERL"
    ∷ codes "PYTHON"
    ∷ codes "RUBY"
    ∷ []

unfoldable pub is_dangerous : Text → Bool
unfolding contains starts_with codes
is_dangerous key =
    contains dangerous_env_names key
    || any (λ prefix. starts_with key prefix) dangerous_env_prefixes

-- `entry.substr(0, pos)` and `entry.substr(pos + 1)` for the first '='.
unfoldable pub split_entry : Text → Option (Text × Text)
unfolding find_char
split_entry entry = elim (find_char entry b'=') [
  | none ↦ none
  | some pos ↦ some (take pos entry, drop (suc pos) entry)
]

-- Whether the loop keeps a variable of this name.
unfoldable pub keeps : SecurityProfile → CommandOptions → Text → Bool
keeps profile options key =
    if profile.preserve_full_environment
    then true
    else if preserves_sanitized profile options && is_dangerous key
    then false
    else if not (preserves_sanitized profile options) && not (contains whitelist key)
    then false
    else true

abbrev keep_pair : SecurityProfile → CommandOptions → Option (Text × Text) → Env → Env
keep_pair profile options none env = env
keep_pair profile options (some (key, v)) env =
    if keeps profile options key then (key, v) ∷ env else env

unfoldable pub sanitize_environment : SecurityProfile → CommandOptions → List Text → Env
sanitize_environment profile options [] = []
sanitize_environment profile options (entry ∷ raw_env) =
    keep_pair profile options (split_entry entry) (sanitize_environment profile options raw_env)

abbrev pub shell_or_default : UserIdentity → Text
shell_or_default target = if is_empty target.shell then codes "/bin/sh" else target.shell

-- The overrides that come from the target's identity.
unfoldable pub override_identity :
    SecurityProfile → Config → CommandOptions → UserIdentity → Env → Env
override_identity profile config options target env =
    let scrubs =
      not profile.preserve_full_environment && not (preserves_sanitized profile options) in
    let with_path = set_if scrubs env (codes "PATH") (get_path config) in
    let named =
      set_entry (set_entry with_path (codes "USER") target.username) (codes "LOGNAME")
        target.username in
    let housed =
      set_if (options.set_home || options.login_shell) named (codes "HOME") target.home_dir in
    set_if options.login_shell housed (codes "SHELL") (shell_or_default target)

abbrev set_pair : Env → Option (Text × Text) → Env
set_pair env none = env
set_pair env (some (key, v)) = set_entry env key v

-- The administrator's entries, applied last.
unfoldable pub apply_envlist : Env → List Text → Env
apply_envlist env [] = env
apply_envlist env (entry ∷ envlist) = apply_envlist (set_pair env (split_entry entry)) envlist

unfoldable pub build_environment :
    SecurityProfile → Config → CommandOptions → Rule → UserIdentity → Env → Env
build_environment profile config options rule target saved_env =
    apply_envlist (override_identity profile config options target saved_env) rule.envlist

-- `clearenv()`, then `setenv` for each entry in order: the environment that the command gets.
unfoldable pub apply_environment :
    SecurityProfile → Config → CommandOptions → Rule → UserIdentity → Env → Env
apply_environment profile config options rule target saved_env =
    setenv_all [] (build_environment profile config options rule target saved_env)
