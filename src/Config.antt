-- ===== src/Config.antt =====
-- include/config.hpp and the accessors of src/config.cpp.
pub mod Yaml
pub mod Rules
pub mod Validation
pub mod Profiles
pub mod WellFormed
pub mod Loading
pub mod Keeps
pub mod Sections
pub mod Usable
pub mod Valid
use voix.Base.{
  Bool, true, false, Option, none, some, List, [], ◌∷◌, ◌++◌, Text, codes, contains, ltb, ◌&&◌,
  ◌||◌, ◌==◌, nat_eq, list_eq, if◌then◌else◌,
}
use voix.Rule.{Rule}

pub record SecurityProfile : Type 0 where
  pub retain_full_capabilities : Bool
  pub enable_seccomp : Bool
  pub enable_resource_limits : Bool
  pub scrub_environment : Bool
  pub preserve_full_environment : Bool
  pub seccomp_mode : Text
  pub seccomp_allow : List Text

abbrev pub k_seccomp_mode_blacklist : Text
k_seccomp_mode_blacklist = codes "blacklist"

abbrev pub k_seccomp_mode_allowlist : Text
k_seccomp_mode_allowlist = codes "allowlist"

-- `SecurityProfile{}`, and the "restricted" profile of `get_profile`.
abbrev pub default_profile : SecurityProfile
default_profile = record {
  retain_full_capabilities = false;
  enable_seccomp = true;
  enable_resource_limits = true;
  scrub_environment = true;
  preserve_full_environment = false;
  seccomp_mode = k_seccomp_mode_blacklist;
  seccomp_allow = [];
}

-- The messages of `last_error_`, by the call of `std::format` that makes each.
pub data ConfigError : Type 0 where
  file_not_found path_untrusted file_is_symlink unreadable_secure unreadable : Text → ConfigError
  yaml_error : ConfigError
  unknown_mode : Text → Text → ConfigError
  bad_syscall : Text → Text → ConfigError
  allow_without_allowlist allow_not_list allow_entry_not_scalar : Text → ConfigError
  invalid_regex : Text → ConfigError
  sanctuary_empty : ConfigError
  sanctuary_missing sanctuary_inaccessible sanctuary_not_directory sanctuary_untrusted :
      Text → ConfigError
  path_not_absolute : Text → ConfigError
  rule_without_identity : ConfigError
  rule_empty_argument : Text → ConfigError
  blocklist_empty_entry : ConfigError

pub record Config : Type 0 where
  pub sanctuary : Text
  pub path_list : List Text
  pub rules : List Rule
  pub security_profiles : List (Text × SecurityProfile)
  pub blocklist : List Text
  pub regex_blocklist : List Text  -- the patterns that were compiled
  pub unconfined_targets : List Text
  pub seccomp_enabled : Bool
  pub login_shell_default : Bool
  pub suppress_stderr : Bool
  pub last_error : Option ConfigError

-- `Config()`
abbrev pub default_config : Config
default_config = record {
  sanctuary = codes "/var/lib/voix";
  path_list = codes "/bin" ∷ codes "/sbin" ∷ codes "/usr/bin" ∷ codes "/usr/sbin" ∷ [];
  rules = [];
  security_profiles = [];
  blocklist = [];
  regex_blocklist = [];
  unconfined_targets = [];
  seccomp_enabled = true;
  login_shell_default = false;
  suppress_stderr = true;
  last_error = none;
}

-- `std::accumulate` of the entries behind the first, with a colon before each.
accumulate_path : Text → List Text → Text
accumulate_path acc [] = acc
accumulate_path acc (p ∷ ps) = accumulate_path (acc ++ b':' ∷ p) ps

unfoldable pub get_path : Config → Text
unfolding accumulate_path
get_path c = elim c.path_list [ [] ↦ [] | first ∷ more ↦ accumulate_path first more ]

unfoldable pub is_unconfined_target : Config → Text → Bool
unfolding contains
is_unconfined_target c user = contains c.unconfined_targets user

-- `std::map`: a lookup, and `operator[]` with an assignment.
unfoldable pub find_profile : Text → List (Text × SecurityProfile) → Option SecurityProfile
find_profile name [] = none
find_profile name ((key, profile) ∷ more) =
    if key == name then some profile else find_profile name more

-- The order of `std::string`, in which a map keeps its keys.
unfoldable pub text_less : Text → Text → Bool
text_less [] [] = false
text_less [] (d ∷ t) = true
text_less (c ∷ s) [] = false
text_less (c ∷ s) (d ∷ t) = ltb c d || (c == d && text_less s t)

unfoldable pub put_profile :
    Text → SecurityProfile → List (Text × SecurityProfile) → List (Text × SecurityProfile)
unfolding text_less
put_profile name profile [] = (name, profile) ∷ []
put_profile name profile ((key, old) ∷ more) =
    let rest = put_profile name profile more in
    if key == name
    then (name, profile) ∷ more
    else if text_less name key
    then (name, profile) ∷ (key, old) ∷ more
    else (key, old) ∷ rest

unfoldable pub get_profile : Config → Text → SecurityProfile
unfolding find_profile
get_profile c name = elim (find_profile name c.security_profiles) [
  | some profile ↦ profile
  | none ↦ default_profile
]
