-- ===== src/Config/Loading.antt =====
-- `Config::load` of src/config.cpp. The configuration is changed as the document is read, and stays as
-- it is where reading ends with an error.
use voix.Base.{
  Bool, true, false, not, ◌&&◌, Option, none, some, List, [], ◌∷◌, ◌++◌, Text, codes, drop, length,
  starts_with, list_eq, nat_eq, if◌then◌else◌,
}
use voix.Rule.{Rule}
use voix.Identity.{Accounts, get_uid_by_name}
use voix.Files.{Kernel, Expected, value, unexpected, is_symlink}
use voix.Files.Reading.{read_file, read_file_secure}
use voix.Files.Trust.{is_trusted_path}
use voix.Security.Seccomp.{Libseccomp}
use voix.Config.{Config, SecurityProfile, ConfigError, put_profile}
use voix.Config.Yaml.{Yaml}
use voix.Config.Rules.{parse_rule}
use voix.Config.Profiles.{parse_profile}
use voix.Config.Validation.{profile_error, validate_sanctuary_path}

abbrev pub Load : Type 0 → Type 0
Load A = Config → Expected ConfigError A × Config

infixl 5 ◌>>=◌ ◌>>◌
abbrev pub ◌>>=◌ : {A B : Type 0} → Load A → (A → Load B) → Load B
◌>>=◌ m f c = let (r, c') = m c in elim r [ value a ↦ f a c' | unexpected e ↦ (unexpected e, c') ]

abbrev pub ◌>>◌ : {B : Type 0} → Load (Unit {0}) → Load B → Load B
m >> n = m >>= λ _. n

unfoldable pub pure : {A : Type 0} → A → Load A
pure a c = (value a, c)

unfoldable pub fail : ConfigError → Load (Unit {0})
fail e c = (unexpected e, c)

unfoldable pub modify : (Config → Config) → Load (Unit {0})
modify f c = (value tt, f c)

-- A call of yaml-cpp, which may throw.
unfoldable pub or_throw : {A : Type 0} → Option A → Load A
or_throw none c = (unexpected ConfigError.yaml_error, c)
or_throw (some a) c = (value a, c)

unfoldable pub fail_if : Option ConfigError → Load (Unit {0})
fail_if none c = (value tt, c)
fail_if (some e) c = (unexpected e, c)

-- A loop that ends at the first error.
unfoldable pub each : {A : Type 0} → (A → Load (Unit {0})) → List A → Load (Unit {0})
unfolding pure
each body [] = pure tt
each body (a ∷ rest) = body a >> each body rest

unfoldable pub or_fail : {A : Type 0} → Expected ConfigError A → Load A
or_fail r c = (r, c)

module _ {N : Type 0} (yaml : Yaml N) where
  unfoldable pub present : (N → Load (Unit {0})) → Load (Unit {0}) → Option N → Load (Unit {0})
  present body otherwise none = otherwise
  present body otherwise (some node) = body node

  -- `if (node[key]) { … } else { … }`
  unfoldable pub either_field : N → Text → (N → Load (Unit {0})) → Load (Unit {0}) → Load (Unit {0})
  unfolding present or_throw
  either_field node key body otherwise = or_throw (yaml.field node key) >>= present body otherwise

  unfoldable pub when_field : N → Text → (N → Load (Unit {0})) → Load (Unit {0})
  unfolding either_field pure
  when_field node key body = either_field node key body (pure tt)

  unfoldable pub set_string : (Text → Config → Config) → N → Load (Unit {0})
  unfolding or_throw modify
  set_string f node = or_throw (yaml.as_string node) >>= λ s. modify (f s)

  unfoldable pub set_bool : (Bool → Config → Config) → N → Load (Unit {0})
  unfolding or_throw modify
  set_bool f node = or_throw (yaml.as_bool node) >>= λ b. modify (f b)

  -- A list of strings that takes the place of the one before.
  unfoldable pub set_strings : (Config → Config) → (Text → Config → Config) → N → Load (Unit {0})
  unfolding or_throw modify each set_string
  set_strings clear push node =
      modify clear >> (or_throw (yaml.items node) >>= each (set_string push))

  unfoldable pub set_targets : N → Load (Unit {0})
  unfolding set_strings
  set_targets =
      set_strings (λ c. record c { unconfined_targets = [] })
        (λ s c. record c { unconfined_targets = c.unconfined_targets ++ s ∷ [] })

  unfoldable pub load_core : N → Load (Unit {0})
  unfolding when_field either_field set_string set_bool set_strings set_targets
  load_core core =
      when_field core (codes "sanctuary") (set_string (λ s c. record c { sanctuary = s }))
      >> when_field core (codes "paths") (
          set_strings (λ c. record c { path_list = [] })
            (λ s c. record c { path_list = c.path_list ++ s ∷ [] }))
      >> when_field core (codes "login_shell")
          (set_bool (λ b c. record c { login_shell_default = b }))
      >> when_field core (codes "suppress_stderr")
          (set_bool (λ b c. record c { suppress_stderr = b }))
      >> either_field core (codes "unconfined_targets") set_targets
          (when_field core (codes "privileged_users") set_targets)

module _ {N : Type 0} (yaml : Yaml N) (accounts : Accounts) where
  abbrev pub as_user : Text → Rule → Rule
  as_user name rule = record rule { ident = name; ident_uid = get_uid_by_name accounts name }

  abbrev pub as_group : Text → Rule → Rule
  as_group name rule = record rule { ident = b':' ∷ name; ident_gid = accounts.group_by_name name }

  unfoldable pub push_rule : (Rule → Rule) → N → Load (Unit {0})
  unfolding or_throw modify parse_rule
  push_rule set_identity node = or_throw (parse_rule yaml accounts node) >>= λ rule.
      modify (λ c. record c { rules = c.rules ++ set_identity rule ∷ [] })

  unfoldable pub push_rules : (Text → Rule → Rule) → N × N → Load (Unit {0})
  unfolding or_throw each push_rule
  push_rules set_identity (key, nodes) = or_throw (yaml.as_string key) >>= λ name.
      or_throw (yaml.items nodes) >>= each (push_rule (set_identity name))

  unfoldable pub parse_acl_section : (Text → Rule → Rule) → N → Load (Unit {0})
  unfolding or_throw each push_rules
  parse_acl_section set_identity section =
      or_throw (yaml.entries section) >>= each (push_rules set_identity)

  unfoldable pub load_acl : N → Load (Unit {0})
  unfolding modify when_field parse_acl_section
  load_acl acl =
      modify (λ c. record c { rules = [] })
      >> when_field yaml acl (codes "user") (parse_acl_section as_user)
      >> when_field yaml acl (codes "group") (parse_acl_section as_group)

module _ {N : Type 0} (yaml : Yaml N) (lib : Libseccomp) where
  unfoldable pub store_profile : Text → SecurityProfile → Load (Unit {0})
  unfolding modify fail_if put_profile
  store_profile name profile =
      modify (λ c. record c { security_profiles = put_profile name profile c.security_profiles })
      >> fail_if (profile_error lib name profile)

  unfoldable pub load_profile : N × N → Load (Unit {0})
  unfolding or_throw or_fail store_profile
  load_profile (key, node) = or_throw (yaml.as_string key) >>= λ name.
      or_fail (parse_profile yaml name node) >>= store_profile name

  unfoldable pub load_profiles : N → Load (Unit {0})
  unfolding or_throw each load_profile
  load_profiles node = or_throw (yaml.entries node) >>= each load_profile

module _ {N : Type 0} (yaml : Yaml N) (regex_ok : Text → Bool) where
  unfoldable pub add_block : Text → Load (Unit {0})
  unfolding modify fail
  add_block entry =
      let pattern = drop (length (codes "regex:")) entry in
      if not (starts_with entry (codes "regex:"))
      then modify (λ c. record c { blocklist = c.blocklist ++ entry ∷ [] })
      else if regex_ok pattern
      then modify (λ c. record c { regex_blocklist = c.regex_blocklist ++ pattern ∷ [] })
      else fail (ConfigError.invalid_regex pattern)

  -- What is no scalar is passed over.
  unfoldable pub push_block : N → Load (Unit {0})
  unfolding or_throw pure add_block
  push_block node =
      if not (yaml.is_scalar node) then pure tt else or_throw (yaml.as_string node) >>= add_block

  unfoldable pub load_blocklist : N → Load (Unit {0})
  unfolding or_throw each push_block
  load_blocklist node = or_throw (yaml.items node) >>= each push_block

abbrev pub finish : Expected ConfigError (Unit {0}) × Config → Bool × Config
finish (value done, c) = (true, c)
finish (unexpected e, c) = (false, record c { last_error = some e })

module _ (k : Kernel) where
  -- The content of the file, read as the caller asks.
  unfoldable pub read_config : Text → Bool → Expected ConfigError Text
  unfolding read_file read_file_secure
  read_config path true = elim (read_file_secure k path) [
    | unexpected e ↦ unexpected (ConfigError.unreadable_secure path)
    | value content ↦ value content
  ]
  read_config path false = elim (read_file k path) [
    | unexpected e ↦ unexpected (ConfigError.unreadable path)
    | value content ↦ value content
  ]

  abbrev pub links : Text → Bool
  links path = elim (k.lstat path) [ value st ↦ is_symlink st | unexpected e ↦ false ]

  -- The tests on the path itself.
  unfoldable pub path_error : Text → Bool → Option ConfigError
  path_error path verify_security =
      if not (k.exists_file path)
      then some (ConfigError.file_not_found path)
      else if verify_security && not (is_trusted_path k path)
      then some (ConfigError.path_untrusted path)
      else if verify_security && links path
      then some (ConfigError.file_is_symlink path)
      else none

  unfoldable pub check_loaded : Bool → Load (Unit {0})
  unfolding fail_if
  check_loaded verify_security c =
      fail_if (if verify_security then validate_sanctuary_path k c.sanctuary else none) c

module _ {N : Type 0} (yaml : Yaml N) (accounts : Accounts) (k : Kernel) (lib : Libseccomp)
    (regex_ok : Text → Bool) where
  unfoldable pub load_security : N → Load (Unit {0})
  unfolding when_field load_profiles set_bool load_blocklist
  load_security security =
      when_field yaml security (codes "profiles") (load_profiles yaml lib)
      >> when_field yaml security (codes "seccomp")
          (set_bool yaml (λ b c. record c { seccomp_enabled = b }))
      >> when_field yaml security (codes "blocklist") (load_blocklist yaml regex_ok)

  unfoldable pub load_document : N → Load (Unit {0})
  unfolding when_field load_core load_acl load_security
  load_document document =
      when_field yaml document (codes "core") (load_core yaml)
      >> when_field yaml document (codes "acl") (load_acl yaml accounts)
      >> when_field yaml document (codes "security") load_security

  unfoldable pub load_body : Text → Bool → Load (Unit {0})
  unfolding fail_if or_fail or_throw path_error read_config load_document check_loaded
  load_body path verify_security =
      fail_if (path_error k path verify_security)
      >> (or_fail (read_config k path verify_security) >>= λ content.
          or_throw (yaml.parse content) >>= load_document)
      >> check_loaded k verify_security

  -- `Config::load`
  unfoldable pub load : Text → Bool → Config → Bool × Config
  unfolding load_body
  load path verify_security c =
      finish (load_body path verify_security (record c { last_error = none }))
