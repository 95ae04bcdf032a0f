-- ===== src/Config/Rules.antt =====
-- `parse_rule` of src/config.cpp; `none` where it throws.
use voix.Base.{
  Bool, true, false, ◌&&◌, ◌||◌, Option, none, some, [], ◌∷◌, ◌++◌, Text, codes, contains,
  find_char, is_alpha, is_alnum, all, take, ◌==◌, nat_eq, list_eq, if◌then◌else◌,
}
use voix.Rule
use voix.Rule.{Rule, Options, default_rule}
use voix.Identity.{Accounts, get_uid_by_name}
use voix.Config.Yaml.{Yaml, ◌>>=◌, on_field, fold_nodes}

-- A C identifier in front of the `=`.
abbrev is_key : Text → Bool
is_key [] = false
is_key (c ∷ s) = (is_alpha c || c == b'_') && all (λ d. is_alnum d || d == b'_') s

-- The test on an entry of `env`.
unfoldable pub is_env_entry : Text → Bool
unfolding find_char is_alpha is_alnum
is_env_entry entry = elim (find_char entry b'=') [ none ↦ false | some n ↦ is_key (take n entry) ]

unfoldable pub is_glob : Text → Bool
unfolding contains
is_glob arg = contains arg b'*' || contains arg b'?'

unfoldable pub add_option : Text → Options → Options
unfolding codes
add_option name options =
    if name == codes "trust" || name == codes "nopass"
    then record options { nopass = true }
    else if name == codes "keepenv"
    then record options { keepenv = true }
    else if name == codes "persist"
    then record options { persist = true }
    else if name == codes "nolog"
    then record options { nolog = true }
    else options

module _ {N : Type 0} (yaml : Yaml N) (accounts : Accounts) where
  unfoldable pub set_action : N → Rule → Option Rule
  set_action node rule = do
    name ← yaml.as_string node
    some (record rule { action = if name == codes "permit" then Rule.permit else Rule.deny })

  unfoldable pub set_option : N → Rule → Option Rule
  unfolding add_option
  set_option node rule = do
    name ← yaml.as_string node
    some (record rule { options = add_option name rule.options })

  unfoldable pub set_options : N → Rule → Option Rule
  unfolding fold_nodes set_option
  set_options node rule = do nodes ← yaml.items node; fold_nodes set_option nodes rule

  unfoldable pub set_profile : N → Rule → Option Rule
  set_profile node rule = do name ← yaml.as_string node; some (record rule { profile = name })

  unfoldable pub push_env : N → Rule → Option Rule
  unfolding is_env_entry
  push_env node rule = do
    entry ← yaml.as_string node
    (if is_env_entry entry
        then some (record rule { envlist = rule.envlist ++ entry ∷ [] })
        else none)

  unfoldable pub set_env : N → Rule → Option Rule
  unfolding fold_nodes push_env
  set_env node rule = do nodes ← yaml.items node; fold_nodes push_env nodes rule

  -- A target that is not found is only logged.
  unfoldable pub set_target : N → Rule → Option Rule
  unfolding get_uid_by_name
  set_target node rule = do
    name ← yaml.as_string node
    some (record rule { target = name; target_uid = get_uid_by_name accounts name })

  unfoldable pub set_command : N → Rule → Option Rule
  set_command node rule = do name ← yaml.as_string node; some (record rule { cmd = name })

  unfoldable pub push_arg : N → Rule → Option Rule
  unfolding is_glob
  push_arg node rule = do
    arg ← yaml.as_string node
    some (record rule {
      cmdargs = rule.cmdargs ++ arg ∷ [];
      options = if is_glob arg then record rule.options { pattern_args = true } else rule.options;
    })

  unfoldable pub set_args : N → Rule → Option Rule
  unfolding fold_nodes push_arg
  set_args node rule = do nodes ← yaml.items node; fold_nodes push_arg nodes rule

  unfoldable pub parse_rule : N → Option Rule
  unfolding on_field set_action set_options set_profile set_env set_target set_command set_args
  parse_rule node = do
    with_action ← on_field yaml node (codes "action") set_action default_rule
    with_options ← on_field yaml node (codes "options") set_options with_action
    with_profile ← on_field yaml node (codes "profile") set_profile with_options
    with_env ← on_field yaml node (codes "env") set_env with_profile
    with_target ← on_field yaml node (codes "target") set_target with_env
    with_command ← on_field yaml node (codes "command") set_command with_target
    on_field yaml node (codes "args") set_args with_command
