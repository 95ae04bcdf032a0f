-- ===== src/Environment/Overrides.antt =====
-- The identity that the executed command sees in its environment.
use voix.Base.{
  ◌≡◌, refl, ◌∙◌, Bool, true, false, not, ◌&&◌, ◌||◌, Option, none, some, List, [], ◌∷◌, Text,
  codes, contains, All, ◌==◌, nat_eq, list_eq, list_beq, if◌then◌else◌, arith, inl, inr,
  Option-cases,
}
use voix.Rule.{Rule}
use voix.Identity.{UserIdentity}
use voix.Config.{Config, SecurityProfile, get_path}
use voix.Environment.{
  CommandOptions, split_entry, preserves_sanitized, shell_or_default, override_identity,
  apply_envlist, build_environment, apply_environment,
}
use voix.Environment.Table.{
  Env, get_env, set_entry, get_env-set_if, set_if-NodupKeys, get_env-set_entry, get_env-setenv_all,
  NodupKeys, set_entry-NodupKeys, last_value-NodupKeys, is_valid_name,
}

-- An entry sets the variable.
abbrev names : Text → Option (Text × Text) → Bool
names j none = false
names j (some (key, v)) = key == j

-- No entry of the list sets the variable.
abbrev pub LeavesAlone : Text → List Text → Type 0
LeavesAlone j = All (λ entry. names j (split_entry entry) ≡ false)

apply_envlist-NodupKeys :
    (env : Env) (envlist : List Text) → NodupKeys env → NodupKeys (apply_envlist env envlist)
unfolding apply_envlist
apply_envlist-NodupKeys env [] h = h
apply_envlist-NodupKeys env (entry ∷ envlist) h = elim (Option-cases (split_entry entry)) [
  | inl e ↦ rw e (apply_envlist-NodupKeys env envlist h)
  | inr ((key, v), e) ↦
      rw e (apply_envlist-NodupKeys (set_entry env key v) envlist (set_entry-NodupKeys key v env h))
]

get_env-apply_envlist :
    (j : Text) (env : Env) (envlist : List Text)
    → LeavesAlone j envlist
    → get_env j (apply_envlist env envlist) ≡ get_env j env
unfolding apply_envlist
get_env-apply_envlist j env [] h = refl
get_env-apply_envlist j env (entry ∷ envlist) (alone, h) = elim (Option-cases (split_entry entry)) [
  | inl e ↦ rw e (get_env-apply_envlist j env envlist h)
  | inr ((key, v), e) ↦ rw e (
      get_env-apply_envlist j (set_entry env key v) envlist h
      ∙ get_env-set_entry j key v env
      ∙ rw (rw e at alone) refl)
]

-- The five names are told apart.
names_differ : Unit {0}
unfolding list_beq codes
names_differ = tt

valid_names :
    (is_valid_name (codes "USER") ≡ true)
    × (is_valid_name (codes "LOGNAME") ≡ true)
    × (is_valid_name (codes "HOME") ≡ true)
    × (is_valid_name (codes "SHELL") ≡ true)
    × (is_valid_name (codes "PATH") ≡ true)
unfolding codes contains
valid_names = (refl, refl, refl, refl, refl)

module _ (profile : SecurityProfile) (config : Config) (options : CommandOptions) (rule : Rule)
    (target : UserIdentity) (saved_env : Env) (nodup : NodupKeys saved_env) where
  abbrev overridden : Env
  overridden = override_identity profile config options target saved_env

  override_identity-NodupKeys : NodupKeys overridden
  unfolding override_identity
  override_identity-NodupKeys = set_if-NodupKeys _ _ _ _ (
      set_if-NodupKeys _ _ _ _
        (set_entry-NodupKeys _ _ _ (set_entry-NodupKeys _ _ _ (set_if-NodupKeys _ _ _ _ nodup))))

  -- What `getenv` gives in the command, for a variable that the rule's entries leave alone.
  final_value :
      (j : Text)
      → is_valid_name j ≡ true
      → LeavesAlone j rule.envlist
      → get_env j (apply_environment profile config options rule target saved_env)
        ≡ get_env j overridden
  unfolding apply_environment build_environment get_env
  final_value j valid alone =
      get_env-setenv_all j [] (apply_envlist overridden rule.envlist) valid
      ∙ last_value-NodupKeys j _
          (apply_envlist-NodupKeys overridden rule.envlist override_identity-NodupKeys)
      ∙ get_env-apply_envlist j overridden rule.envlist alone

  overridden_value :
      (j : Text)
      → get_env j overridden ≡ (
          if options.login_shell && codes "SHELL" == j
          then some (shell_or_default target)
          else if (options.set_home || options.login_shell) && codes "HOME" == j
          then some target.home_dir
          else if codes "LOGNAME" == j
          then some target.username
          else if codes "USER" == j
          then some target.username
          else if (not profile.preserve_full_environment
                && not (preserves_sanitized profile options))
              && codes "PATH" == j
          then some (get_path config)
          else get_env j saved_env)
  unfolding override_identity
  overridden_value j =
      rw (get_env-set_if, get_env-set_if, get_env-set_entry, get_env-set_entry, get_env-set_if) refl

  user_value : get_env (codes "USER") overridden ≡ some target.username
  user_value = rw (overridden_value (codes "USER")) (unfold names_differ in ground arith)

  logname_value : get_env (codes "LOGNAME") overridden ≡ some target.username
  logname_value = rw (overridden_value (codes "LOGNAME")) (unfold names_differ in ground arith)

  home_value : get_env (codes "HOME") overridden ≡ (
      if options.set_home || options.login_shell
      then some target.home_dir
      else get_env (codes "HOME") saved_env)
  home_value = rw (overridden_value (codes "HOME")) (unfold names_differ in ground arith)

  shell_value : get_env (codes "SHELL") overridden ≡ (
      if options.login_shell
      then some (shell_or_default target)
      else get_env (codes "SHELL") saved_env)
  shell_value = rw (overridden_value (codes "SHELL")) (unfold names_differ in ground arith)

  path_value : get_env (codes "PATH") overridden ≡ (
      if not profile.preserve_full_environment && not (preserves_sanitized profile options)
      then some (get_path config)
      else get_env (codes "PATH") saved_env)
  path_value = rw (overridden_value (codes "PATH")) (unfold names_differ in ground arith)

  -- If no name stands twice in the sanitized environment, and the rule's own entries set none of
  -- these variables, the command sees the target's name as USER and LOGNAME; the target's home as
  -- HOME for a login shell and under -H; the target's shell, or /bin/sh, as SHELL for a login shell;
  -- and the configured path as PATH where the environment is neither preserved nor kept. Where HOME,
  -- SHELL or PATH is not overridden so, it has its value of the sanitized environment.
  pub apply_environment-identity :
      All
        (λ j. LeavesAlone j rule.envlist)
        (codes "USER" ∷ codes "LOGNAME" ∷ codes "HOME" ∷ codes "SHELL" ∷ codes "PATH" ∷ [])
      → let env = apply_environment profile config options rule target saved_env in
        (get_env (codes "USER") env ≡ some target.username)
        × (get_env (codes "LOGNAME") env ≡ some target.username)
        × (get_env (codes "HOME") env ≡ (
            if options.set_home || options.login_shell
            then some target.home_dir
            else get_env (codes "HOME") saved_env))
        × (get_env (codes "SHELL") env ≡ (
            if options.login_shell
            then some (shell_or_default target)
            else get_env (codes "SHELL") saved_env))
        × (get_env (codes "PATH") env ≡ (
            if not profile.preserve_full_environment && not (preserves_sanitized profile options)
            then some (get_path config)
            else get_env (codes "PATH") saved_env))
  apply_environment-identity (user, (logname, (home, (shell, (path, _))))) = (
    final_value (codes "USER") (valid_names.0) user ∙ user_value,
    final_value (codes "LOGNAME") (valid_names.1) logname ∙ logname_value,
    final_value (codes "HOME") (valid_names.2) home ∙ home_value,
    final_value (codes "SHELL") (valid_names.3) shell ∙ shell_value,
    final_value (codes "PATH") (valid_names.4) path ∙ path_value,
  )
