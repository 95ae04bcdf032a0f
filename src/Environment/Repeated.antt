-- ===== src/Environment/Repeated.antt =====
-- A name that stands twice in the caller's environment, in `set_entry` and `apply_environment` of
-- src/command.cpp.
use voix.Base.{
  ◌≡◌, refl, ◌∙◌, Bool, true, false, not, ◌&&◌, Option, none, some, List, [], ◌∷◌, ◌++◌, Text,
  codes, contains, find_char, ◌==◌, nat_eq, list_eq, list_beq, list_beq_iff, if◌then◌else◌, inl,
  inr, Bool-cases, Option-cases,
}
use voix.Rule.{Rule}
use voix.Identity.{UserIdentity}
use voix.Config.{Config, SecurityProfile, get_path}
use voix.Environment.{
  CommandOptions, keeps, split_entry, preserves_sanitized, sanitize_environment, override_identity,
  apply_envlist, build_environment, apply_environment,
}
use voix.Environment.Table.{
  Env, get_env, set_entry, set_if, get_env-setenv_all, last_value, is_valid_name,
}
use voix.Environment.Overrides.{LeavesAlone}

last_value-set_entry :
    (j k v : Text) (old : Option Text) (env : Env)
    → (k == j) ≡ false
    → last_value j old (set_entry env k v) ≡ last_value j old env
unfolding set_entry
last_value-set_entry j k v old [] h = rw h
last_value-set_entry j k v old ((i, w) ∷ env) h = elim (Bool-cases (i == k)) [
  | inl e ↦ rw e (let same : i ≡ k = (list_beq_iff i k).0 e in rw same (rw h refl))
  | inr e ↦ rw e (last_value-set_entry j k v (if i == j then some w else old) env h)
]

last_value-set_if :
    (on : Bool) (j k v : Text) (old : Option Text) (env : Env)
    → (k == j) ≡ false
    → last_value j old (set_if on env k v) ≡ last_value j old env
unfolding set_if
last_value-set_if true j k v old env h = last_value-set_entry j k v old env h
last_value-set_if false j k v old env h = refl

last_value-apply_envlist :
    (j : Text) (old : Option Text) (env : Env) (envlist : List Text)
    → LeavesAlone j envlist
    → last_value j old (apply_envlist env envlist) ≡ last_value j old env
unfolding apply_envlist
last_value-apply_envlist j old env [] h = refl
last_value-apply_envlist j old env (entry ∷ envlist) (alone, h) =
    elim (Option-cases (split_entry entry)) [
      | inl e ↦ rw e (last_value-apply_envlist j old env envlist h)
      | inr ((key, v), e) ↦ rw e (
          last_value-apply_envlist j old (set_entry env key v) envlist h
          ∙ last_value-set_entry j key v old env (rw e at alone))
    ]

-- An environment in which PATH stands twice.
abbrev pub two_paths : Text → Text → List Text
two_paths a b = (codes "PATH=" ++ a) ∷ (codes "PATH=" ++ b) ∷ []

path_valid : is_valid_name (codes "PATH") ≡ true
unfolding codes contains
path_valid = refl

other_names :
    ((codes "SHELL" == codes "PATH") ≡ false)
    × ((codes "HOME" == codes "PATH") ≡ false)
    × ((codes "LOGNAME" == codes "PATH") ≡ false)
    × ((codes "USER" == codes "PATH") ≡ false)
unfolding codes list_beq
other_names = (refl, refl, refl, refl)

last_of_both :
    (on : Bool) (path a b : Text)
    → last_value
        (codes "PATH")
        none
        (set_if on ((codes "PATH", a) ∷ (codes "PATH", b) ∷ []) (codes "PATH") path)
      ≡ some b
unfolding set_if set_entry codes list_beq
last_of_both true path a b = refl
last_of_both false path a b = refl

module _ (profile : SecurityProfile) (config : Config) (options : CommandOptions) (rule : Rule)
    (target : UserIdentity) (a b : Text) (restricted : profile.preserve_full_environment ≡ false)
    (not_kept : options.preserve_env ≡ false) (scrubbed : profile.scrub_environment ≡ true)
    (alone : LeavesAlone (codes "PATH") rule.envlist) where
  sanitize-two_paths :
      sanitize_environment profile options (two_paths a b)
      ≡ (codes "PATH", a) ∷ (codes "PATH", b) ∷ []
  unfolding sanitize_environment split_entry find_char codes keeps contains list_beq
  sanitize-two_paths = rw (restricted, not_kept, scrubbed)

  abbrev both : Env
  both = (codes "PATH", a) ∷ (codes "PATH", b) ∷ []

  build_last :
      get_env (codes "PATH") (apply_environment profile config options rule target both)
      ≡ last_value (codes "PATH") none (override_identity profile config options target both)
  unfolding apply_environment build_environment get_env
  build_last =
      get_env-setenv_all (codes "PATH") [] _ path_valid
      ∙ last_value-apply_envlist (codes "PATH") none _ rule.envlist alone

  last_override :
      last_value (codes "PATH") none (override_identity profile config options target both) ≡ some b
  unfolding override_identity
  last_override =
      last_value-set_if _ _ _ _ none _ other_names.0
      ∙ last_value-set_if _ _ _ _ none _ other_names.1
      ∙ last_value-set_entry _ _ _ none _ other_names.2
      ∙ last_value-set_entry _ _ _ none _ other_names.3
      ∙ last_of_both
          (not profile.preserve_full_environment && not (preserves_sanitized profile options))
          (get_path config) a b

  -- The configured path does not reach the command when the caller passes PATH twice: although the
  -- profile neither preserves nor keeps the environment, the command's PATH is the caller's second
  -- value, whatever the configuration says.
  pub path_of_two_paths :
      get_env (codes "PATH") (
        apply_environment profile config options rule target
          (sanitize_environment profile options (two_paths a b)))
      ≡ some b
  path_of_two_paths = rw sanitize-two_paths (build_last ∙ last_override)
