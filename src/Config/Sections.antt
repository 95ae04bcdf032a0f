-- ===== src/Config/Sections.antt =====
-- `Config::load` of src/config.cpp: that the sections `core` and `security` keep a configuration usable.
use voix.Base.{
  ◌≡◌, sym, Bool, true, Option, none, some, List, [], ◌∷◌, ◌++◌, Text, codes, drop, length,
  starts_with, ◌==◌, nat_eq, list_eq, All, All-append, arith, inl, inr, Bool-cases, Option-cases,
}
use voix.Security.Seccomp.{Libseccomp}
use voix.Config.{Config, SecurityProfile, text_less, put_profile}
use voix.Config.Yaml.{Yaml}
use voix.Config.Profiles.{parse_profile}
use voix.Config.Validation.{profile_error}
use voix.Config.WellFormed.{IsWellFormed}
use voix.Config.Keeps.{
  Keeps, bind-Keeps, then-Keeps, pure-Keeps, modify-Keeps, or_fail-Keeps, each-Keeps, thrown-Keeps,
}
use voix.Config.Loading.{
  Load, ◌>>=◌, pure, fail, modify, or_throw, fail_if, each, or_fail, present, either_field,
  when_field, set_string, set_bool, set_strings, set_targets, load_core, store_profile,
  load_profile, add_block, push_block, load_profiles, load_blocklist,
}

-- Every profile passes `profile_error`, every rule has the form that `parse_rule` gives, and every
-- pattern of the blocklist compiles.
abbrev pub IsUsable : Libseccomp → (Text → Bool) → Config → Type 0
IsUsable lib regex_ok c =
    All (λ p. profile_error lib p.0 p.1 ≡ none) c.security_profiles
    × (All IsWellFormed c.rules × All (λ p. regex_ok p ≡ true) c.regex_blocklist)

put_profile-All :
    (P : Text × SecurityProfile → Type 0) (name : Text) (profile : SecurityProfile)
    (xs : List (Text × SecurityProfile))
    → P (name, profile)
    → All P xs
    → All P (put_profile name profile xs)
unfolding put_profile
put_profile-All P name profile [] p h = (p, tt)
put_profile-All P name profile ((key, old) ∷ more) p h = elim (Bool-cases (key == name)) [
  | inl same ↦ rw same (p, h.1)
  | inr other ↦ elim (Bool-cases (text_less name key)) [
    | inl before ↦ rw (put_profile, other, before) (p, h)
    | inr behind ↦ rw (put_profile, other, behind) (h.0, put_profile-All P name profile more p h.1)
  ]
]

module _ (lib : Libseccomp) (regex_ok : Text → Bool) where
  -- Usable, and no error is recorded.
  abbrev pub IsSound : Config → Type 0
  IsSound c = IsUsable lib regex_ok c × (c.last_error ≡ none)

  module _ {N : Type 0} (yaml : Yaml N) where
    present-Keeps :
        (body : N → Load (Unit {0})) (otherwise : Load (Unit {0})) (found : Option N)
        → ((n : N) → Keeps IsSound (body n))
        → Keeps IsSound otherwise
        → Keeps IsSound (present yaml body otherwise found)
    unfolding present
    present-Keeps body otherwise none keeps other = other
    present-Keeps body otherwise (some n) keeps other = keeps n

    either_field-Keeps :
        (node : N) (key : Text) (body : N → Load (Unit {0})) (otherwise : Load (Unit {0}))
        → ((n : N) → Keeps IsSound (body n))
        → Keeps IsSound otherwise
        → Keeps IsSound (either_field yaml node key body otherwise)
    unfolding either_field
    either_field-Keeps node key body otherwise keeps other =
        thrown-Keeps IsSound (yaml.field node key) (present yaml body otherwise)
          λ found. present-Keeps body otherwise found keeps other

    pub when_field-Keeps :
        (node : N) (key : Text) (body : N → Load (Unit {0}))
        → ((n : N) → Keeps IsSound (body n))
        → Keeps IsSound (when_field yaml node key body)
    unfolding when_field
    when_field-Keeps node key body keeps =
        either_field-Keeps node key body (pure tt) keeps (pure-Keeps IsSound tt)

    set_string-Keeps :
        (f : Text → Config → Config)
        → ((s : Text) (c : Config) → IsSound c → IsSound (f s c))
        → (node : N) → Keeps IsSound (set_string yaml f node)
    unfolding set_string
    set_string-Keeps f keeps node =
        thrown-Keeps IsSound (yaml.as_string node) (λ s. modify (f s))
          λ s. modify-Keeps IsSound (f s) (keeps s)

    pub set_bool-Keeps :
        (f : Bool → Config → Config)
        → ((b : Bool) (c : Config) → IsSound c → IsSound (f b c))
        → (node : N) → Keeps IsSound (set_bool yaml f node)
    unfolding set_bool
    set_bool-Keeps f keeps node =
        thrown-Keeps IsSound (yaml.as_bool node) (λ b. modify (f b))
          λ b. modify-Keeps IsSound (f b) (keeps b)

    set_strings-Keeps :
        (clear : Config → Config) (push : Text → Config → Config)
        → ((c : Config) → IsSound c → IsSound (clear c))
        → ((s : Text) (c : Config) → IsSound c → IsSound (push s c))
        → (node : N) → Keeps IsSound (set_strings yaml clear push node)
    unfolding set_strings
    set_strings-Keeps clear push cleared pushed node =
        then-Keeps IsSound (modify clear)
          (or_throw (yaml.items node) >>= each (set_string yaml push))
          (modify-Keeps IsSound clear cleared)
          (thrown-Keeps IsSound (yaml.items node) (each (set_string yaml push))
            (each-Keeps IsSound (set_string yaml push) (set_string-Keeps push pushed)))

    set_targets-Keeps : (node : N) → Keeps IsSound (set_targets yaml node)
    unfolding set_targets
    set_targets-Keeps =
        set_strings-Keeps (λ c. record c { unconfined_targets = [] })
          (λ s c. record c { unconfined_targets = c.unconfined_targets ++ s ∷ [] }) (λ c h. h)
          (λ s c h. h)

    pub load_core-Keeps : (core : N) → Keeps IsSound (load_core yaml core)
    unfolding load_core
    load_core-Keeps core =
        then-Keeps IsSound _ _
          (then-Keeps IsSound _ _
            (then-Keeps IsSound _ _
              (then-Keeps IsSound _ _
                (when_field-Keeps core (codes "sanctuary") _
                  (set_string-Keeps (λ s c. record c { sanctuary = s }) (λ s c h. h)))
                (when_field-Keeps core (codes "paths") _ (
                  set_strings-Keeps (λ c. record c { path_list = [] })
                    (λ s c. record c { path_list = c.path_list ++ s ∷ [] }) (λ c h. h)
                    (λ s c h. h))))
              (when_field-Keeps core (codes "login_shell") _
                (set_bool-Keeps (λ b c. record c { login_shell_default = b }) (λ b c h. h))))
            (when_field-Keeps core (codes "suppress_stderr") _
              (set_bool-Keeps (λ b c. record c { suppress_stderr = b }) (λ b c h. h))))
          (either_field-Keeps core (codes "unconfined_targets") _ _ set_targets-Keeps
            (when_field-Keeps core (codes "privileged_users") _ set_targets-Keeps))

    -- A profile that is refused ends the reading with it in the map, so only what succeeds counts.
    store_profile-Keeps :
        (name : Text) (profile : SecurityProfile)
        → Keeps IsSound (store_profile yaml lib name profile)
    unfolding store_profile fail_if modify
    store_profile-Keeps name profile c after b (h, unset) e =
        elim (Option-cases (profile_error lib name profile)) [
          | inl fine ↦
              let same : record c {
                security_profiles = put_profile name profile c.security_profiles;
              }
                  ≡ after =
                ground arith in
              rw (sym same)
                ((put_profile-All _ name profile c.security_profiles fine h.0, h.1), unset)
          | inr (x, bad) ↦ absurd (ground arith)
        ]

    load_profile-Keeps : (entry : N × N) → Keeps IsSound (load_profile yaml lib entry)
    unfolding load_profile
    load_profile-Keeps (key, node) = thrown-Keeps IsSound (yaml.as_string key) _ λ name.
        bind-Keeps IsSound (or_fail (parse_profile yaml name node)) _ (or_fail-Keeps IsSound _)
          (store_profile-Keeps name)

    pub load_profiles-Keeps : (node : N) → Keeps IsSound (load_profiles yaml lib node)
    unfolding load_profiles
    load_profiles-Keeps node =
        thrown-Keeps IsSound (yaml.entries node) _ (each-Keeps IsSound _ load_profile-Keeps)

    add_block-Keeps : (entry : Text) → Keeps IsSound (add_block yaml regex_ok entry)
    unfolding add_block fail modify
    add_block-Keeps entry c after b (h, unset) e =
        elim (Bool-cases (starts_with entry (codes "regex:"))) [
          | inr plain ↦
              let same : record c { blocklist = c.blocklist ++ entry ∷ [] } ≡ after =
                ground arith in
              rw (sym same) (h, unset)
          | inl prefixed ↦ elim (Bool-cases (regex_ok (drop (length (codes "regex:")) entry))) [
            | inl compiles ↦
                let same : record c {
                  regex_blocklist = c.regex_blocklist ++ drop (length (codes "regex:")) entry ∷ [];
                }
                    ≡ after =
                  ground arith in
                rw (sym same) (
                  (
                    h.0,
                    (
                      h.1.0,
                      All-append _ c.regex_blocklist (drop (length (codes "regex:")) entry ∷ [])
                          h.1.1 (compiles, tt),
                    ),
                  ),
                  unset,
                )
            | inr bad ↦ absurd (ground arith)
          ]
        ]

    push_block-Keeps : (node : N) → Keeps IsSound (push_block yaml regex_ok node)
    unfolding push_block
    push_block-Keeps node = elim (Bool-cases (yaml.is_scalar node)) [
      | inl scalar ↦ rw scalar (thrown-Keeps IsSound (yaml.as_string node) _ add_block-Keeps)
      | inr other ↦ rw other (pure-Keeps IsSound tt)
    ]

    pub load_blocklist-Keeps : (node : N) → Keeps IsSound (load_blocklist yaml regex_ok node)
    unfolding load_blocklist
    load_blocklist-Keeps node =
        thrown-Keeps IsSound (yaml.items node) _ (each-Keeps IsSound _ push_block-Keeps)
