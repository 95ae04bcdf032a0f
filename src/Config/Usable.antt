-- ===== src/Config/Usable.antt =====
-- `Config::load` of src/config.cpp: what holds of a configuration that it has accepted.
use voix.Base.{
  ◌≡◌, refl, sym, ap, Bool, true, false, none, some, [], ◌∷◌, ◌++◌, Text, codes, nat_eq, list_eq,
  All-append, arith, inl, inr, Bool-cases, Option-cases, if◌then◌else◌,
}
use voix.Rule.{Rule}
use voix.Identity.{Accounts}
use voix.Files.{Kernel, Expected, value, unexpected, Expected-cases}
use voix.Files.Reading.{read_file_secure}
use voix.Files.Trust.{is_trusted_path}
use voix.Security.Seccomp.{Libseccomp}
use voix.Config.{Config, ConfigError}
use voix.Config.Yaml.{Yaml}
use voix.Config.Rules.{parse_rule}
use voix.Config.Validation.{validate_sanctuary_path}
use voix.Config.WellFormed.{IsWellFormed, parse_rule-IsWellFormed}
use voix.Config.Keeps.{
  fail_if-steps, or_throw-steps, or_fail-steps, Keeps, read_value, then-Keeps, modify-Keeps,
  each-Keeps, thrown-Keeps,
}
use voix.Config.Loading.{
  Load, ◌>>=◌, ◌>>◌, modify, or_throw, fail_if, or_fail, as_user, as_group, push_rule, push_rules,
  parse_acl_section, load_acl, load_security, load_document, read_config, links, path_error,
  check_loaded, load_body, finish, load,
}
use voix.Config.Sections.{
  IsUsable, IsSound, when_field-Keeps, set_bool-Keeps, load_core-Keeps, load_profiles-Keeps,
  load_blocklist-Keeps,
}

module _ (lib : Libseccomp) (regex_ok : Text → Bool) where
  module _ {N : Type 0} (yaml : Yaml N) (accounts : Accounts) where
    -- The identity of a rule plays no part in its form.
    abbrev KeepsForm : (Rule → Rule) → Type 0
    KeepsForm f = (rule : Rule) → IsWellFormed rule → IsWellFormed (f rule)

    push_rule-Keeps :
        (f : Rule → Rule)
        → KeepsForm f
        → (node : N) → Keeps (IsSound lib regex_ok) (push_rule yaml accounts f node)
    unfolding push_rule or_throw modify
    push_rule-Keeps f form node c after b (h, unset) e =
        elim (Option-cases (parse_rule yaml accounts node)) [
          | inl threw ↦ absurd (ground arith)
          | inr (rule, parsed) ↦
              let same : record c { rules = c.rules ++ f rule ∷ [] } ≡ after = ground arith in
              let formed = form rule (parse_rule-IsWellFormed yaml accounts node rule parsed) in
              rw (sym same)
                ((h.0, (All-append _ c.rules (f rule ∷ []) h.1.0 (formed, tt), h.1.1)), unset)
        ]

    parse_acl_section-Keeps :
        (f : Text → Rule → Rule)
        → ((name : Text) → KeepsForm (f name))
        → (section : N) → Keeps (IsSound lib regex_ok) (parse_acl_section yaml accounts f section)
    unfolding parse_acl_section push_rules
    parse_acl_section-Keeps f form section =
        thrown-Keeps (IsSound lib regex_ok) (yaml.entries section) _ (
          each-Keeps (IsSound lib regex_ok) _ λ (key, nodes).
            thrown-Keeps (IsSound lib regex_ok) (yaml.as_string key) _ λ name.
              thrown-Keeps (IsSound lib regex_ok) (yaml.items nodes) _
                (each-Keeps (IsSound lib regex_ok) _ (push_rule-Keeps (f name) (form name))))

    load_acl-Keeps : (acl : N) → Keeps (IsSound lib regex_ok) (load_acl yaml accounts acl)
    unfolding load_acl
    load_acl-Keeps acl =
        then-Keeps (IsSound lib regex_ok) _ _
          (then-Keeps (IsSound lib regex_ok) _ _
            (modify-Keeps (IsSound lib regex_ok) _ (λ c (h, unset). ((h.0, (tt, h.1.1)), unset)))
            (when_field-Keeps lib regex_ok yaml acl (codes "user") _
              (parse_acl_section-Keeps (as_user yaml accounts) (λ name rule form. form))))
          (when_field-Keeps lib regex_ok yaml acl (codes "group") _
            (parse_acl_section-Keeps (as_group yaml accounts) (λ name rule form. form)))

  module _ {N : Type 0} (yaml : Yaml N) (accounts : Accounts) (k : Kernel) where
    load_security-Keeps :
        (security : N)
        → Keeps (IsSound lib regex_ok) (load_security yaml accounts k lib regex_ok security)
    unfolding load_security
    load_security-Keeps security =
        then-Keeps (IsSound lib regex_ok) _ _
          (then-Keeps (IsSound lib regex_ok) _ _
            (when_field-Keeps lib regex_ok yaml security (codes "profiles") _
              (load_profiles-Keeps lib regex_ok yaml))
            (when_field-Keeps lib regex_ok yaml security (codes "seccomp") _ (
              set_bool-Keeps lib regex_ok yaml (λ b c. record c { seccomp_enabled = b })
                (λ b c h. h))))
          (when_field-Keeps lib regex_ok yaml security (codes "blocklist") _
            (load_blocklist-Keeps lib regex_ok yaml))

    load_document-Keeps :
        (document : N)
        → Keeps (IsSound lib regex_ok) (load_document yaml accounts k lib regex_ok document)
    unfolding load_document
    load_document-Keeps document =
        then-Keeps (IsSound lib regex_ok) _ _
          (then-Keeps (IsSound lib regex_ok) _ _
            (when_field-Keeps lib regex_ok yaml document (codes "core") _
              (load_core-Keeps lib regex_ok yaml))
            (when_field-Keeps lib regex_ok yaml document (codes "acl") _
              (load_acl-Keeps yaml accounts)))
          (when_field-Keeps lib regex_ok yaml document (codes "security") _ load_security-Keeps)

    abbrev reading : Text → Load (Unit {0})
    reading content = or_throw (yaml.parse content) >>= load_document yaml accounts k lib regex_ok

    reading-steps :
        (content : Text) (c after : Config) (done : Unit {0})
        → reading content c ≡ (value done, after)
        → (document : N) × (yaml.parse content ≡ some document)
          × (load_document yaml accounts k lib regex_ok document c ≡ (value done, after))
    reading-steps content c after done e =
        let (document, next, thrown, loaded) =
          read_value (or_throw (yaml.parse content)) (load_document yaml accounts k lib regex_ok) c
            after done e in
        let (parsed, same) = or_throw-steps (yaml.parse content) c next document thrown in
        (document, parsed, cc (loaded, same))

    -- What a successful reading has passed, step by step.
    pub load_body-steps :
        (path : Text) (verify_security : Bool) (c after : Config) (done : Unit {0})
        → load_body yaml accounts k lib regex_ok path verify_security c ≡ (value done, after)
        → (content : Text) × (document : N) × (path_error k path verify_security ≡ none)
          × (read_config k path verify_security ≡ value content)
          × (yaml.parse content ≡ some document)
          × (load_document yaml accounts k lib regex_ok document c ≡ (value tt, after))
          × ((if verify_security then validate_sanctuary_path k after.sanctuary else none) ≡ none)
    unfolding load_body check_loaded
    load_body-steps path verify_security c after done e =
        let (one, c1, before, checked) =
          read_value
            (fail_if (path_error k path verify_security)
              >> (or_fail (read_config k path verify_security) >>= reading))
            (λ _. check_loaded k verify_security) c after done e in
        let (two, c2, allowed, got) =
          read_value (fail_if (path_error k path verify_security))
            (λ _. or_fail (read_config k path verify_security) >>= reading) c c1 one before in
        let (no_error, same2) =
          fail_if-steps (path_error k path verify_security) c c2 two allowed in
        let (content, c3, read, then_read) =
          read_value (or_fail (read_config k path verify_security)) reading c2 c1 one got in
        let (content_is, same3) =
          or_fail-steps (read_config k path verify_security) c2 c3 content read in
        let (document, parsed, loaded) = reading-steps content c3 c1 one then_read in
        let (trusted, same1) = fail_if-steps _ c1 after done checked in
        (
          content,
          document,
          no_error,
          content_is,
          parsed,
          cc (loaded, same1, same2, same3),
          cc (trusted, same1),
        )

    finish-steps :
        (r : Expected ConfigError (Unit {0}) × Config) (after : Config)
        → finish r ≡ (true, after)
        → r ≡ (value tt, after)
    finish-steps (value tt, c) after e = ap (λ p. (value tt, p.1)) e
    finish-steps (unexpected x, c) after e = absurd (ground arith)

    -- Whatever the document, the kernel and the accounts answer: if the configuration was usable (that
    -- is, every profile passes `profile_error`, every rule sets only well-named variables and matches
    -- arguments as patterns exactly where one holds a wildcard, every blocklist pattern compiles) and
    -- `load` accepts, the configuration afterwards is usable too and records no error.
    pub load-IsUsable :
        (path : Text) (verify_security : Bool) (c after : Config)
        → IsUsable lib regex_ok c
        → load yaml accounts k lib regex_ok path verify_security c ≡ (true, after)
        → IsUsable lib regex_ok after × (after.last_error ≡ none)
    unfolding load
    load-IsUsable path verify_security c after h e =
        let (_, document, _, _, _, loaded, _) =
          load_body-steps path verify_security _ after tt (finish-steps _ after e) in
        load_document-Keeps document (record c { last_error = none }) after tt (h, refl) loaded

    path_error-none :
        (path : Text)
        → path_error k path true ≡ none
        → (k.exists_file path ≡ true) × (is_trusted_path k path ≡ true) × (links k path ≡ false)
    unfolding path_error
    path_error-none path e = elim (Bool-cases (k.exists_file path)) [
      | inl there ↦ elim (Bool-cases (is_trusted_path k path)) [
        | inl trusted ↦ elim (Bool-cases (links k path)) [
          | inl link ↦ absurd (ground arith)
          | inr no_link ↦ (there, trusted, no_link)
        ]
        | inr other ↦ absurd (ground arith)
      ]
      | inr missing ↦ absurd (ground arith)
    ]

    read_config-value :
        (path content : Text)
        → read_config k path true ≡ value content
        → read_file_secure k path ≡ value content
    unfolding read_config
    read_config-value path content e = elim (Expected-cases (read_file_secure k path)) [
      | inl (x, is) ↦ absurd (ground arith)
      | inr (a, is) ↦ ground arith
    ]

    -- A configuration that `load` accepts under verification comes from an existing file that is
    -- trusted and no symbolic link, its content was read through a checked descriptor, and its
    -- sanctuary passes `validate_sanctuary_path`.
    pub load-verified :
        (path : Text) (c after : Config)
        → load yaml accounts k lib regex_ok path true c ≡ (true, after)
        → (k.exists_file path ≡ true)
          × (is_trusted_path k path ≡ true)
          × (links k path ≡ false)
          × ((content : Text) × (read_file_secure k path ≡ value content))
          × (validate_sanctuary_path k after.sanctuary ≡ none)
    unfolding load
    load-verified path c after e =
        let (content, document, no_error, read, _, _, trusted) =
          load_body-steps path true _ after tt (finish-steps _ after e) in
        let (exists, is_trusted, no_link) = path_error-none path no_error in
        (exists, is_trusted, no_link, (content, read_config-value path content read), trusted)
