-- ===== src/Config/Valid.antt =====
-- `Config::validate` of src/config.cpp against an independent description of what it accepts.
use voix.Base.{
  ◌≡◌, ◌↔◌, refl, Bool, true, false, not, ◌&&◌, Option, none, some, List, [], ◌∷◌, Text, is_empty,
  All, arith, inl, inr, Bool-cases, Option-cases, if◌then◌else◌,
}
use voix.Rule.{Rule}
use voix.Paths.{is_absolute}
use voix.Files.{Kernel, value, Expected-cases}
use voix.Security.Seccomp.{Libseccomp}
use voix.Config.{Config, ConfigError}
use voix.Config.Validation.{
  profile_error, check_sanctuary, first_error, check_path, check_rule, check_argument, check_entry,
  is_none, or_else, validate_error, validate,
}

-- A rule that names a caller, and no empty argument where a command is given.
abbrev pub IsValidRule : Rule → Type 0
IsValidRule rule =
    ((is_empty rule.ident ≡ true) → (rule.ident_uid ≡ none) → (rule.ident_gid ≡ none) → ⊥)
    × ((is_empty rule.cmd ≡ false) → All (λ arg. is_empty arg ≡ false) rule.cmdargs)

-- What `validate` asks of a configuration.
abbrev pub IsValid : Kernel → Libseccomp → Config → Type 0
IsValid k lib c =
    ((is_empty c.sanctuary ≡ false) × (k.directory_status c.sanctuary ≡ value true))
    × (All (λ path. is_absolute path ≡ true) c.path_list
        × (All IsValidRule c.rules
            × (All (λ entry. is_empty entry ≡ false) c.blocklist
                × All (λ p. profile_error lib p.0 p.1 ≡ none) c.security_profiles)))

both_iff :
    {P Q : Type 0} (r s : Option ConfigError)
    → (r ≡ none) ↔ P
    → (s ≡ none) ↔ Q
    → (or_else r s ≡ none) ↔ (P × Q)
unfolding or_else
both_iff none s first second = (λ e. (first.0 refl, second.0 e), λ h. second.1 h.1)
both_iff (some x) s first second =
    (λ e. absurd (ground arith), λ h. let fine = first.1 h.0 in absurd (ground arith))

-- A loop complains of nothing if each of its elements is in order.
first_error_iff :
    {A : Type 0} (check : A → Option ConfigError) (P : A → Type 0)
    → ((a : A) → (check a ≡ none) ↔ P a)
    → (xs : List A) → (first_error check xs ≡ none) ↔ All P xs
unfolding first_error
first_error_iff check P each [] = (λ e. tt, λ h. refl)
first_error_iff check P each (x ∷ xs) =
    let rest = first_error_iff check P each xs in
    elim (Option-cases (check x)) [
      | inl fine ↦ rw (first_error, fine) (λ e. ((each x).0 fine, rest.0 e), λ h. rest.1 h.1)
      | inr (a, bad) ↦
          (λ e. absurd (ground arith), λ h. let fine = (each x).1 h.0 in absurd (ground arith))
    ]

check_sanctuary_iff :
    (k : Kernel) (path : Text)
    → (check_sanctuary k path ≡ none)
      ↔ ((is_empty path ≡ false) × (k.directory_status path ≡ value true))
unfolding check_sanctuary
check_sanctuary_iff k path = (
  λ e. elim (Expected-cases (k.directory_status path)) [
    | inl (x, is) ↦ absurd (ground arith)
    | inr (there, is) ↦ ground arith
  ],
  λ h. rw (check_sanctuary, h.0, h.1) refl,
)

check_path_iff : (path : Text) → (check_path path ≡ none) ↔ (is_absolute path ≡ true)
unfolding check_path
check_path_iff path = ground arith

check_entry_iff : (entry : Text) → (check_entry entry ≡ none) ↔ (is_empty entry ≡ false)
unfolding check_entry
check_entry_iff entry = ground arith

check_argument_iff :
    (rule : Rule) (arg : Text) → (check_argument rule arg ≡ none) ↔ (is_empty arg ≡ false)
unfolding check_argument
check_argument_iff rule arg = ground arith

nameless : Rule → Bool
nameless rule = is_empty rule.ident && (is_none rule.ident_uid && is_none rule.ident_gid)

nameless_iff :
    (rule : Rule)
    → (nameless rule ≡ false)
      ↔ ((is_empty rule.ident ≡ true) → (rule.ident_uid ≡ none) → (rule.ident_gid ≡ none) → ⊥)
unfolding nameless
nameless_iff rule = (
  λ e empty no_uid no_gid. ground arith,
  λ h. elim (Option-cases rule.ident_uid) [
    | inr (u, has_uid) ↦ ground arith
    | inl no_uid ↦ elim (Option-cases rule.ident_gid) [
      | inr (g, has_gid) ↦ ground arith
      | inl no_gid ↦ elim (Bool-cases (is_empty rule.ident)) [
        | inl empty ↦ absurd (h empty no_uid no_gid)
        | inr named ↦ ground arith
      ]
    ]
  ],
)

All-empty : (xs : List Text) → is_empty xs ≡ true → All (λ arg. is_empty arg ≡ false) xs
All-empty [] e = tt
All-empty (x ∷ xs) e = absurd (ground arith)

check_arguments : Rule → Option ConfigError
check_arguments rule =
    if not (is_empty rule.cmd) && not (is_empty rule.cmdargs)
    then first_error (check_argument rule) rule.cmdargs
    else none

check_arguments_iff :
    (rule : Rule)
    → (check_arguments rule ≡ none)
      ↔ (is_empty rule.cmd ≡ false → All (λ arg. is_empty arg ≡ false) rule.cmdargs)
unfolding check_arguments
check_arguments_iff rule =
    let each =
      first_error_iff (check_argument rule) (λ arg. is_empty arg ≡ false) (check_argument_iff rule)
        rule.cmdargs in
    elim (Bool-cases (is_empty rule.cmd)) [
      | inl any_command ↦ (λ e given. absurd (ground arith), λ h. ground arith)
      | inr given ↦ elim (Bool-cases (is_empty rule.cmdargs)) [
        | inl no_args ↦ (λ e _. All-empty rule.cmdargs no_args, λ h. ground arith)
        | inr some_args ↦
            (λ e _. each.0 (ground arith), λ h. let fine = each.1 (h given) in ground arith)
      ]
    ]

check_rule_iff : (rule : Rule) → (check_rule rule ≡ none) ↔ IsValidRule rule
unfolding check_rule nameless check_arguments
check_rule_iff rule =
    let named = nameless_iff rule in
    let args = check_arguments_iff rule in
    elim (Bool-cases (nameless rule)) [
      | inl bad ↦ (λ e. absurd (ground arith), λ h. let good = named.1 h.0 in absurd (ground arith))
      | inr good ↦
          let same : check_rule rule ≡ check_arguments rule = ground arith in
          rw same (λ e. (named.0 good, args.0 e), λ h. args.1 h.1)
    ]

validate_error_iff :
    (k : Kernel) (lib : Libseccomp) (c : Config) → (validate_error k lib c ≡ none) ↔ IsValid k lib c
unfolding validate_error
validate_error_iff k lib c =
    both_iff (check_sanctuary k c.sanctuary) _ (check_sanctuary_iff k c.sanctuary) (
      both_iff (first_error check_path c.path_list) _
        (first_error_iff check_path _ check_path_iff c.path_list)
        (both_iff (first_error check_rule c.rules) _
          (first_error_iff check_rule _ check_rule_iff c.rules)
          (both_iff (first_error check_entry c.blocklist) _
            (first_error_iff check_entry _ check_entry_iff c.blocklist)
            (first_error_iff (λ p. profile_error lib p.0 p.1) _ (λ p. (λ e. e, λ e. e))
              c.security_profiles))))

-- `validate` accepts a configuration exactly if its sanctuary is an existing directory, its paths are
-- absolute, every rule names a caller and gives a command no empty argument, no blocklist entry is
-- empty and every profile passes `profile_error`.
pub validate_iff :
    (k : Kernel) (lib : Libseccomp) (c : Config) → ((validate k lib c).0 ≡ true) ↔ IsValid k lib c
unfolding validate
validate_iff k lib c =
    let accepted = validate_error_iff k lib c in
    elim (Option-cases (validate_error k lib c)) [
      | inl fine ↦ (λ e. accepted.0 fine, λ h. ground arith)
      | inr (x, bad) ↦
          (λ e. absurd (ground arith), λ h. let fine = accepted.1 h in absurd (ground arith))
    ]
