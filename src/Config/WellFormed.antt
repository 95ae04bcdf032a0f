-- ===== src/Config/WellFormed.antt =====
-- `parse_rule` of src/config.cpp: the form of the rules that it gives.
use voix.Base.{
  ◌≡◌, refl, sym, ◌∙◌, Bool, true, ◌||◌, ◌==◌, nat_eq, list_eq, Option, none, some, List, [], ◌∷◌,
  ◌++◌, Text, codes, All, All-append, any, arith, inl, inr, Bool-cases, Option-cases, if◌then◌else◌,
}
use voix.Rule
use voix.Rule.{Rule, default_rule}
use voix.Identity.{Accounts, get_uid_by_name}
use voix.Config.Yaml.{Yaml, ◌>>=◌, on_field, fold_nodes}
use voix.Config.Rules.{
  is_env_entry, is_glob, add_option, set_action, set_option, set_options, set_profile, push_env,
  set_env, set_target, set_command, push_arg, set_args, parse_rule,
}

-- Every entry of the environment sets a variable whose name is a C identifier, and arguments are
-- matched as patterns exactly where one of them holds a wildcard.
abbrev pub IsWellFormed : Rule → Type 0
IsWellFormed rule =
    All (λ entry. is_env_entry entry ≡ true) rule.envlist
    × (rule.options.pattern_args ≡ any is_glob rule.cmdargs)

any-snoc : (p : Text → Bool) (xs : List Text) (x : Text) → any p (xs ++ x ∷ []) ≡ (p x || any p xs)
any-snoc p [] x = ground arith
any-snoc p (y ∷ xs) x = ground (arith, any-snoc p xs x)

-- A step that keeps the form wherever it does not throw.
abbrev KeepsForm : {N : Type 0} → (N → Rule → Option Rule) → Type 0
KeepsForm {N} f =
    (node : N) (rule after : Rule)
    → IsWellFormed rule
    → f node rule ≡ some after
    → IsWellFormed after

-- What a step without an exception has read.
read_some :
    {A B : Type 0} (r : Option A) (f : A → Option B) (b : B)
    → (r >>= f) ≡ some b
    → (a : A) × (r ≡ some a) × (f a ≡ some b)
read_some none f b e = cc
read_some (some a) f b e = (a, refl, e)

fold_nodes-KeepsForm :
    {N : Type 0} (f : N → Rule → Option Rule)
    → KeepsForm f
    → (nodes : List N) (rule after : Rule) → IsWellFormed rule
    → fold_nodes f nodes rule ≡ some after
    → IsWellFormed after
unfolding fold_nodes
fold_nodes-KeepsForm f keeps [] rule after h e =
    let same : rule ≡ after = ground arith in rw (sym same) h
fold_nodes-KeepsForm f keeps (node ∷ nodes) rule after h e =
    let (next, first, rest) = read_some (f node rule) (fold_nodes f nodes) after e in
    fold_nodes-KeepsForm f keeps nodes next after (keeps node rule next h first) rest

module _ {N : Type 0} (yaml : Yaml N) (accounts : Accounts) where
  on_field-KeepsForm :
      (f : N → Rule → Option Rule)
      → KeepsForm f
      → (node : N) (key : Text) (rule after : Rule) → IsWellFormed rule
      → on_field yaml node key f rule ≡ some after
      → IsWellFormed after
  unfolding on_field
  on_field-KeepsForm f keeps node key rule after h e = elim (Option-cases (yaml.field node key)) [
    | inl threw ↦ absurd (ground arith)
    | inr (found, there) ↦ elim (Option-cases found) [
      | inl undefined ↦ let same : rule ≡ after = ground arith in rw (sym same) h
      | inr (n, defined) ↦ keeps n rule after h (ground arith)
    ]
  ]

  set_action-KeepsForm : KeepsForm (set_action yaml accounts)
  unfolding set_action
  set_action-KeepsForm node rule after h e =
      let (name, _, last) = read_some (yaml.as_string node) _ after e in
      let same : record rule { action = if name == codes "permit" then Rule.permit else Rule.deny }
          ≡ after =
        ground arith in
      rw (sym same) h

  add_option-pattern_args :
      (name : Text) (rule : Rule)
      → (add_option name rule.options).pattern_args ≡ rule.options.pattern_args
  unfolding add_option
  add_option-pattern_args name rule = ground arith

  set_option-KeepsForm : KeepsForm (set_option yaml accounts)
  unfolding set_option
  set_option-KeepsForm node rule after h e =
      let (name, _, last) = read_some (yaml.as_string node) _ after e in
      let same : record rule { options = add_option name rule.options } ≡ after = ground arith in
      rw (sym same) (h.0, add_option-pattern_args name rule ∙ h.1)

  set_options-KeepsForm : KeepsForm (set_options yaml accounts)
  unfolding set_options
  set_options-KeepsForm node rule after h e =
      let (nodes, _, last) = read_some (yaml.items node) _ after e in
      fold_nodes-KeepsForm (set_option yaml accounts) set_option-KeepsForm nodes rule after h last

  set_profile-KeepsForm : KeepsForm (set_profile yaml accounts)
  unfolding set_profile
  set_profile-KeepsForm node rule after h e =
      let (name, _, last) = read_some (yaml.as_string node) _ after e in
      let same : record rule { profile = name } ≡ after = ground arith in rw (sym same) h

  push_env-KeepsForm : KeepsForm (push_env yaml accounts)
  unfolding push_env
  push_env-KeepsForm node rule after h e =
      let (entry, _, last) = read_some (yaml.as_string node) _ after e in
      elim (Bool-cases (is_env_entry entry)) [
        | inl good ↦
            let same : record rule { envlist = rule.envlist ++ entry ∷ [] } ≡ after =
              ground arith in
            rw (sym same) (All-append _ rule.envlist (entry ∷ []) h.0 (good, tt), h.1)
        | inr bad ↦ absurd (ground arith)
      ]

  set_env-KeepsForm : KeepsForm (set_env yaml accounts)
  unfolding set_env
  set_env-KeepsForm node rule after h e =
      let (nodes, _, last) = read_some (yaml.items node) _ after e in
      fold_nodes-KeepsForm (push_env yaml accounts) push_env-KeepsForm nodes rule after h last

  set_target-KeepsForm : KeepsForm (set_target yaml accounts)
  unfolding set_target
  set_target-KeepsForm node rule after h e =
      let (name, _, last) = read_some (yaml.as_string node) _ after e in
      let same : record rule { target = name; target_uid = get_uid_by_name accounts name } ≡ after =
        ground arith in
      rw (sym same) h

  set_command-KeepsForm : KeepsForm (set_command yaml accounts)
  unfolding set_command
  set_command-KeepsForm node rule after h e =
      let (name, _, last) = read_some (yaml.as_string node) _ after e in
      let same : record rule { cmd = name } ≡ after = ground arith in rw (sym same) h

  push_arg-KeepsForm : KeepsForm (push_arg yaml accounts)
  unfolding push_arg
  push_arg-KeepsForm node rule after h e =
      let (arg, _, last) = read_some (yaml.as_string node) _ after e in
      let same : record rule {
        cmdargs = rule.cmdargs ++ arg ∷ [];
        options = if is_glob arg then record rule.options { pattern_args = true } else rule.options;
      }
          ≡ after =
        ground arith in
      let flag = any-snoc is_glob rule.cmdargs arg in rw (sym same) (h.0, ground (arith, flag, h.1))

  set_args-KeepsForm : KeepsForm (set_args yaml accounts)
  unfolding set_args
  set_args-KeepsForm node rule after h e =
      let (nodes, _, last) = read_some (yaml.items node) _ after e in
      fold_nodes-KeepsForm (push_arg yaml accounts) push_arg-KeepsForm nodes rule after h last

  pub parse_rule-IsWellFormed :
      (node : N) (rule : Rule) → parse_rule yaml accounts node ≡ some rule → IsWellFormed rule
  unfolding parse_rule
  parse_rule-IsWellFormed node rule e =
      let (r1, e1, f1) =
        read_some (on_field yaml node (codes "action") (set_action yaml accounts) default_rule) _
          rule e in
      let (r2, e2, f2) =
        read_some (on_field yaml node (codes "options") (set_options yaml accounts) r1) _ rule f1 in
      let (r3, e3, f3) =
        read_some (on_field yaml node (codes "profile") (set_profile yaml accounts) r2) _ rule f2 in
      let (r4, e4, f4) =
        read_some (on_field yaml node (codes "env") (set_env yaml accounts) r3) _ rule f3 in
      let (r5, e5, f5) =
        read_some (on_field yaml node (codes "target") (set_target yaml accounts) r4) _ rule f4 in
      let (r6, e6, f6) =
        read_some (on_field yaml node (codes "command") (set_command yaml accounts) r5) _ rule f5 in
      let h1 =
        on_field-KeepsForm _ set_action-KeepsForm node (codes "action") default_rule r1 (tt, refl)
          e1 in
      let h2 = on_field-KeepsForm _ set_options-KeepsForm node (codes "options") r1 r2 h1 e2 in
      let h3 = on_field-KeepsForm _ set_profile-KeepsForm node (codes "profile") r2 r3 h2 e3 in
      let h4 = on_field-KeepsForm _ set_env-KeepsForm node (codes "env") r3 r4 h3 e4 in
      let h5 = on_field-KeepsForm _ set_target-KeepsForm node (codes "target") r4 r5 h4 e5 in
      let h6 = on_field-KeepsForm _ set_command-KeepsForm node (codes "command") r5 r6 h5 e6 in
      on_field-KeepsForm _ set_args-KeepsForm node (codes "args") r6 rule h6 f6
