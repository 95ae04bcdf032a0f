-- ===== src/Security/Seccomp/Loads.antt =====
-- The filters of src/security.cpp: when they are loaded.
use voix.Base.{
  ℕ, ◌≡◌, refl, Bool, true, false, not, Option, none, some, List, [], ◌∷◌, ◌++◌, Text, is_empty,
  arith, inl, inr, Bool-cases, Option-cases, if◌then◌else◌,
}
use voix.Files.{value, unexpected}
use voix.Security.Seccomp.{
  Added, added, edom, enosys, eopnotsupp, failed, Libseccomp, Filter, k_allowlist_baseline,
  k_blacklist, validate_syscall_names, add_rule, add_allow_rule, add_allow_rules, add_kill_rules,
  add_allowlist, load_filter, apply_seccomp_blacklist, apply_seccomp_allowlist,
}

-- libseccomp takes every rule, up to the errors that are tolerated, and knows the baseline's names.
abbrev pub Works : Libseccomp → Type 0
Works lib =
    (lib.init_ok ≡ true)
    × (lib.load_ok ≡ true)
    × ((sc : ℕ) → lib.rule_add sc ≡ failed → ⊥)
    × (validate_syscall_names lib k_allowlist_baseline ≡ none)

module _ (lib : Libseccomp) (works : Works lib) where
  add_rule-of :
      (sc : ℕ) (rules : List ℕ) (a : Added)
      → lib.rule_add sc ≡ a
      → (more : List ℕ) × (add_rule lib sc rules ≡ some more)
  unfolding add_rule
  add_rule-of sc rules added e = (rules ++ sc ∷ [], ground arith)
  add_rule-of sc rules edom e = (rules, ground arith)
  add_rule-of sc rules enosys e = (rules, ground arith)
  add_rule-of sc rules eopnotsupp e = (rules, ground arith)
  add_rule-of sc rules failed e = absurd (works.2 sc e)

  validate_syscall_names-cons :
      (name : Text) (names : List Text)
      → validate_syscall_names lib (name ∷ names) ≡ none
      → ((sc : ℕ) × (lib.resolve_name name ≡ some sc)) × (validate_syscall_names lib names ≡ none)
  unfolding validate_syscall_names
  validate_syscall_names-cons name names e = elim (Bool-cases (is_empty name)) [
    | inl empty ↦ absurd (ground arith)
    | inr named ↦ elim (Option-cases (lib.resolve_name name)) [
      | inl unknown ↦ absurd (ground arith)
      | inr (sc, known) ↦ ((sc, known), ground arith)
    ]
  ]

  add_allow_rules-some :
      (names : List Text) (rules : List ℕ)
      → validate_syscall_names lib names ≡ none
      → (more : List ℕ) × (add_allow_rules lib names rules ≡ some more)
  unfolding add_allow_rules add_allow_rule
  add_allow_rules-some [] rules e = (rules, refl)
  add_allow_rules-some (name ∷ names) rules e =
      let ((sc, known), later) = validate_syscall_names-cons name names e in
      let (next, here) = add_rule-of sc rules (lib.rule_add sc) refl in
      let (more, rest) = add_allow_rules-some names next later in (more, ground arith)

  add_kill_rules-some :
      (names : List Text) (rules : List ℕ)
      → (more : List ℕ) × (add_kill_rules lib names rules ≡ some more)
  unfolding add_kill_rules
  add_kill_rules-some [] rules = (rules, refl)
  add_kill_rules-some (name ∷ names) rules =
      let (next, here) =
        add_rule-of (lib.scmp_sys name) rules (lib.rule_add (lib.scmp_sys name)) refl in
      let (more, rest) = add_kill_rules-some names next in (more, ground arith)

  -- The frame that both filters share: the library is initialized, the rules are made and loaded.
  loads :
      (default_allow : Bool) (made : Option (List ℕ)) (rules : List ℕ)
      → made ≡ some rules
      → (if not lib.init_ok then unexpected 126 else load_filter lib default_allow made)
        ≡ value (record { default_allow = default_allow; rules = rules })
  unfolding load_filter
  loads default_allow none rules e = absurd (ground arith)
  loads default_allow (some all_rules) rules e =
      let same : all_rules ≡ rules = ground arith in ground (arith, works.0, works.1)

  add_allowlist-some :
      (extra_syscalls : List Text)
      → validate_syscall_names lib extra_syscalls ≡ none
      → (rules : List ℕ) × (add_allowlist lib extra_syscalls ≡ some rules)
  unfolding add_allowlist
  add_allowlist-some extra_syscalls e =
      go (add_allow_rules lib k_allowlist_baseline [])
        (add_allow_rules-some k_allowlist_baseline [] works.3)
    where
      go :
          (made : Option (List ℕ))
          → (base : List ℕ) × (made ≡ some base)
          → (rules : List ℕ) × ((elim made [
            | none ↦ none
            | some next ↦ add_allow_rules lib extra_syscalls next
          ])
              ≡ some rules)
      go none (base, is) = absurd (ground arith)
      go (some next) is = add_allow_rules-some extra_syscalls next e

  pub apply_seccomp_blacklist-loads :
      (filter : Filter) × (apply_seccomp_blacklist lib ≡ value filter)
  unfolding apply_seccomp_blacklist
  apply_seccomp_blacklist-loads =
      let (rules, added_all) = add_kill_rules-some k_blacklist [] in
      (
        record { default_allow = true; rules = rules },
        loads true (add_kill_rules lib k_blacklist []) rules added_all,
      )

  -- Names that `validate_syscall_names` accepts are allowed without an error.
  pub apply_seccomp_allowlist-loads :
      (extra_syscalls : List Text)
      → validate_syscall_names lib extra_syscalls ≡ none
      → (filter : Filter) × (apply_seccomp_allowlist lib extra_syscalls ≡ value filter)
  unfolding apply_seccomp_allowlist
  apply_seccomp_allowlist-loads extra_syscalls e =
      let (rules, added_all) = add_allowlist-some extra_syscalls e in
      (
        record { default_allow = false; rules = rules },
        loads false (add_allowlist lib extra_syscalls) rules added_all,
      )
