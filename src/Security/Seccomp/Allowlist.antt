-- ===== src/Security/Seccomp/Allowlist.antt =====
-- `applySeccompAllowlist` of src/security.cpp: the syscalls that the loaded filter allows.
use voix.Base.{
  ℕ, ◌≡◌, ◌↔◌, refl, sym, false, some, List, [], ◌∷◌, ◌++◌, Text, In, arith, inl, inr, ◌⊎◌,
  Option-cases,
}
use voix.Files.{value}
use voix.Security.Seccomp.{
  Added, added, edom, enosys, eopnotsupp, failed, Libseccomp, Filter, k_allowlist_baseline,
  add_rule, add_allow_rule, add_allow_rules, add_allowlist, load_filter, apply_seccomp_allowlist,
}

module _ (lib : Libseccomp) where
  -- A syscall of this number is named in the list, and the architecture has it.
  abbrev pub Named : ℕ → List Text → Type 0
  Named sc names =
      (name : Text) × In name names × (lib.resolve_name name ≡ some sc) × (lib.rule_add sc ≡ added)

  Added-cases :
      (a : Added) → (a ≡ added) ⊎ (a ≡ failed) ⊎ ((a ≡ edom) ⊎ (a ≡ enosys) ⊎ (a ≡ eopnotsupp))
  Added-cases added = inl refl
  Added-cases failed = inr (inl refl)
  Added-cases edom = inr (inr (inl refl))
  Added-cases enosys = inr (inr (inr (inl refl)))
  Added-cases eopnotsupp = inr (inr (inr (inr refl)))

  In-snoc : (xs : List ℕ) (x y : ℕ) → In y (xs ++ x ∷ []) ↔ (In y xs ⊎ (y ≡ x))
  In-snoc [] x y = (
    λ h. elim h [ inl e ↦ inr e | inr f ↦ absurd f ],
    λ h. elim h [ inl f ↦ absurd f | inr e ↦ inl e ],
  )
  In-snoc (z ∷ xs) x y = (
    λ h. elim h [
      | inl e ↦ inl (inl e)
      | inr later ↦ elim ((In-snoc xs x y).0 later) [ inl i ↦ inl (inr i) | inr e ↦ inr e ]
    ],
    λ h. elim h [
      | inl i ↦ elim i [ inl e ↦ inl e | inr i' ↦ inr ((In-snoc xs x y).1 (inl i')) ]
      | inr e ↦ inr ((In-snoc xs x y).1 (inr e))
    ],
  )

  -- What one call of `seccomp_rule_add` does to the rules.
  add_rule-In :
      (s : ℕ) (rules more : List ℕ)
      → add_rule lib s rules ≡ some more
      → (sc : ℕ) → In sc more ↔ (In sc rules ⊎ ((sc ≡ s) × (lib.rule_add s ≡ added)))
  unfolding add_rule
  add_rule-In s rules more e sc = elim (Added-cases (lib.rule_add s)) [
    | inl is_added ↦
        let same : rules ++ s ∷ [] ≡ more = ground arith in
        rw (sym same) (
          λ h. elim ((In-snoc rules s sc).0 h) [ inl i ↦ inl i | inr eq ↦ inr (eq, is_added) ],
          λ h. elim h [
            | inl i ↦ (In-snoc rules s sc).1 (inl i)
            | inr both ↦ (In-snoc rules s sc).1 (inr both.0)
          ],
        )
    | inr (inl is_failed) ↦ absurd (ground arith)
    | inr (inr tolerated) ↦
        let not_added : (lib.rule_add s ≡ added) → ⊥ = λ a. ground arith in
        let same : rules ≡ more = ground arith in
        rw (sym same) (λ h. inl h, λ h. elim h [ inl i ↦ i | inr both ↦ absurd (not_added both.1) ])
  ]

  Named-In-cons :
      (sc s : ℕ) (name : Text) (names : List Text)
      → lib.resolve_name name ≡ some s
      → Named sc (name ∷ names) ↔ (((sc ≡ s) × (lib.rule_add s ≡ added)) ⊎ Named sc names)
  Named-In-cons sc s name names e = (
    λ (n, at_n, resolved, ok). elim at_n [
      | inl same ↦ let eq : sc ≡ s = ground arith in inl (eq, rw (sym eq) ok)
      | inr later ↦ inr (n, later, resolved, ok)
    ],
    λ h. elim h [
      | inl (eq, ok) ↦ (name, inl refl, rw eq e, rw eq ok)
      | inr (n, at_n, resolved, ok) ↦ (n, inr at_n, resolved, ok)
    ],
  )

  add_allow_rules-In :
      (names : List Text) (rules more : List ℕ)
      → add_allow_rules lib names rules ≡ some more
      → (sc : ℕ) → In sc more ↔ (In sc rules ⊎ Named sc names)
  unfolding add_allow_rules add_allow_rule
  add_allow_rules-In [] rules more e sc =
      let same : rules ≡ more = ground arith in
      rw (sym same) (λ h. inl h, λ h. elim h [ inl i ↦ i | inr (n, at_n, _, _) ↦ absurd at_n ])
  add_allow_rules-In (name ∷ names) rules more e sc = elim (Option-cases (lib.resolve_name name)) [
    | inl none_e ↦ absurd (ground arith)
    | inr (s, some_e) ↦ elim (Option-cases (add_rule lib s rules)) [
      | inl none_r ↦ absurd (ground arith)
      | inr (next, some_r) ↦
          let rest_e : add_allow_rules lib names next ≡ some more = ground arith in
          let rest = add_allow_rules-In names next more rest_e sc in
          let here = add_rule-In s rules next some_r sc in
          let named = Named-In-cons sc s name names some_e in
          (
            λ h. elim (rest.0 h) [
              | inl i ↦ elim (here.0 i) [ inl j ↦ inl j | inr eq ↦ inr (named.1 (inl eq)) ]
              | inr n ↦ inr (named.1 (inr n))
            ],
            λ h. elim h [
              | inl i ↦ rest.1 (inl (here.1 (inl i)))
              | inr n ↦ elim (named.0 n) [
                | inl eq ↦ rest.1 (inl (here.1 (inr eq)))
                | inr m ↦ rest.1 (inr m)
              ]
            ],
          )
    ]
  ]

  -- When the allowlist filter is loaded, its default is to kill, and it allows a syscall exactly if
  -- some name of the baseline or of the profile's list resolves to it and libseccomp added its rule.
  pub apply_seccomp_allowlist-rules :
      (extra_syscalls : List Text) (filter : Filter)
      → apply_seccomp_allowlist lib extra_syscalls ≡ value filter
      → (filter.default_allow ≡ false)
        × ((sc : ℕ)
            → In sc filter.rules ↔ (Named sc k_allowlist_baseline ⊎ Named sc extra_syscalls))
  unfolding apply_seccomp_allowlist add_allowlist load_filter
  apply_seccomp_allowlist-rules extra_syscalls filter e =
      elim (Option-cases (add_allow_rules lib k_allowlist_baseline [])) [
        | inl none_b ↦ absurd (ground arith)
        | inr (base, some_b) ↦ elim (Option-cases (add_allow_rules lib extra_syscalls base)) [
          | inl none_x ↦ absurd (ground arith)
          | inr (all_rules, some_x) ↦
              let same : record { default_allow = false; rules = all_rules } ≡ filter =
                ground arith in
              rw (sym same) (
                refl,
                λ sc.
                    let first = add_allow_rules-In k_allowlist_baseline [] base some_b sc in
                    let second = add_allow_rules-In extra_syscalls base all_rules some_x sc in
                    (
                      λ h. elim (second.0 h) [
                        | inl i ↦ elim (first.0 i) [
                          | inl none_yet ↦ absurd none_yet
                          | inr n ↦ inl n
                        ]
                        | inr n ↦ inr n
                      ],
                      λ h. elim h [
                        | inl n ↦ second.1 (inl (first.1 (inr n)))
                        | inr n ↦ second.1 (inr n)
                      ],
                    ),
              )
        ]
      ]
