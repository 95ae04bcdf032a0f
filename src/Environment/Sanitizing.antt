-- ===== src/Environment/Sanitizing.antt =====
-- `sanitize_environment` of src/command.cpp: what it lets through.
use voix.Base.{
  ◌≡◌, ◌↔◌, refl, sym, ap, ◌∙◌, true, false, Option, none, some, List, [], ◌∷◌, Text, contains, All,
  In, nat_eq, list_eq, list_beq, list_beq_iff, arith, inl, inr, ◌⊎◌, Bool-cases, Option-cases,
}
use voix.Config.{SecurityProfile}
use voix.Environment.{
  CommandOptions, whitelist, is_dangerous, keeps, keep_pair, split_entry, preserves_sanitized,
  sanitize_environment,
}
use voix.Environment.Table.{Env}

-- No name of the whitelist is dangerous.
whitelist-harmless : All (λ key. is_dangerous key ≡ false) whitelist
unfolding is_dangerous list_beq
whitelist-harmless = (refl, (refl, (refl, (refl, (refl, tt)))))

contains-All :
    (P : Text → Type 0) (names : List Text) (key : Text)
    → All P names
    → contains names key ≡ true
    → P key
unfolding contains
contains-All P [] key h c = cc
contains-All P (name ∷ names) key (p, h) c = elim (Bool-cases (list_beq name key)) [
  | inl e ↦ rw (← (list_beq_iff name key).0 e) p
  | inr e ↦ contains-All P names key h (ground arith)
]

module _ (profile : SecurityProfile) (options : CommandOptions) where
  In-keep_pair :
      (o : Option (Text × Text)) (key v : Text) (env : Env)
      → In (key, v) (keep_pair profile options o env)
      → ((o ≡ some (key, v)) × (keeps profile options key ≡ true)) ⊎ In (key, v) env
  In-keep_pair none key v env h = inr h
  In-keep_pair (some (k, w)) key v env h = elim (Bool-cases (keeps profile options k)) [
    | inr gone ↦ inr (rw gone at h)
    | inl kept ↦ elim (rw kept at h) [
      | inl same ↦ inl (ap some (sym same), rw (ap (λ p. p.0) same) kept)
      | inr later ↦ inr later
    ]
  ]

  keep_pair-head :
      (o : Option (Text × Text)) (key v : Text) (env : Env)
      → o ≡ some (key, v)
      → keeps profile options key ≡ true
      → In (key, v) (keep_pair profile options o env)
  keep_pair-head o key v env e kept = rw e (rw kept (inl refl))

  keep_pair-tail :
      (o : Option (Text × Text)) (key v : Text) (env : Env)
      → In (key, v) env
      → In (key, v) (keep_pair profile options o env)
  keep_pair-tail none key v env h = h
  keep_pair-tail (some (k, w)) key v env h = elim (Bool-cases (keeps profile options k)) [
    | inl kept ↦ rw kept (inr h)
    | inr gone ↦ rw gone h
  ]

  -- A variable stands in the result exactly when an entry of the raw environment splits into it and
  -- its name is kept.
  pub In-sanitize_environment :
      (raw_env : List Text) (key v : Text)
      → In (key, v) (sanitize_environment profile options raw_env) ↔ (
          (entry : Text) × In entry raw_env
          × (split_entry entry ≡ some (key, v))
          × (keeps profile options key ≡ true))
  unfolding sanitize_environment
  In-sanitize_environment [] key v = (λ h. absurd h, λ h. absurd h.1)
  In-sanitize_environment (entry ∷ raw_env) key v = (
    λ h. elim (In-keep_pair (split_entry entry) key v _ h) [
      | inl (e, kept) ↦ (entry, inl refl, e, kept)
      | inr later ↦
          let (x, at, e, kept) = (In-sanitize_environment raw_env key v).0 later in
          (x, inr at, e, kept)
    ],
    λ h.
        let (x, at, e, kept) = h in
        elim at [
          | inl same ↦
              keep_pair-head (split_entry entry) key v _ (ap split_entry (sym same) ∙ e) kept
          | inr later ↦
              keep_pair-tail (split_entry entry) key v _
                ((In-sanitize_environment raw_env key v).1 (x, later, e, kept))
        ],
  )

  module _ (restricted : profile.preserve_full_environment ≡ false) where
    keeps-harmless : (key : Text) → keeps profile options key ≡ true → is_dangerous key ≡ false
    unfolding keeps
    keeps-harmless key h = elim (Bool-cases (preserves_sanitized profile options)) [
      | inl e ↦ ground arith
      | inr e ↦
          contains-All (λ k. is_dangerous k ≡ false) whitelist key whitelist-harmless (ground arith)
    ]

    keeps-whitelisted :
        (key : Text)
        → options.preserve_env ≡ false
        → profile.scrub_environment ≡ true
        → keeps profile options key ≡ true
        → contains whitelist key ≡ true
    unfolding keeps
    keeps-whitelisted key p s h = ground arith

    All-sanitize :
        (P : Text → Type 0) (raw_env : List Text)
        → ((key : Text) → keeps profile options key ≡ true → P key)
        → All (λ e. P e.0) (sanitize_environment profile options raw_env)
    unfolding sanitize_environment
    All-sanitize P [] h = tt
    All-sanitize P (entry ∷ raw_env) h = elim (Option-cases (split_entry entry)) [
      | inl e ↦ rw e (All-sanitize P raw_env h)
      | inr ((key, v), e) ↦ elim (Bool-cases (keeps profile options key)) [
        | inl kept ↦ rw e (rw kept (h key kept, All-sanitize P raw_env h))
        | inr gone ↦ rw e (rw gone (All-sanitize P raw_env h))
      ]
    ]

    -- Unless the profile preserves the full environment, no variable with a dangerous name or prefix
    -- is left, whatever the environment and the options.
    pub sanitize_environment-harmless :
        (raw_env : List Text)
        → All (λ e. is_dangerous e.0 ≡ false) (sanitize_environment profile options raw_env)
    sanitize_environment-harmless raw_env =
        All-sanitize (λ key. is_dangerous key ≡ false) raw_env keeps-harmless

    -- Where the profile does not preserve the full environment and scrubs it, and the rule does not
    -- keep it, only names of the whitelist are left.
    pub sanitize_environment-whitelisted :
        options.preserve_env ≡ false
        → profile.scrub_environment ≡ true
        → (raw_env : List Text)
        → All (λ e. contains whitelist e.0 ≡ true) (sanitize_environment profile options raw_env)
    sanitize_environment-whitelisted p s raw_env =
        All-sanitize (λ key. contains whitelist key ≡ true) raw_env
          (λ key. keeps-whitelisted key p s)
