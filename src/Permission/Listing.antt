-- ===== src/Permission/Listing.antt =====
-- `list_permitted_entries` of src/permission_checker.cpp against `permit`.
use voix.Base.{
  ℕ, ◌≡◌, refl, sym, ◌∙◌, ap, Bool, true, false, Option, none, some, List, [], ◌∷◌, ◌++◌, map, Text,
  All, In, arith, inl, inr, ◌⊎◌, Bool-cases, Option-cases,
}
use voix.Rule.{Rule, Action}
use voix.Config.{Config}
use voix.Files.{Kernel}
use voix.Identity.{Accounts, UserIdentity, get_user_by_name}
use voix.Permission.{
  Request, Scope, qualify, Entry, add_entry, identity_matches, normalize_scope, match_rule,
  entries_from, list_permitted_entries, list_permitted_rules, permit, current_user,
}
use voix.Permission.FirstMatch.{FirstMatch, here, later, matches, permit_iff}
use voix.Permission.Overlap.{scope_matches, NamesCommand, match_rule-normalize_scope}
use voix.Permission.Denials.{
  All-snoc, All-init, All-last, Clear, qualify-of_Clear, Clear-of_qualify,
}

module _ (k : Kernel) (accounts : Accounts) (config : Config) (uid : ℕ) (groups : List ℕ)
    (command : Text) (target : ℕ) (args : List Text) where
  abbrev m : Rule → Bool
  m rule = match_rule k accounts config rule uid groups command target args

  abbrev entries : List Scope → List Rule → List Entry
  entries = entries_from k accounts config uid groups

  abbrev Named : Rule → Type 0
  Named = NamesCommand k accounts config

  abbrev scope_of : Rule → Option Scope
  scope_of = normalize_scope k accounts config

  -- The parts of a match.
  in_scope_of_match :
      (rule : Rule)
      → Named rule
      → m rule ≡ true
      → (identity_matches rule uid groups ≡ true)
        × ((s : Scope) × (scope_of rule ≡ some s) × (scope_matches s command target args ≡ true))
  in_scope_of_match rule named h =
      let both =
        sym (match_rule-normalize_scope k accounts config rule uid groups command target args named)
        ∙ h in
      elim (Option-cases (scope_of rule)) [
        | inl e ↦ ground arith
        | inr (s, e) ↦ (ground arith, (s, e, ground arith))
      ]

  miss_of_scope :
      (rule : Rule) (s : Scope)
      → Named rule
      → m rule ≡ false
      → identity_matches rule uid groups ≡ true
      → scope_of rule ≡ some s
      → scope_matches s command target args ≡ false
  miss_of_scope rule s named h i e = ground (
    arith,
    match_rule-normalize_scope k accounts config rule uid groups command target args named,
  )

  In-add_entry :
      (r rule : Rule) (c : Option Bool) (es : List Entry)
      → In r (map (λ e. e.rule) es)
      → In r (map (λ e. e.rule) (add_entry rule c es))
  In-add_entry r rule none es h = h
  In-add_entry r rule (some c) es h = inr h

  module _ (denied : List Scope) (rule : Rule) (rules : List Rule) where
    entries-stranger :
        identity_matches rule uid groups ≡ false
        → entries denied (rule ∷ rules) ≡ entries denied rules
    unfolding entries_from
    entries-stranger i = rw i

    module _ (i : identity_matches rule uid groups ≡ true) where
      entries-unresolved :
          scope_of rule ≡ none → entries denied (rule ∷ rules) ≡ entries denied rules
      unfolding entries_from
      entries-unresolved e = rw (i, e)

      entries-deny :
          (s : Scope)
          → scope_of rule ≡ some s
          → rule.action ≡ Action.deny
          → entries denied (rule ∷ rules) ≡ entries (denied ++ s ∷ []) rules
      unfolding entries_from
      entries-deny s e a = rw (i, e, a)

      entries-permit :
          (s : Scope)
          → scope_of rule ≡ some s
          → rule.action ≡ Action.permit
          → entries denied (rule ∷ rules)
            ≡ add_entry rule (qualify denied s false) (entries denied rules)
      unfolding entries_from
      entries-permit s e a = ground arith

  Action-cases : (a : Action) → (a ≡ Action.permit) ⊎ (a ≡ Action.deny)
  Action-cases Action.permit = inl refl
  Action-cases Action.deny = inr refl

  abbrev rules_of : List Entry → List Rule
  rules_of = map (λ e. e.rule)

  -- The first match, where it is a permit, is listed.
  listed :
      {rules : List Rule} {r : Rule} (denied : List Scope)
      → FirstMatch m rules r
      → r.action ≡ Action.permit
      → All Named rules
      → Clear command target args denied
      → In r (rules_of (entries denied rules))
  listed denied (here {r} {rs} hit) allowed (named, _) clear =
      let (i, (s, e, inside)) = in_scope_of_match r named hit in
      let (c, q) = qualify-of_Clear command target args denied s false clear inside in
      rw (entries-permit denied r rs i s e allowed) (rw q (inl refl))
  listed denied (later {r} {s = found} {rs} miss f) allowed (named, all_named) clear =
      let rest = λ (d : List Scope). listed d f allowed all_named in
      elim (Bool-cases (identity_matches r uid groups)) [
        | inr i ↦ rw (entries-stranger denied r rs i) (rest denied clear)
        | inl i ↦ elim (Option-cases (scope_of r)) [
          | inl e ↦ rw (entries-unresolved denied r rs i e) (rest denied clear)
          | inr (s, e) ↦ elim (Action-cases r.action) [
            | inl a ↦
                rw (entries-permit denied r rs i s e a)
                  (In-add_entry found r _ _ (rest denied clear))
            | inr a ↦ rw (entries-deny denied r rs i s e a) (
                rest (denied ++ s ∷ [])
                  (All-snoc _ denied s clear (miss_of_scope r s named miss i e)))
          ]
        ]
      ]

  -- An entry of the extended list is the new one or an old one.
  In-added :
      {e : Entry} (rule : Rule) (c : Option Bool) (es : List Entry)
      → In e (add_entry rule c es)
      → ((e.rule ≡ rule) × (c ≡ some e.conditional)) ⊎ In e es
  In-added rule none es h = inr h
  In-added rule (some c) es (inl same) =
      inl (ap (λ x. x.rule) same, ap (λ x. some x.conditional) (sym same))
  In-added rule (some c) es (inr h) = inr h

  -- An entry without a condition that matches the request: no denial met before holds the request.
  entry-Clear :
      (denied : List Scope) (rules : List Rule) (e : Entry)
      → All Named rules
      → In e (entries denied rules)
      → e.conditional ≡ false
      → m e.rule ≡ true
      → Clear command target args denied
  entry-Clear denied [] e named h u hit = absurd (unfold entries_from in h)
  entry-Clear denied (r ∷ rs) e (named, all_named) h u hit =
      let rest = λ (d : List Scope). entry-Clear d rs e all_named in
      elim (Bool-cases (identity_matches r uid groups)) [
        | inr i ↦ rest denied (rw (entries-stranger denied r rs i) at h) u hit
        | inl i ↦ elim (Option-cases (scope_of r)) [
          | inl n ↦ rest denied (rw (entries-unresolved denied r rs i n) at h) u hit
          | inr (s, n) ↦ elim (Action-cases r.action) [
            | inr a ↦
                All-init _ denied s
                  (rest (denied ++ s ∷ []) (rw (entries-deny denied r rs i s n a) at h) u hit)
            | inl a ↦
                elim (In-added r (qualify denied s false) (entries denied rs)
                  (rw (entries-permit denied r rs i s n a) at h)) [
                    | inr later_entry ↦ rest denied later_entry u hit
                    | inl (same_rule, q) ↦
                        let (_, (s', n', inside)) =
                          in_scope_of_match r named (rw same_rule at hit) in
                        let same_scope : s ≡ s' = cc in
                        Clear-of_qualify command target args denied s (q ∙ ap some u)
                          (rw same_scope inside)
                  ]
          ]
        ]
      ]

  -- An entry without a condition that matches the request: the first match is a permit.
  granted :
      (denied : List Scope) (rules : List Rule) (e : Entry)
      → All Named rules
      → In e (entries denied rules)
      → e.conditional ≡ false
      → m e.rule ≡ true
      → (r : Rule) × FirstMatch m rules r × (r.action ≡ Action.permit)
  granted denied [] e named h u hit = absurd (unfold entries_from in h)
  granted denied (r ∷ rs) e (named, all_named) h u hit = elim (Bool-cases (m r)) [
    | inl match_r ↦
        let (i, (s, n, inside)) = in_scope_of_match r named match_r in
        elim (Action-cases r.action) [
          | inl allowed ↦ (r, here match_r, allowed)
          | inr a ↦
              let clear =
                entry-Clear (denied ++ s ∷ []) rs e all_named
                  (rw (entries-deny denied r rs i s n a) at h) u hit in
              cc (All-last _ denied s clear)
        ]
    | inr miss ↦
        let pass : (d : List Scope)
            → In e (entries d rs)
            → (g : Rule) × FirstMatch m (r ∷ rs) g × (g.action ≡ Action.permit) =
          λ d listed_later.
            let (g, f, allowed) = granted d rs e all_named listed_later u hit in
            (g, later miss f, allowed) in
        elim (Bool-cases (identity_matches r uid groups)) [
          | inr i ↦ pass denied (rw (entries-stranger denied r rs i) at h)
          | inl i ↦ elim (Option-cases (scope_of r)) [
            | inl n ↦ pass denied (rw (entries-unresolved denied r rs i n) at h)
            | inr (s, n) ↦ elim (Action-cases r.action) [
              | inr a ↦ pass (denied ++ s ∷ []) (rw (entries-deny denied r rs i s n a) at h)
              | inl a ↦
                  elim (In-added r (qualify denied s false) (entries denied rs)
                    (rw (entries-permit denied r rs i s n a) at h)) [
                      | inr later_entry ↦ pass denied later_entry
                      | inl (same_rule, q) ↦ cc
                    ]
            ]
          ]
        ]
  ]

module _ (k : Kernel) (accounts : Accounts) (config : Config) (identity : UserIdentity)
    (known : get_user_by_name accounts (current_user k accounts config) ≡ some identity)
    (named : All (NamesCommand k accounts config) config.rules) (request : Request) where
  list_permitted_entries_known :
      list_permitted_entries k accounts config
      ≡ entries_from k accounts config identity.uid identity.groups [] config.rules
  unfolding list_permitted_entries
  list_permitted_entries_known = rw (known, list_permitted_entries)

  list_permitted_rules_known :
      list_permitted_rules k accounts config
      ≡ map
          (λ e. e.rule)
          (entries_from k accounts config identity.uid identity.groups [] config.rules)
  unfolding list_permitted_rules
  list_permitted_rules_known = ap (map (λ e. e.rule)) list_permitted_entries_known

  -- Nothing usable is left out of the listing: a rule by which `permit` grants some request of the
  -- caller is among the rules that `list_permitted_rules` gives, as long as the user database knows
  -- the caller and no rule's command is resolved to the empty text.
  pub permit-In-list_permitted_rules :
      (r : Rule)
      → permit k accounts config request ≡ some r
      → In r (list_permitted_rules k accounts config)
  permit-In-list_permitted_rules r h =
      let (f, allowed) = (permit_iff k accounts config identity request r known).0 h in
      rw list_permitted_rules_known (
        listed k accounts config identity.uid identity.groups _ request.target_uid request.args [] f
          allowed named tt)

  -- Nothing listed without a condition is refused: a request that matches the rule of an entry whose
  -- `conditional` is false is granted by `permit`, under the same two conditions.
  pub list_permitted_entries-permit :
      (e : Entry)
      → In e (list_permitted_entries k accounts config)
      → e.conditional ≡ false
      → matches k accounts config identity request e.rule ≡ true
      → (r : Rule) × (permit k accounts config request ≡ some r)
  unfolding list_permitted_entries
  list_permitted_entries-permit e h u hit =
      let (r, f, allowed) =
        granted k accounts config identity.uid identity.groups _ request.target_uid request.args []
          config.rules e named (rw (known, list_permitted_entries) at h) u hit in
      (r, (permit_iff k accounts config identity request r known).1 (f, allowed))
