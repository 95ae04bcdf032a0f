-- ===== src/Permission/FirstMatch.antt =====
-- `permit` of src/permission_checker.cpp against the first match of a list.
use voix.Base.{
  ℕ, ◌≡◌, ◌↔◌, Bool, true, false, some, List, [], ◌∷◌, Text, arith, inl, inr, Bool-cases,
}
use voix.Rule.{Rule, Action}
use voix.Config.{Config}
use voix.Files.{Kernel}
use voix.Identity.{Accounts, UserIdentity, get_user_by_name}
use voix.Permission.{Request, match_rule, permit_from, permit, canonical, current_user}

-- The first rule of a list that passes a test.
pub data FirstMatch (m : Rule → Bool) : List Rule → Rule → Type 0 where
  here : {r : Rule} {rs : List Rule} → m r ≡ true → FirstMatch m (r ∷ rs) r
  later : {r s : Rule} {rs : List Rule} → m r ≡ false → FirstMatch m rs s → FirstMatch m (r ∷ rs) s

pub FirstMatch-true : {m : Rule → Bool} {rs : List Rule} {r : Rule} → FirstMatch m rs r → m r ≡ true
FirstMatch-true (here h) = h
FirstMatch-true (later h f) = FirstMatch-true f

module _ (k : Kernel) (accounts : Accounts) (config : Config) where
  -- Whether a rule matches the request of a caller with this identity.
  abbrev pub matches : UserIdentity → Request → Rule → Bool
  matches identity request rule =
      match_rule k accounts config rule identity.uid identity.groups
        (canonical k accounts config request.command) request.target_uid request.args

  module _ (uid : ℕ) (groups : List ℕ) (command : Text) (target : ℕ) (args : List Text) where
    abbrev m : Rule → Bool
    m rule = match_rule k accounts config rule uid groups command target args

    permit_from_sound :
        (rules : List Rule) (r : Rule)
        → permit_from k accounts config uid groups command target args rules ≡ some r
        → FirstMatch m rules r × (r.action ≡ Action.permit)
    unfolding permit_from
    permit_from_sound [] r h = cc
    permit_from_sound (s ∷ rules) r h = elim (Bool-cases (m s)) [
      | inr miss ↦
          let (f, allowed) = permit_from_sound rules r (ground arith) in (later miss f, allowed)
      | inl hit ↦ first hit (ground arith) (ground arith)
    ]
      where
        first :
            m s ≡ true
            → s ≡ r
            → s.action ≡ Action.permit
            → FirstMatch m (s ∷ rules) r × (r.action ≡ Action.permit)
        first hit e allowed = rw (← e) (here hit, allowed)

    permit_from_complete :
        {rules : List Rule} {r : Rule}
        → FirstMatch m rules r
        → r.action ≡ Action.permit
        → permit_from k accounts config uid groups command target args rules ≡ some r
    unfolding permit_from
    permit_from_complete (here h) allowed = ground arith
    permit_from_complete (later h f) allowed = rw h (permit_from_complete f allowed)

  -- For a caller known to the user database, `permit` grants a rule exactly when that rule is the
  -- first of the configuration that matches the request, and its action is to permit.
  pub permit_iff :
      (identity : UserIdentity) (request : Request) (r : Rule)
      → get_user_by_name accounts (current_user k accounts config) ≡ some identity
      → (permit k accounts config request ≡ some r)
        ↔ (FirstMatch (matches identity request) config.rules r × (r.action ≡ Action.permit))
  unfolding permit
  permit_iff identity request r known = (
    λ h.
        permit_from_sound identity.uid identity.groups _ request.target_uid request.args
          config.rules r (rw (known, permit) at h),
    λ h.
        rw (known, permit)
          (permit_from_complete identity.uid identity.groups _ request.target_uid request.args h.0
            h.1),
  )
