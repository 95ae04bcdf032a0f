-- ===== src/Tests/Policy.antt =====
-- The theorems of the policy and of the patterns at concrete values.
use voix.Base.{
  suc, ◌≡◌, ◌↔◌, refl, ◌&&◌, true, false, some, [], ◌∷◌, Text, codes, In, inl, list_beq, length,
}
use voix.Rule
use voix.Rule.{Rule}
use voix.Identity.{get_user_by_name, get_current_username}
use voix.Rule
use voix.Permission.{
  Scope, Coverage, permit, permit_from, match_rule, rule_target_uid, identity_matches,
  canonical_command_for_match, current_user, list_permitted_entries, list_permitted_rules,
  entries_from, scope_coverage, normalize_scope, qualify, resolve_variables, resolve_loop, Entry,
}
use voix.Permission.FirstMatch.{FirstMatch, matches, permit_iff}
use voix.Permission.Overlap.{
  scope_matches, scope_coverage_full, scope_coverage_uncovered, NamesCommand,
  match_rule-normalize_scope, in_scope,
}
use voix.Permission.Listing.{permit-In-list_permitted_rules, list_permitted_entries-permit}
use voix.Permission.Variables.{resolve_variables-expand, expand}
use voix.Tests.Values.{kernel, accounts, config, request, ann_identity, permit_ls, deny_passwd}

known : get_user_by_name accounts (current_user kernel accounts config) ≡ some ann_identity
unfolding get_user_by_name get_current_username codes list_beq
known = refl

granted : permit kernel accounts config request ≡ some permit_ls
unfolding permit permit_from match_rule codes list_beq get_user_by_name get_current_username
    identity_matches rule_target_uid canonical_command_for_match resolve_variables
granted = refl

permit_iff_example : (permit kernel accounts config request ≡ some permit_ls) ↔ (
    FirstMatch
      (matches kernel accounts config ann_identity request)
      (deny_passwd ∷ permit_ls ∷ [])
      permit_ls
    × (permit_ls.action ≡ Rule.permit))
permit_iff_example = permit_iff kernel accounts config ann_identity request permit_ls known

named_passwd : NamesCommand kernel accounts config deny_passwd
unfolding codes list_beq get_current_username canonical_command_for_match resolve_variables
named_passwd = refl

named_ls : NamesCommand kernel accounts config permit_ls
unfolding codes list_beq get_current_username canonical_command_for_match resolve_variables
named_ls = refl

permit-In-list_permitted_rules_example : In permit_ls (list_permitted_rules kernel accounts config)
permit-In-list_permitted_rules_example =
    permit-In-list_permitted_rules kernel accounts config ann_identity known
      (named_passwd, (named_ls, tt)) request permit_ls granted

abbrev ls_entry : Entry
ls_entry = record { rule = permit_ls; conditional = false }

ls_listed : In ls_entry (list_permitted_entries kernel accounts config)
unfolding list_permitted_entries entries_from codes list_beq get_user_by_name get_current_username
    identity_matches rule_target_uid canonical_command_for_match resolve_variables normalize_scope
    qualify scope_coverage
ls_listed = inl refl

ls_matches : matches kernel accounts config ann_identity request permit_ls ≡ true
unfolding match_rule codes list_beq get_user_by_name get_current_username identity_matches
    rule_target_uid canonical_command_for_match resolve_variables
ls_matches = refl

list_permitted_entries-permit_example :
    (r : Rule) × (permit kernel accounts config request ≡ some r)
list_permitted_entries-permit_example =
    list_permitted_entries-permit kernel accounts config ann_identity known
      (named_passwd, (named_ls, tt)) request ls_entry ls_listed refl ls_matches

match_rule-normalize_scope_example :
    match_rule kernel accounts config permit_ls 1000 (100 ∷ []) (codes "/bin/ls") 0 [] ≡ (
      identity_matches permit_ls 1000 (100 ∷ [])
      && in_scope kernel accounts config
          (normalize_scope kernel accounts config permit_ls)
          (codes "/bin/ls")
          0
          [])
match_rule-normalize_scope_example =
    match_rule-normalize_scope kernel accounts config permit_ls 1000 (100 ∷ []) (codes "/bin/ls") 0
      [] named_ls

abbrev scope : Text → Scope
scope command = record { target_uid = 0; command = command; args = []; pattern_args = false }

covered : scope_coverage (scope []) (scope (codes "/bin/ls")) ≡ Coverage.full
unfolding scope_coverage codes list_beq
covered = refl

in_ls : scope_matches (scope (codes "/bin/ls")) (codes "/bin/ls") 0 (codes "-l" ∷ []) ≡ true
unfolding scope_matches codes list_beq
in_ls = refl

scope_coverage_full_example : scope_matches (scope []) (codes "/bin/ls") 0 (codes "-l" ∷ []) ≡ true
scope_coverage_full_example =
    scope_coverage_full (scope []) (scope (codes "/bin/ls")) (codes "/bin/ls") 0 (codes "-l" ∷ [])
      covered in_ls

apart : scope_coverage (scope (codes "/bin/ls")) (scope (codes "/bin/cat")) ≡ Coverage.uncovered
unfolding scope_coverage codes list_beq
apart = refl

scope_coverage_uncovered_example :
    scope_matches (scope (codes "/bin/cat")) (codes "/bin/ls") 0 (codes "-l" ∷ []) ≡ false
scope_coverage_uncovered_example =
    scope_coverage_uncovered (scope (codes "/bin/ls")) (scope (codes "/bin/cat")) (codes "/bin/ls")
      0 (codes "-l" ∷ []) apart in_ls

resolve_variables-expand_example :
    (resolve_loop (suc (length (codes "/home/%u/x"))) (codes "ann") (codes "/home/%u/x") 0
      ≡ some (expand (codes "ann") (codes "/home/%u/x")))
    × (resolve_variables (codes "ann") (codes "/home/%u/x")
        ≡ expand (codes "ann") (codes "/home/%u/x"))
resolve_variables-expand_example = resolve_variables-expand (codes "ann") (codes "/home/%u/x")
