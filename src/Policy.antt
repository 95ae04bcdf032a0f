-- ===== src/Policy.antt =====
-- src/policy_analyzer.cpp: the warnings of `--check-config` on a configuration.
pub mod Clean
use voix.Base.{
  ℕ, ◌+◌, Bool, true, false, ◌&&◌, List, [], ◌∷◌, ◌++◌, Text, codes, is_empty, ◌==◌, nat_eq,
  list_eq, if◌then◌else◌,
}
use voix.Rule
use voix.Rule.{Rule, Action}
use voix.Config.{Config}

pub data Severity : Type 0 where
  warning error : Severity

-- The messages, by the call that makes each.
pub data Message : Type 0 where
  no_rules root_unconfined no_blocklist : Message
  redundant_rules : ℕ → ℕ → Message
  permits_all : Text → Message

pub record PolicyFinding : Type 0 where
  pub severity : Severity
  pub message : Message

abbrev pub warn : Message → PolicyFinding
warn message = record { severity = warning; message = message }

-- `==` on actions.
abbrev pub is_permit : Action → Bool
is_permit Rule.permit = true
is_permit Rule.deny = false

abbrev pub same_action : Action → Action → Bool
same_action Rule.permit b = is_permit b
same_action Rule.deny b = if is_permit b then false else true

unfoldable pub check_empty_acl : Config → List PolicyFinding
check_empty_acl c = if is_empty c.rules then warn no_rules ∷ [] else []

unfoldable pub root_targets : List Text → List PolicyFinding
root_targets [] = []
root_targets (target ∷ targets) =
    let rest = root_targets targets in
    if target == codes "root" then warn root_unconfined ∷ rest else rest

unfoldable pub check_unconfined_targets : Config → List PolicyFinding
unfolding root_targets
check_unconfined_targets c = root_targets c.unconfined_targets

-- The test on two rules.
unfoldable pub looks_redundant : Rule → Rule → Bool
looks_redundant a b =
    a.ident == b.ident && a.cmd == b.cmd && same_action a.action b.action && a.target == b.target

-- The inner loop, from position `j` on.
unfoldable pub redundant_with : ℕ → Rule → ℕ → List Rule → List PolicyFinding
unfolding looks_redundant
redundant_with i rule j [] = []
redundant_with i rule j (other ∷ rules) =
    let rest = redundant_with i rule (j + 1) rules in
    if looks_redundant rule other then warn (redundant_rules (i + 1) (j + 1)) ∷ rest else rest

-- The outer loop, from position `i` on.
unfoldable pub redundant_from : ℕ → List Rule → List PolicyFinding
redundant_from i [] = []
redundant_from i (rule ∷ rules) =
    redundant_with i rule (i + 1) rules ++ redundant_from (i + 1) rules

unfoldable pub check_redundant_rules : Config → List PolicyFinding
unfolding redundant_from
check_redundant_rules c = redundant_from 0 c.rules

unfoldable pub open_rules : List Rule → List PolicyFinding
open_rules [] = []
open_rules (rule ∷ rules) =
    let rest = open_rules rules in
    if is_permit rule.action && is_empty rule.cmd
    then warn (permits_all rule.ident) ∷ rest
    else rest

unfoldable pub check_open_permissions : Config → List PolicyFinding
unfolding open_rules
check_open_permissions c = open_rules c.rules

unfoldable pub check_blocklist_coverage : Config → List PolicyFinding
check_blocklist_coverage c =
    if is_empty c.blocklist && is_empty c.regex_blocklist then warn no_blocklist ∷ [] else []

-- `analyze`; `check_referenced_profiles` is empty.
unfoldable pub analyze : Config → List PolicyFinding
analyze c =
    check_empty_acl c
    ++ (check_unconfined_targets c
        ++ (check_redundant_rules c ++ (check_open_permissions c ++ check_blocklist_coverage c)))
