-- ===== src/Policy/Clean.antt =====
-- src/policy_analyzer.cpp: the configurations on which the analyzer has nothing to say.
use voix.Base.{
  ℕ, ◌+◌, ◌≡◌, ◌↔◌, refl, Bool, false, ◌&&◌, List, [], ◌∷◌, ◌++◌, Text, codes, is_empty, All, ◌==◌,
  nat_eq, list_eq, contains, arith, inl, inr, Bool-cases, if◌then◌else◌,
}
use voix.Rule.{Rule}
use voix.Config.{Config}
use voix.Policy.{
  PolicyFinding, is_permit, check_empty_acl, root_targets, check_unconfined_targets,
  looks_redundant, redundant_with, redundant_from, check_redundant_rules, open_rules,
  check_open_permissions, check_blocklist_coverage, analyze,
}

-- Every rule before another relates to it.
abbrev pub AllPairs : (Rule → Rule → Type 0) → List Rule → Type 0
AllPairs R [] = Unit
AllPairs R (rule ∷ rules) = All (R rule) rules × AllPairs R rules

-- There is a rule and an entry of a blocklist, root is confined, no two rules look alike, and every
-- rule that permits names a command.
abbrev pub IsClean : Config → Type 0
IsClean c =
    (is_empty c.rules ≡ false)
    × ((contains c.unconfined_targets (codes "root") ≡ false)
        × (AllPairs (λ a b. looks_redundant a b ≡ false) c.rules
            × (All (λ rule. (is_permit rule.action && is_empty rule.cmd) ≡ false) c.rules
                × ((is_empty c.blocklist && is_empty c.regex_blocklist) ≡ false))))

append-empty :
    {P Q : Type 0} (xs ys : List PolicyFinding)
    → (xs ≡ []) ↔ P
    → (ys ≡ []) ↔ Q
    → (xs ++ ys ≡ []) ↔ (P × Q)
append-empty [] ys first second = (λ e. (first.0 refl, second.0 e), λ h. second.1 h.1)
append-empty (x ∷ xs) ys first second =
    (λ e. absurd (ground arith), λ h. let none_yet = first.1 h.0 in absurd (ground arith))

root_targets-empty :
    (targets : List Text) → (root_targets targets ≡ []) ↔ (contains targets (codes "root") ≡ false)
unfolding root_targets contains
root_targets-empty [] = (λ e. refl, λ e. refl)
root_targets-empty (target ∷ targets) =
    let rest = root_targets-empty targets in
    elim (Bool-cases (target == codes "root")) [
      | inl is ↦ (λ e. absurd (ground arith), λ h. absurd (ground arith))
      | inr other ↦
          (λ e. ground (arith, rest.0 (ground arith)), λ h. ground (arith, rest.1 (ground arith)))
    ]

redundant_with-empty :
    (i : ℕ) (rule : Rule) (j : ℕ) (rules : List Rule)
    → (redundant_with i rule j rules ≡ []) ↔ All (λ b. looks_redundant rule b ≡ false) rules
unfolding redundant_with
redundant_with-empty i rule j [] = (λ e. tt, λ h. refl)
redundant_with-empty i rule j (other ∷ rules) =
    let rest = redundant_with-empty i rule (j + 1) rules in
    elim (Bool-cases (looks_redundant rule other)) [
      | inl is ↦ (λ e. absurd (ground arith), λ h. absurd (ground arith))
      | inr apart ↦
          (λ e. (apart, rest.0 (ground arith)), λ h. let later = rest.1 h.1 in ground arith)
    ]

redundant_from-empty :
    (i : ℕ) (rules : List Rule)
    → (redundant_from i rules ≡ []) ↔ AllPairs (λ a b. looks_redundant a b ≡ false) rules
unfolding redundant_from
redundant_from-empty i [] = (λ e. tt, λ h. refl)
redundant_from-empty i (rule ∷ rules) =
    append-empty (redundant_with i rule (i + 1) rules) (redundant_from (i + 1) rules)
      (redundant_with-empty i rule (i + 1) rules) (redundant_from-empty (i + 1) rules)

open_rules-empty :
    (rules : List Rule)
    → (open_rules rules ≡ [])
      ↔ All (λ rule. (is_permit rule.action && is_empty rule.cmd) ≡ false) rules
unfolding open_rules
open_rules-empty [] = (λ e. tt, λ h. refl)
open_rules-empty (rule ∷ rules) =
    let rest = open_rules-empty rules in
    elim (Bool-cases (is_permit rule.action && is_empty rule.cmd)) [
      | inl is ↦ (λ e. absurd (ground arith), λ h. absurd (ground arith))
      | inr fine ↦ (λ e. (fine, rest.0 (ground arith)), λ h. let later = rest.1 h.1 in ground arith)
    ]

flag-empty : (b : Bool) (x : PolicyFinding) → ((if b then x ∷ [] else []) ≡ []) ↔ (b ≡ false)
flag-empty b x = ground arith

-- The analyzer has no finding exactly if there is a rule, root is no unconfined target, no two rules
-- agree in identity, command, action and target, every rule that permits names a command, and some
-- blocklist has an entry.
pub analyze-IsClean : (c : Config) → (analyze c ≡ []) ↔ IsClean c
unfolding analyze check_empty_acl check_unconfined_targets check_redundant_rules
    check_open_permissions check_blocklist_coverage
analyze-IsClean c = append-empty (check_empty_acl c) _ (flag-empty (is_empty c.rules) _) (
    append-empty (check_unconfined_targets c) _ (root_targets-empty c.unconfined_targets) (
      append-empty (check_redundant_rules c) _ (redundant_from-empty 0 c.rules) (
        append-empty (check_open_permissions c) _ (open_rules-empty c.rules)
          (flag-empty (is_empty c.blocklist && is_empty c.regex_blocklist) _))))
