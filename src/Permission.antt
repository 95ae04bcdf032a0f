-- ===== src/Permission.antt =====
-- src/permission_checker.cpp: which rule decides a request. The checker reads the configuration,
-- the user database and the file system, which the section takes.
pub mod Variables
pub mod FirstMatch
pub mod Overlap
pub mod Denials
pub mod Listing
use voix.Base.{
  ℕ, zero, suc, ◌+◌, Bool, true, false, not, ◌&&◌, ◌||◌, Option, none, some, List, [], ◌∷◌, ◌++◌,
  map, Text, codes, contains, starts_with, is_empty, length, take, drop, any, all, all_pairs, ◌==◌,
  nat_eq, list_eq, if◌then◌else◌,
}
use voix.Rule
use voix.Rule.{Rule, Action}
use voix.Numbers.{parse_uid}
use voix.Patterns.{match_pattern}
use voix.Config.{Config, get_path}
use voix.Files.{Kernel, value, unexpected}
use voix.Files.Executables.{resolve_executable}
use voix.Identity.{Accounts, get_user_by_name, get_current_username}

-- `canonical_command_for_match`
unfoldable pub canonical_command_for_match : Kernel → Config → Text → Text
unfolding resolve_executable get_path
canonical_command_for_match k config command =
    elim (resolve_executable k 0 command (get_path config)) [
      | value info ↦ info.policy_path
      | unexpected e ↦ command
    ]

unfoldable pub rule_target_uid : Rule → Option ℕ
unfolding parse_uid
rule_target_uid rule = elim rule.target_uid [
  | some uid ↦ some uid
  | none ↦ if is_empty rule.target then some 0 else parse_uid rule.target
]

-- `value.find_first_of("*?") != npos`
unfoldable pub has_glob : Text → Bool
has_glob = any (λ c. c == b'*' || c == b'?')

abbrev same_uid : Option ℕ → ℕ → Bool
same_uid none uid = false
same_uid (some rule_uid) uid = rule_uid == uid

unfoldable pub identity_matches : Rule → ℕ → List ℕ → Bool
unfolding parse_uid contains starts_with
identity_matches rule uid groups = elim rule.ident_uid [
  | some rule_uid ↦ rule_uid == uid
  | none ↦ elim rule.ident_gid [
    | some gid ↦ contains groups gid
    | none ↦
        if not (is_empty rule.ident)
        then if starts_with rule.ident (b'%' ∷ [])
          then false
          else same_uid (parse_uid rule.ident) uid
        else true
  ]
]

-- `resolved.find("%u", pos)`, counted from `pos`.
unfoldable pub find_variable : Text → Option ℕ
unfolding starts_with
find_variable [] = none
find_variable (c ∷ s) =
    if starts_with (c ∷ s) (b'%' ∷ b'u' ∷ [])
    then some 0
    else elim (find_variable s) [ none ↦ none | some n ↦ some (suc n) ]

-- The loop of `resolve_variables`; `none` where the fuel runs out.
unfoldable pub resolve_loop : ℕ → Text → Text → ℕ → Option Text
unfolding find_variable
resolve_loop zero user resolved pos = none
resolve_loop (suc fuel) user resolved pos = elim (find_variable (drop pos resolved)) [
  | none ↦ some resolved
  | some n ↦
      resolve_loop fuel user (take (pos + n) resolved ++ (user ++ drop (pos + n + 2) resolved))
        (pos + n + length user)
]

abbrev or_text : Option Text → Text → Text
or_text none s = s
or_text (some t) s = t

-- A variable takes two bytes, so that one round for each byte is more than enough.
unfoldable pub resolve_variables : Text → Text → Text
unfolding resolve_loop
resolve_variables user s = or_text (resolve_loop (suc (length s)) user s 0) s

-- What one invocation asks for.
pub record Request : Type 0 where
  pub command : Text
  pub args : List Text
  pub target_uid : ℕ

pub data Coverage : Type 0 where
  uncovered partial full : Coverage

-- `NormalizedRuleScope`; its target is known once `normalize_scope` has given it.
pub record Scope : Type 0 where
  pub target_uid : ℕ
  pub command : Text
  pub args : List Text
  pub pattern_args : Bool

-- `PermittedEntry`
pub record Entry : Type 0 where
  pub rule : Rule
  pub conditional : Bool

-- The last loop of `scope_coverage`: a position where a literal is not met shows that the two are
-- disjoint. `true` where none is found.
unfoldable pub may_overlap : Text → Text → Bool
may_overlap deny permitted =
    if not (has_glob deny) && not (has_glob permitted)
    then deny == permitted
    else if not (has_glob deny)
    then match_pattern permitted deny
    else if not (has_glob permitted)
    then match_pattern deny permitted
    else true

unfoldable pub args_coverage : Bool → Bool → List Text → List Text → Coverage
args_coverage false false deny permitted = if deny == permitted then full else uncovered
args_coverage true false deny permitted =
    if all_pairs match_pattern deny permitted then full else uncovered
args_coverage false true deny permitted =
    if all_pairs (λ d p. match_pattern p d) deny permitted then partial else uncovered
args_coverage true true deny permitted =
    if deny == permitted
    then full
    else if all_pairs may_overlap deny permitted
    then partial
    else uncovered

unfoldable pub scope_coverage : Scope → Scope → Coverage
scope_coverage deny permitted =
    if not (deny.target_uid == permitted.target_uid)
    then uncovered
    else if is_empty deny.command
    then full
    else if is_empty permitted.command
    then partial
    else if not (deny.command == permitted.command)
    then uncovered
    else if is_empty deny.args
    then full
    else if is_empty permitted.args
    then partial
    else if not (length deny.args == length permitted.args)
    then uncovered
    else args_coverage deny.pattern_args permitted.pattern_args deny.args permitted.args

-- The inner loop of `list_permitted_entries`: suppressed, and otherwise whether it is conditional.
unfoldable pub qualify : List Scope → Scope → Bool → Option Bool
qualify [] scope conditional = some conditional
qualify (deny ∷ denied) scope conditional = elim (scope_coverage deny scope) [
  | full ↦ none
  | partial ↦ qualify denied scope true
  | uncovered ↦ qualify denied scope conditional
]

abbrev pub add_entry : Rule → Option Bool → List Entry → List Entry
add_entry rule none entries = entries
add_entry rule (some c) entries = record { rule = rule; conditional = c } ∷ entries

module _ (k : Kernel) (accounts : Accounts) (config : Config) where
  abbrev pub current_user : Text
  current_user = get_current_username accounts

  abbrev pub canonical : Text → Text
  canonical = canonical_command_for_match k config

  abbrev pub resolve : Text → Text
  resolve = resolve_variables current_user

  -- The comparison of the arguments, by pattern or byte by byte.
  unfoldable pub match_args : Bool → List Text → List Text → Bool
  match_args true cmdargs args = all_pairs (λ p a. match_pattern (resolve p) a) cmdargs args
  match_args false cmdargs args = all_pairs (λ p a. resolve p == a) cmdargs args

  -- `matchRule`
  unfoldable pub match_rule : Rule → ℕ → List ℕ → Text → ℕ → List Text → Bool
  match_rule rule uid groups canonical_command target_uid args =
      if not (identity_matches rule uid groups)
      then false
      else if not (same_uid (rule_target_uid rule) target_uid)
      then false
      else if is_empty rule.cmd
      then true
      else if not (canonical (resolve rule.cmd) == canonical_command)
      then false
      else if is_empty rule.cmdargs
      then true
      else match_args rule.options.pattern_args rule.cmdargs args

  -- The loop over the rules: the first that matches decides.
  unfoldable pub permit_from : ℕ → List ℕ → Text → ℕ → List Text → List Rule → Option Rule
  permit_from uid groups canonical_command target_uid args [] = none
  permit_from uid groups canonical_command target_uid args (rule ∷ rules) =
      let rest = permit_from uid groups canonical_command target_uid args rules in
      if match_rule rule uid groups canonical_command target_uid args
      then elim rule.action [ Action.permit ↦ some rule | Action.deny ↦ none ]
      else rest

  unfoldable pub permit : Request → Option Rule
  permit request = elim (get_user_by_name accounts current_user) [
    | none ↦ none
    | some identity ↦
        permit_from identity.uid identity.groups (canonical request.command) request.target_uid
          request.args config.rules
  ]

  unfoldable pub normalize_scope : Rule → Option Scope
  normalize_scope rule = elim (rule_target_uid rule) [
    | none ↦ none
    | some target ↦ some (record {
      target_uid = target;
      command = if is_empty rule.cmd then [] else canonical (resolve rule.cmd);
      args = map resolve rule.cmdargs;
      pattern_args = rule.options.pattern_args;
    })
  ]

  -- The loop over the rules, with the denials met so far.
  unfoldable pub entries_from : ℕ → List ℕ → List Scope → List Rule → List Entry
  entries_from uid groups denied [] = []
  entries_from uid groups denied (rule ∷ rules) =
      let skipped = entries_from uid groups denied rules in
      if not (identity_matches rule uid groups) then skipped else elim (normalize_scope rule) [
        | none ↦ entries_from uid groups denied rules
        | some scope ↦ elim rule.action [
          | Action.deny ↦ entries_from uid groups (denied ++ scope ∷ []) rules
          | Action.permit ↦
              add_entry rule (qualify denied scope false) (entries_from uid groups denied rules)
        ]
      ]

  unfoldable pub list_permitted_entries : List Entry
  list_permitted_entries = elim (get_user_by_name accounts current_user) [
    | none ↦ []
    | some identity ↦ entries_from identity.uid identity.groups [] config.rules
  ]

  unfoldable pub list_permitted_rules : List Rule
  list_permitted_rules = map (λ e. e.rule) list_permitted_entries
