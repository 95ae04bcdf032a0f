-- ===== src/Permission/Overlap.antt =====
-- The scopes by which `list_permitted_entries` of src/permission_checker.cpp compares rules, against
-- what `matchRule` tests.
use voix.Base.{
  ℕ, ◌≡◌, refl, sym, ap, ◌∙◌, Bool, true, false, not, ◌&&◌, ◌||◌, Option, none, some, List, [], ◌∷◌,
  map, Text, arith, all_pairs, is_empty, length, ◌==◌, nat_eq, list_eq, list_beq_iff,
}
use voix.Rule.{Rule}
use voix.Config.{Config}
use voix.Files.{Kernel}
use voix.Identity.{Accounts}
use voix.Patterns.{match_pattern}
use voix.Patterns.Laws.{Glob, done, skip, take_one, question, same, match_pattern_iff}
use voix.Permission.{
  has_glob, identity_matches, Scope, uncovered, full, may_overlap, args_coverage, scope_coverage,
  match_args, match_rule, normalize_scope, canonical, resolve,
}

abbrev pub args_match : Bool → List Text → List Text → Bool
args_match true scope args = all_pairs match_pattern scope args
args_match false scope args = all_pairs (λ p a. p == a) scope args

-- A request falls into a scope.
unfoldable pub scope_matches : Scope → Text → ℕ → List Text → Bool
scope_matches s command target args =
    s.target_uid == target
    && (is_empty s.command
        || (s.command == command && (is_empty s.args || args_match s.pattern_args s.args args)))

all_pairs-map :
    (f : Text → Text → Bool) (g : Text → Text) (xs ys : List Text)
    → all_pairs f (map g xs) ys ≡ all_pairs (λ p a. f (g p) a) xs ys
all_pairs-map f g [] [] = refl
all_pairs-map f g [] (y ∷ ys) = refl
all_pairs-map f g (x ∷ xs) [] = refl
all_pairs-map f g (x ∷ xs) (y ∷ ys) = ap (λ b. f (g x) y && b) (all_pairs-map f g xs ys)

all_pairs_eq : (xs ys : List Text) → all_pairs (λ p a. p == a) xs ys ≡ true → xs ≡ ys
all_pairs_eq [] [] h = refl
all_pairs_eq [] (y ∷ ys) h = cc
all_pairs_eq (x ∷ xs) [] h = cc
all_pairs_eq (x ∷ xs) (y ∷ ys) h = ground (arith, list_beq_iff x y, all_pairs_eq xs ys)

all_pairs-flip :
    (f : Text → Text → Bool) (xs ys : List Text)
    → all_pairs (λ a b. f b a) xs ys ≡ all_pairs f ys xs
all_pairs-flip f [] [] = refl
all_pairs-flip f [] (y ∷ ys) = refl
all_pairs-flip f (x ∷ xs) [] = refl
all_pairs-flip f (x ∷ xs) (y ∷ ys) = ap (λ b. f y x && b) (all_pairs-flip f xs ys)

all_pairs-length :
    (f : Text → Text → Bool) (xs ys : List Text) → all_pairs f xs ys ≡ true → length xs ≡ length ys
all_pairs-length f [] [] h = refl
all_pairs-length f [] (y ∷ ys) h = cc
all_pairs-length f (x ∷ xs) [] h = cc
all_pairs-length f (x ∷ xs) (y ∷ ys) h = ground (arith, all_pairs-length f xs ys)

-- A pattern with no `*` and no `?` matches only itself.
Glob-literal : {p t : Text} → Glob p t → has_glob p ≡ false → t ≡ p
unfolding has_glob
Glob-literal done h = refl
Glob-literal (skip e g) h = ground arith
Glob-literal (take_one e d g) h = ground arith
Glob-literal (question e d g) h = ground arith
Glob-literal (same ns nq e g) h = let ih = Glob-literal g (ground arith) in ground arith

match_pattern-literal : (p t : Text) → has_glob p ≡ false → match_pattern p t ≡ true → t ≡ p
match_pattern-literal p t lit h = Glob-literal ((match_pattern_iff p t).0 h) lit

-- Two patterns that meet in a text are not told apart.
may_overlap_of_match :
    (d p x : Text) → match_pattern d x ≡ true → match_pattern p x ≡ true → may_overlap d p ≡ true
unfolding may_overlap
may_overlap_of_match d p x hd hp =
    ground (arith, match_pattern-literal d x, match_pattern-literal p x, list_beq_iff d p)

all_pairs-may_overlap :
    (d p args : List Text)
    → all_pairs match_pattern d args ≡ true
    → all_pairs match_pattern p args ≡ true
    → all_pairs may_overlap d p ≡ true
all_pairs-may_overlap [] [] [] hd hp = refl
all_pairs-may_overlap [] (p ∷ ps) [] hd hp = cc
all_pairs-may_overlap (d ∷ ds) ps [] hd hp = cc
all_pairs-may_overlap [] ps (x ∷ xs) hd hp = cc
all_pairs-may_overlap (d ∷ ds) [] (x ∷ xs) hd hp = cc
all_pairs-may_overlap (d ∷ ds) (p ∷ ps) (x ∷ xs) hd hp =
    ground (arith, may_overlap_of_match d p x, all_pairs-may_overlap ds ps xs)

args_coverage_full :
    (bd bp : Bool) (d p args : List Text)
    → args_coverage bd bp d p ≡ full
    → args_match bp p args ≡ true
    → args_match bd d args ≡ true
unfolding args_coverage
args_coverage_full false false d p args h m =
    let e : d ≡ p = ground (arith, list_beq_iff d p) in rw e m
args_coverage_full true false d p args h m = rw (← all_pairs_eq p args m) (ground arith)
args_coverage_full false true d p args h m = ground arith
args_coverage_full true true d p args h m =
    let e : d ≡ p = ground (arith, list_beq_iff d p) in rw e m

args_coverage_uncovered :
    (bd bp : Bool) (d p args : List Text)
    → args_coverage bd bp d p ≡ uncovered
    → args_match bd d args ≡ true
    → args_match bp p args ≡ true
    → ⊥
unfolding args_coverage
args_coverage_uncovered false false d p args h md mp =
    ground (arith, all_pairs_eq d args, all_pairs_eq p args, list_beq_iff d p)
args_coverage_uncovered true false d p args h md mp =
    let e = all_pairs_eq p args mp in
    let met : all_pairs match_pattern d p ≡ true = rw e md in ground arith
args_coverage_uncovered false true d p args h md mp =
    let e = all_pairs_eq d args md in
    let met : all_pairs (λ a b. match_pattern b a) d p ≡ true =
      rw e (all_pairs-flip match_pattern args p ∙ mp) in
    ground arith
args_coverage_uncovered true true d p args h md mp = ground (arith, all_pairs-may_overlap d p args)

args_match-length :
    (b : Bool) (scope args : List Text)
    → args_match b scope args ≡ true
    → length scope ≡ length args
args_match-length true scope args h = all_pairs-length match_pattern scope args h
args_match-length false scope args h = all_pairs-length (λ p a. p == a) scope args h

-- Where an earlier denial covers a permit fully, it matches every request that the permit matches.
pub scope_coverage_full :
    (deny permitted : Scope) (command : Text) (target : ℕ) (args : List Text)
    → scope_coverage deny permitted ≡ full
    → scope_matches permitted command target args ≡ true
    → scope_matches deny command target args ≡ true
unfolding scope_coverage scope_matches
scope_coverage_full deny permitted command target args h m = ground (
  arith,
  list_beq_iff deny.command permitted.command,
  list_beq_iff deny.command command,
  list_beq_iff permitted.command command,
  args_coverage_full deny.pattern_args permitted.pattern_args deny.args permitted.args args,
)

-- Where a denial does not cover a permit at all, no request falls under both.
pub scope_coverage_uncovered :
    (deny permitted : Scope) (command : Text) (target : ℕ) (args : List Text)
    → scope_coverage deny permitted ≡ uncovered
    → scope_matches deny command target args ≡ true
    → scope_matches permitted command target args ≡ false
unfolding scope_coverage scope_matches
scope_coverage_uncovered deny permitted command target args h m = ground (
  arith,
  list_beq_iff deny.command permitted.command,
  list_beq_iff deny.command command,
  list_beq_iff permitted.command command,
  args_match-length deny.pattern_args deny.args args,
  args_match-length permitted.pattern_args permitted.args args,
  args_coverage_uncovered deny.pattern_args permitted.pattern_args deny.args permitted.args args,
)

module _ (k : Kernel) (accounts : Accounts) (config : Config) where
  -- A command that the rule names is not resolved to the empty text.
  abbrev pub NamesCommand : Rule → Type 0
  NamesCommand rule =
      (is_empty rule.cmd
        || not (is_empty (canonical k accounts config (resolve k accounts config rule.cmd))))
      ≡ true

  match_args-map :
      (b : Bool) (cmdargs args : List Text)
      → match_args k accounts config b cmdargs args
        ≡ args_match b (map (resolve k accounts config) cmdargs) args
  unfolding match_args
  match_args-map true cmdargs args = sym (all_pairs-map match_pattern _ cmdargs args)
  match_args-map false cmdargs args = sym (all_pairs-map (λ p a. p == a) _ cmdargs args)

  is_empty-map : (f : Text → Text) (xs : List Text) → is_empty (map f xs) ≡ is_empty xs
  is_empty-map f [] = refl
  is_empty-map f (x ∷ xs) = refl

  abbrev pub in_scope : Option Scope → Text → ℕ → List Text → Bool
  in_scope none command target args = false
  in_scope (some s) command target args = scope_matches s command target args

  -- Normalizing a rule keeps its meaning: the rule matches a request exactly when the caller is the
  -- one that it names and the request falls into the rule's scope, as long as the rule's command,
  -- where it has one, is not resolved to the empty text.
  pub match_rule-normalize_scope :
      (rule : Rule) (uid : ℕ) (groups : List ℕ) (command : Text) (target : ℕ) (args : List Text)
      → NamesCommand rule
      → match_rule k accounts config rule uid groups command target args ≡ (
          identity_matches rule uid groups
          && in_scope (normalize_scope k accounts config rule) command target args)
  unfolding match_rule normalize_scope scope_matches
  match_rule-normalize_scope rule uid groups command target args named = ground (
    arith,
    match_args-map rule.options.pattern_args rule.cmdargs args,
    is_empty-map (resolve k accounts config) rule.cmdargs,
  )

  module _ (deny rule : Rule) {scope denied : Scope}
      (d : normalize_scope k accounts config deny ≡ some denied)
      (r : normalize_scope k accounts config rule ≡ some scope) where
    -- The test of the loop, read as a statement about requests.
    pub covers_full :
        (uid : ℕ) (groups : List ℕ) (command : Text) (target : ℕ) (args : List Text)
        → NamesCommand deny
        → NamesCommand rule
        → identity_matches deny uid groups ≡ true
        → scope_coverage denied scope ≡ full
        → match_rule k accounts config rule uid groups command target args ≡ true
        → match_rule k accounts config deny uid groups command target args ≡ true
    covers_full uid groups command target args nd nr i h m = ground (
      arith,
      match_rule-normalize_scope deny uid groups command target args nd,
      match_rule-normalize_scope rule uid groups command target args nr,
      scope_coverage_full denied scope command target args h,
    )

    pub covers_nothing :
        (uid : ℕ) (groups : List ℕ) (command : Text) (target : ℕ) (args : List Text)
        → NamesCommand deny
        → NamesCommand rule
        → scope_coverage denied scope ≡ uncovered
        → match_rule k accounts config rule uid groups command target args ≡ true
        → match_rule k accounts config deny uid groups command target args ≡ false
    covers_nothing uid groups command target args nd nr h m = ground (
      arith,
      match_rule-normalize_scope deny uid groups command target args nd,
      match_rule-normalize_scope rule uid groups command target args nr,
      scope_coverage_uncovered denied scope command target args h,
    )
