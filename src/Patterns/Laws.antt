-- ===== src/Patterns/Laws.antt =====
-- The regular expression that is built for a glob, and what it matches.
use mathlib.Core.List.{append_assoc}
use voix.Base.{
  ℕ, ◌≡◌, ◌≢◌, ◌↔◌, refl, ap, ◌∙◌, Bool, true, false, some, List, [], ◌∷◌, ◌++◌, Text, ◌==◌, nat_eq,
  if◌then◌else◌, arith, inl, inr, Bool-cases,
}
use native.Mathlib.Decide.{ℕ_discrete}
use voix.Patterns.{
  piece, regex_from, Node, bol, eol, any_char, any_star, lit, plain, dot, is_syntax, read,
  join_nodes, parse_regex, is_dot, star, match_nodes, match_pattern,
}

-- What a character of a glob stands for.
pub node : ℕ → Node
node c = if c == b'*' then any_star else if c == b'?' then any_char else lit c

abbrev pub nodes : Text → List Node
nodes [] = eol ∷ []
nodes (c ∷ p) = node c ∷ nodes p

-- What the loop appends for a pattern, with the closing `$`.
abbrev body : Text → Text
body [] = b'$' ∷ []
body (c ∷ p) = piece c ++ body p

regex_from-body : (acc p : Text) → regex_from acc p ≡ acc ++ body p
unfolding regex_from
regex_from-body acc [] = refl
regex_from-body acc (c ∷ p) =
    regex_from-body (acc ++ piece c) p ∙ append_assoc acc (piece c) (body p)

-- After a dot that is no `.*`, the text reads on as after nothing.
parse_regex-dot :
    (p : Text) → parse_regex dot (body p) ≡ join_nodes (any_char ∷ []) (parse_regex plain (body p))
unfolding parse_regex read piece is_syntax
parse_regex-dot [] = refl
parse_regex-dot (c ∷ p) = ground arith

parse_regex-body : (p : Text) → parse_regex plain (body p) ≡ some (nodes p)
unfolding parse_regex read piece is_syntax node
parse_regex-body [] = refl
parse_regex-body (c ∷ p) = ground (arith, parse_regex-body p, parse_regex-dot p)

parse_regex-bol : (p : Text) → parse_regex plain (b'^' ∷ body p) ≡ some (bol ∷ nodes p)
unfolding parse_regex read
parse_regex-bol p = ground (arith, parse_regex-body p)

-- The expression that is built is always well formed: no character of a pattern but `*` and `?`
-- keeps a meaning of its own, and the constructor of `std::regex` does not throw.
pub parse_regex-regex_from :
    (p : Text) → parse_regex plain (regex_from (b'^' ∷ []) p) ≡ some (bol ∷ nodes p)
unfolding regex_from
parse_regex-regex_from p =
    ap (parse_regex plain) (regex_from-body (b'^' ∷ []) p) ∙ parse_regex-bol p

-- A glob: `*` stands for any bytes and `?` for one, neither for a line terminator; any other
-- character stands for itself.
pub data Glob : Text → Text → Type 0 where
  done : Glob [] []
  skip : {c : ℕ} {p t : Text} → c ≡ b'*' → Glob p t → Glob (c ∷ p) t
  take_one :
      {c x : ℕ} {p t : Text} → c ≡ b'*' → is_dot x ≡ true → Glob (c ∷ p) t → Glob (c ∷ p) (x ∷ t)
  question : {c x : ℕ} {p t : Text} → c ≡ b'?' → is_dot x ≡ true → Glob p t → Glob (c ∷ p) (x ∷ t)
  same : {c x : ℕ} {p t : Text} → c ≢ b'*' → c ≢ b'?' → x ≡ c → Glob p t → Glob (c ∷ p) (x ∷ t)

node-star : (c : ℕ) → c ≡ b'*' → node c ≡ any_star
unfolding node
node-star c e = ground arith

node-question : (c : ℕ) → c ≡ b'?' → node c ≡ any_char
unfolding node
node-question c e = ground arith

node-lit : (c : ℕ) → c ≢ b'*' → c ≢ b'?' → node c ≡ lit c
unfolding node
node-lit c e q = ground arith

star_sound :
    (k : Bool → Text → Bool) (c : ℕ) (p : Text)
    → c ≡ b'*'
    → ((start : Bool) (t : Text) → k start t ≡ true → Glob p t)
    → (start : Bool) (t : Text) → star k start t ≡ true
    → Glob (c ∷ p) t
unfolding star
star_sound k c p e ih start [] h = skip e (ih start [] h)
star_sound k c p e ih start (x ∷ t) h = elim (Bool-cases (k start (x ∷ t))) [
  | inl here ↦ skip e (ih start (x ∷ t) here)
  | inr later ↦ take_one e (ground arith) (star_sound k c p e ih false t (ground arith))
]

star_here :
    (k : Bool → Text → Bool) (start : Bool) (t : Text) → k start t ≡ true → star k start t ≡ true
unfolding star
star_here k start [] h = h
star_here k start (x ∷ t) h = rw h

question_sound :
    (c : ℕ) (p : Text)
    → c ≡ b'?'
    → ((start : Bool) (t : Text) → match_nodes (nodes p) start t ≡ true → Glob p t)
    → (start : Bool) (t : Text) → match_nodes (any_char ∷ nodes p) start t ≡ true
    → Glob (c ∷ p) t
unfolding match_nodes
question_sound c p e ih start [] h = cc
question_sound c p e ih start (x ∷ t) h = question e (ground arith) (ih false t (ground arith))

lit_sound :
    (c : ℕ) (p : Text)
    → c ≢ b'*'
    → c ≢ b'?'
    → ((start : Bool) (t : Text) → match_nodes (nodes p) start t ≡ true → Glob p t)
    → (start : Bool) (t : Text) → match_nodes (lit c ∷ nodes p) start t ≡ true
    → Glob (c ∷ p) t
unfolding match_nodes
lit_sound c p ns nq ih start [] h = cc
lit_sound c p ns nq ih start (x ∷ t) h = same ns nq (ground arith) (ih false t (ground arith))

matches_sound :
    (p : Text) (start : Bool) (t : Text) → match_nodes (nodes p) start t ≡ true → Glob p t
unfolding match_nodes
matches_sound [] start [] h = done
matches_sound [] start (x ∷ t) h = cc
matches_sound (c ∷ p) start t h = elim (ℕ_discrete c b'*') [
  | yes e ↦
      star_sound (match_nodes (nodes p)) c p e (matches_sound p) start t (rw (node-star c e) at h)
  | no ns ↦ elim (ℕ_discrete c b'?') [
    | yes e ↦ question_sound c p e (matches_sound p) start t (rw (node-question c e) at h)
    | no nq ↦ lit_sound c p ns nq (matches_sound p) start t (rw (node-lit c ns nq) at h)
  ]
]

matches_complete : {p t : Text} → Glob p t → (start : Bool) → match_nodes (nodes p) start t ≡ true
unfolding match_nodes star
matches_complete done start = refl
matches_complete (skip {c} {p} {t} e g) start =
    rw (node-star c e) (star_here (match_nodes (nodes p)) start t (matches_complete g start))
matches_complete (take_one {c} {x} {p} {t} e d g) start =
    let ih : match_nodes (any_star ∷ nodes p) false t ≡ true =
      rw (node-star c e) at (matches_complete g false) in
    rw (node-star c e) (ground arith)
matches_complete (question {c} {p} {t} e d g) start =
    let ih = matches_complete g false in rw (node-question c e) (ground arith)
matches_complete (same {c} {p} {t} ns nq e g) start =
    let ih = matches_complete g false in rw (node-lit c ns nq) (ground arith)

match_pattern-nodes : (p t : Text) → match_pattern p t ≡ match_nodes (nodes p) true t
unfolding match_pattern
match_pattern-nodes p t = rw (parse_regex-regex_from p, match_pattern) refl

pub match_pattern_iff : (p t : Text) → (match_pattern p t ≡ true) ↔ Glob p t
match_pattern_iff p t = (
  λ h. matches_sound p true t (rw (← match_pattern-nodes p t) h),
  λ g. rw (match_pattern-nodes p t) (matches_complete g true),
)
