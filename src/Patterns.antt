-- ===== src/Patterns.antt =====
-- `PermissionChecker::match_pattern` of src/permission_checker.cpp: a glob is written as an
-- ECMAScript regular expression, which `std::regex` reads and matches. The part of the ECMAScript
-- grammar that is modelled is what can come out of that writing: literals, escaped punctuation,
-- `.`, `.*`, `^` and `$`. A text outside this part is read as `none`.
pub mod Laws
use mathlib.Core.Option
use voix.Base.{
  ℕ, Bool, true, false, not, ◌&&◌, ◌||◌, Option, none, some, List, [], ◌∷◌, ◌++◌, Text, codes,
  contains, is_empty, ◌==◌, nat_eq, if◌then◌else◌,
}

-- One character of the pattern, as the loop appends it.
unfoldable pub piece : ℕ → Text
unfolding contains codes
piece c =
    if c == b'*'
    then b'.' ∷ b'*' ∷ []
    else if c == b'?'
    then b'.' ∷ []
    else if c == 92 || contains (codes ".+^$|()[]{}") c
    then 92 ∷ c ∷ []
    else c ∷ []

unfoldable pub regex_from : Text → Text → Text
regex_from regex_pattern [] = regex_pattern ++ b'$' ∷ []
regex_from regex_pattern (c ∷ pattern_text) = regex_from (regex_pattern ++ piece c) pattern_text

pub data Node : Type 0 where
  bol eol any_char any_star : Node
  lit : ℕ → Node

-- What the reader of a regular expression has in hand: nothing, a backslash, or a dot.
pub data Mode : Type 0 where
  plain escaped dot : Mode

-- ECMAScript's SyntaxCharacter.
unfoldable pub is_syntax : ℕ → Bool
unfolding contains codes
is_syntax c = c == 92 || contains (codes ".+^$|()[]{}*?") c

abbrev read_plain : ℕ → Option (List Node × Mode)
read_plain c =
    if c == 92
    then some ([], escaped)
    else if c == b'.'
    then some ([], dot)
    else if c == b'^'
    then some (bol ∷ [], plain)
    else if c == b'$'
    then some (eol ∷ [], plain)
    else if is_syntax c
    then none
    else some (lit c ∷ [], plain)

unfoldable pub read : Mode → ℕ → Option (List Node × Mode)
read plain c = read_plain c
read escaped c = if is_syntax c then some (lit c ∷ [], plain) else none
read dot c =
    if c == b'*'
    then some (any_star ∷ [], plain)
    else Option.map (λ r. (any_char ∷ r.0, r.1)) (read_plain c)

abbrev join_nodes : List Node → Option (List Node) → Option (List Node)
join_nodes ns none = none
join_nodes ns (some more) = some (ns ++ more)

unfoldable pub parse_regex : Mode → Text → Option (List Node)
parse_regex plain [] = some []
parse_regex escaped [] = none
parse_regex dot [] = some (any_char ∷ [])
parse_regex m (c ∷ s) = elim (read m c) [
  | none ↦ none
  | some (ns, next) ↦ join_nodes ns (parse_regex next s)
]

-- `.` matches every byte but a line terminator.
unfoldable pub is_dot : ℕ → Bool
is_dot c = not (c == 10 || c == 13)

-- `.*` in front of what `k` matches; the flag says that nothing is consumed yet.
unfoldable pub star : (Bool → Text → Bool) → Bool → Text → Bool
star k start [] = k start []
star k start (x ∷ t) = k start (x ∷ t) || (is_dot x && star k false t)

unfoldable pub match_nodes : List Node → Bool → Text → Bool
match_nodes [] start t = is_empty t
match_nodes (bol ∷ ns) start t = start && match_nodes ns start t
match_nodes (eol ∷ ns) start t = is_empty t && match_nodes ns start t
match_nodes (any_star ∷ ns) start t = star (match_nodes ns) start t
match_nodes (any_char ∷ ns) start [] = false
match_nodes (any_char ∷ ns) start (x ∷ t) = is_dot x && match_nodes ns false t
match_nodes (lit c ∷ ns) start [] = false
match_nodes (lit c ∷ ns) start (x ∷ t) = x == c && match_nodes ns false t

-- `std::regex_match(text, std::regex(regex_pattern))`; the constructor's exception would be the
-- case `none`.
unfoldable pub match_pattern : Text → Text → Bool
unfolding regex_from piece parse_regex read is_syntax match_nodes star is_dot
match_pattern pattern_text t = elim (parse_regex plain (regex_from (b'^' ∷ []) pattern_text)) [
  | none ↦ false
  | some re ↦ match_nodes re true t
]
