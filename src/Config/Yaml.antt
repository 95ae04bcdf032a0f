-- ===== src/Config/Yaml.antt =====
-- yaml-cpp, a parameter of src/config.cpp, and the exceptions that it throws.
use voix.Base.{Bool, Option, none, some, List, [], ◌∷◌, Text}

-- A document of nodes `N`. `none` where the call throws.
pub record Yaml (N : Type 0) : Type 0 where
  pub parse : Text → Option N  -- `YAML::Load`
  pub field : N → Text → Option (Option N)  -- `node[key]`: the inner `none` is an undefined node
  pub as_string : N → Option Text
  pub as_bool : N → Option Bool
  pub items : N → Option (List N)  -- the nodes that a range `for` visits
  pub entries : N → Option (List (N × N))  -- the keys and values that an iterator visits
  pub is_sequence : N → Bool
  pub is_scalar : N → Bool

infixl 5 ◌>>=◌
abbrev pub ◌>>=◌ : {A B : Type 0} → Option A → (A → Option B) → Option B
none >>= f = none
some a >>= f = f a

-- `if (node[key]) { … }` on a value that is built up.
unfoldable pub on_field : {N A : Type 0} → Yaml N → N → Text → (N → A → Option A) → A → Option A
on_field yaml node key f a = elim (yaml.field node key) [
  | none ↦ none
  | some none ↦ some a
  | some (some found) ↦ f found a
]

-- A loop over the nodes of a sequence.
unfoldable pub fold_nodes : {N A : Type 0} → (N → A → Option A) → List N → A → Option A
fold_nodes f [] a = some a
fold_nodes f (node ∷ nodes) a = f node a >>= fold_nodes f nodes
