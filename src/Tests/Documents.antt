-- ===== src/Tests/Documents.antt =====
-- A small YAML, in which a document is its own text's fixed tree, and a configuration file.
use voix.Base.{
  Bool, true, false, Option, none, some, List, [], ◌∷◌, Text, codes, ◌==◌, nat_eq, list_eq,
  if◌then◌else◌,
}
use voix.Config.Yaml.{Yaml}

-- A scalar, and sequences and mappings by their first element.
pub data Node : Type 0 where
  scalar : Text → Node
  empty : Node
  item : Node → Node → Node
  entry : Text → Node → Node → Node

abbrev field_of : Node → Text → Option Node
field_of (entry key node rest) name = if key == name then some node else field_of rest name
field_of _ name = none

abbrev text_of : Node → Option Text
text_of (scalar s) = some s
text_of _ = none

abbrev flag_of : Node → Option Bool
flag_of (scalar s) =
    if s == codes "true" then some true else if s == codes "false" then some false else none
flag_of _ = none

abbrev items_of : Node → List Node
items_of (item node rest) = node ∷ items_of rest
items_of _ = []

abbrev entries_of : Node → List (Node × Node)
entries_of (entry key node rest) = (scalar key, node) ∷ entries_of rest
entries_of _ = []

abbrev is_list : Node → Bool
is_list empty = true
is_list (item node rest) = true
is_list _ = false

abbrev is_text : Node → Bool
is_text (scalar s) = true
is_text _ = false

abbrev listing : Node
listing =
    entry (codes "command") (scalar (codes "/bin/ls"))
      (entry (codes "profile") (scalar (codes "web")) empty)

abbrev acl : Node
acl = entry (codes "user") (entry (codes "ann") (item listing empty) empty) empty

abbrev web : Node
web =
    entry (codes "seccomp_mode") (scalar (codes "allowlist"))
      (entry (codes "seccomp_allow") (item (scalar (codes "clone")) empty) empty)

abbrev security : Node
security =
    entry (codes "profiles") (entry (codes "web") web empty)
      (entry (codes "blocklist") (item (scalar (codes "/bin/sh")) empty) empty)

abbrev document : Node
document = entry (codes "acl") acl (entry (codes "security") security empty)

abbrev pub yaml : Yaml Node
yaml = record {
  parse = λ content. some document;
  field = λ node name. some (field_of node name);
  as_string = text_of;
  as_bool = flag_of;
  items = λ node. some (items_of node);
  entries = λ node. some (entries_of node);
  is_sequence = is_list;
  is_scalar = is_text;
}
