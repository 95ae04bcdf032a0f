-- ===== src/Tickets/Memory.antt =====
-- An implementation of the ticket store's interface: private files as a list of paths with their
-- contents, the newest first, in which every write succeeds and every directory is there.
use voix.Base.{
  ◌≡◌, not, ◌&&◌, drop, length, starts_with, arith, refl, sym, ap, ◌∙◌, true, Option, none, some,
  List, [], ◌∷◌, Text, ◌==◌, nat_eq, list_eq, list_beq_iff, if◌then◌else◌, Bool-cases, inl, inr,
}
use voix.Paths.{append_path, is_absolute}
use voix.Tickets.{PrivateFiles}
use voix.Tickets.Clearing.{Removal, Removable}

unfoldable pub find_file : List (Text × Text) → Text → Option Text
find_file [] path = none
find_file ((name, content) ∷ rest) path = if name == path then some content else find_file rest path

pub without : List (Text × Text) → Text → List (Text × Text)
without [] path = []
without ((name, content) ∷ rest) path =
    let more = without rest path in if name == path then more else (name, content) ∷ more

pub find_file-here :
    (files : List (Text × Text)) (path content : Text)
    → find_file ((path, content) ∷ files) path ≡ some content
unfolding find_file
find_file-here files path content = let same = (list_beq_iff path path).1 refl in rw same refl

pub find_file-other :
    (files : List (Text × Text)) (path content other : Text)
    → ((other ≡ path) → ⊥)
    → find_file ((path, content) ∷ files) other ≡ find_file files other
unfolding find_file
find_file-other files path content other differ = elim (Bool-cases (path == other)) [
  | inl same ↦ absurd (differ (sym ((list_beq_iff path other).0 same)))
  | inr apart ↦ rw apart refl
]

-- The plain names behind a prefix.
unfoldable pub names_behind : Text → List (Text × Text) → List Text
names_behind prefix [] = []
names_behind prefix ((path, content) ∷ rest) =
    let more = names_behind prefix rest in
    let name = drop (length prefix) path in
    if starts_with path prefix && not (is_absolute name) then name ∷ more else more

unfoldable pub memory : PrivateFiles (List (Text × Text))
memory = record {
  read_file_secure = find_file;
  write_file_secure = λ path content s. (true, (path, content) ∷ s);
  ensure_private_directory = λ dir s. (true, s);
  remove = λ path s. without s path;
  directory_names = λ dir s. some (names_behind (append_path dir []) s);
  read_write =
      λ path content s t e. ap (λ r. find_file r.1 path) (sym e) ∙ find_file-here s path content;
  read_write_other = λ path content other s differ. find_file-other s path content other differ;
  read_ensure = λ dir path s. refl;
}

find_file-without : (s : List (Text × Text)) (path : Text) → find_file (without s path) path ≡ none
unfolding find_file without
find_file-without [] path = refl
find_file-without ((name, content) ∷ rest) path = elim (Bool-cases (name == path)) [
  | inl same ↦ ground (arith, find_file-without rest path)
  | inr apart ↦ ground (arith, find_file-without rest path)
]

find_file-without_other :
    (s : List (Text × Text)) (path other : Text)
    → ((other ≡ path) → ⊥)
    → find_file (without s path) other ≡ find_file s other
unfolding find_file without
find_file-without_other [] path other differ = refl
find_file-without_other ((name, content) ∷ rest) path other differ =
    let later = find_file-without_other rest path other differ in
    elim (Bool-cases (name == path)) [
      | inl same ↦
          let is = (list_beq_iff name path).0 same in
          elim (Bool-cases (name == other)) [
            | inl also ↦ absurd (differ (sym ((list_beq_iff name other).0 also) ∙ is))
            | inr not_other ↦ ground arith
          ]
      | inr apart ↦ ground arith
    ]

pub memory-Removal : Removal memory
unfolding memory
memory-Removal = record {
  read_remove = λ path s. inl (find_file-without s path);
  read_remove_other = λ path other s differ. find_file-without_other s path other differ;
}

pub memory-Removable : (path : Text) → Removable memory path
unfolding memory
memory-Removable path s = find_file-without s path
