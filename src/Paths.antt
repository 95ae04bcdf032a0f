-- ===== src/Paths.antt =====
-- The lexical operations of `std::filesystem::path` (POSIX) that the program uses, on its bytes.
use voix.Base.{
  ℕ, Bool, false, ◌&&◌, ◌||◌, Option, none, some, List, [], ◌∷◌, ◌++◌, Text, codes, is_empty, ◌==◌,
  nat_eq, list_eq, if◌then◌else◌,
}

-- `p.is_absolute()`
unfoldable pub is_absolute : Text → Bool
is_absolute [] = false
is_absolute (c ∷ p) = c == b'/'

-- `std::getline(stream, item, delimiter)` until the end; `cur` is the item so far.
unfoldable pub split_from : ℕ → Text → Text → List Text
split_from delimiter cur [] = if is_empty cur then [] else cur ∷ []
split_from delimiter cur (c ∷ s) =
    let next = split_from delimiter [] s in
    let longer = split_from delimiter (cur ++ c ∷ []) s in
    if c == delimiter then cur ∷ next else longer

-- `p.filename()`: what follows the last slash.
unfoldable pub filename_from : Text → Text → Text
filename_from cur [] = cur
filename_from cur (c ∷ p) = filename_from (if c == b'/' then [] else cur ++ c ∷ []) p

unfoldable pub filename : Text → Text
unfolding filename_from
filename p = filename_from [] p

-- `a / b`
unfoldable pub append_path : Text → Text → Text
unfolding is_absolute filename
append_path a b =
    if is_absolute b then b else if is_empty (filename a) then a ++ b else a ++ b'/' ∷ b

-- What stands up to the last slash, with it.
up_to_slash : Text → Text
up_to_slash [] = []
up_to_slash (c ∷ p) =
    let rest = up_to_slash p in
    if is_empty rest then (if c == b'/' then c ∷ [] else []) else c ∷ rest

trim_slashes : Text → Text
trim_slashes [] = []
trim_slashes (c ∷ p) =
    let rest = trim_slashes p in if is_empty rest && c == b'/' then [] else c ∷ rest

-- `p.parent_path()`
unfoldable pub parent_path : Text → Text
unfolding up_to_slash trim_slashes is_absolute
parent_path p =
    let dir = trim_slashes (up_to_slash p) in
    if is_empty dir && is_absolute p then b'/' ∷ [] else dir

-- `fs::absolute(p)`, from the working directory where `p` is relative; an error for the empty path
-- and where there is no working directory.
unfoldable pub absolute : Option Text → Text → Option Text
unfolding is_absolute append_path
absolute cwd [] = none
absolute none (c ∷ p) = if c == b'/' then some (c ∷ p) else none
absolute (some dir) (c ∷ p) = if c == b'/' then some (c ∷ p) else some (append_path dir (c ∷ p))

abbrev is_dot_name : Text → Bool
is_dot_name name = is_empty name || name == codes "."

-- The names that are left of an absolute path, the last one first.
fold_names : List Text → List Text → List Text
fold_names stack [] = stack
fold_names [] (name ∷ names) =
    fold_names (if is_dot_name name || name == codes ".." then [] else name ∷ []) names
fold_names (top ∷ stack) (name ∷ names) =
    fold_names
      (if is_dot_name name
        then top ∷ stack
        else if name == codes ".."
        then stack
        else name ∷ top ∷ stack)
      names

-- Whether the path ends in a directory: in a slash, "." or "..".
ends_in_directory : Text → Bool
unfolding filename
ends_in_directory p = is_dot_name (filename p) || filename p == codes ".."

unslash : List Text → Text
unslash [] = []
unslash (name ∷ stack) = unslash stack ++ b'/' ∷ name

-- `p.lexically_normal()` of an absolute path.
unfoldable pub lexically_normal : Text → Text
unfolding fold_names split_from unslash ends_in_directory codes
lexically_normal p =
    let stack = fold_names [] (split_from b'/' [] p) in
    if is_empty stack
    then b'/' ∷ []
    else if ends_in_directory p
    then unslash stack ++ b'/' ∷ []
    else unslash stack

-- The names of a normal absolute path, as the iteration over it gives them after its root; a
-- closing slash gives an empty name.
unfoldable pub names_from : Text → Text → List Text
names_from cur [] = cur ∷ []
names_from cur (c ∷ p) =
    let next = names_from [] p in
    let longer = names_from (cur ++ c ∷ []) p in if c == b'/' then cur ∷ next else longer

unfoldable pub relative_names : Text → List Text
unfolding names_from
relative_names [] = []
relative_names (c ∷ []) = []
relative_names (c ∷ d ∷ p) = names_from [] (d ∷ p)
