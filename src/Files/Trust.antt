-- ===== src/Files/Trust.antt =====
-- `is_trusted_path` of src/file_utils.cpp.
use voix.Base.{
  Bool, true, false, not, ◌||◌, ◌&&◌, List, [], ◌∷◌, Text, codes, is_empty, ◌==◌, nat_eq, list_eq,
  if◌then◌else◌,
}
use voix.Paths.{append_path, is_absolute, lexically_normal, relative_names}
use voix.Files.{value, unexpected, Stat, Kernel, is_directory, is_symlink, is_shared_writable}

-- The checks on one component; `last` where the walk has reached the whole path.
unfoldable pub is_trusted_component : Bool → Stat → Bool
is_trusted_component last st =
    if is_symlink st
    then false
    else if not (st.uid == 0)
    then false
    else if is_shared_writable st
    then false
    else if not last && not (is_directory st)
    then false
    else true

-- The walk, from the directory reached so far.
unfoldable pub walk : Kernel → Text → Text → List Text → Bool
unfolding append_path codes is_trusted_component
walk k normalized current [] = true
walk k normalized current (component ∷ components) =
    let next = append_path current component in
    let skipped = walk k normalized current components in
    let rest = walk k normalized next components in
    if component == codes "."
    then skipped
    else if component == codes ".."
    then false
    else elim (k.lstat next) [
      | unexpected e ↦ false
      | value st ↦ is_trusted_component (next == normalized) st && rest
    ]

unfoldable pub is_trusted_path : Kernel → Text → Bool
unfolding walk is_absolute lexically_normal relative_names
is_trusted_path k path =
    if is_empty path || not (is_absolute path)
    then false
    else walk k (lexically_normal path) (b'/' ∷ []) (relative_names (lexically_normal path))
