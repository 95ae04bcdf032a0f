-- ===== src/Files/Executables.antt =====
-- `resolve_executable` and `open_executable`.
use voix.Base.{
  ℕ, not, ◌||◌, Option, none, some, List, [], ◌∷◌, Text, contains, is_empty, ◌==◌, nat_eq,
  if◌then◌else◌,
}
use voix.Paths.{filename, parent_path, append_path, absolute, lexically_normal, split_from}
use voix.Files.{
  FileError, not_found, permission_denied, read_error, Expected, value, unexpected, Stat,
  ExecutableInfo, Kernel, is_regular, is_shared_writable, is_executable, errno_to_file_error,
}

-- Directory symlinks resolved, the last name kept.
policy_path_of : Kernel → Text → Text → Text
unfolding absolute lexically_normal filename parent_path append_path
policy_path_of k resolved candidate = elim (absolute k.cwd candidate) [
  | none ↦ resolved
  | some full ↦
      if is_empty (filename full)
      then lexically_normal full
      else elim (k.realpath (parent_path full)) [
        | unexpected e ↦ lexically_normal full
        | value parent ↦ append_path parent (filename full)
      ]
]

-- The checks on the canonical file.
unfoldable pub check_stat : Kernel → ℕ → Text → Text → Stat → Expected FileError ExecutableInfo
unfolding policy_path_of
check_stat k owner resolved candidate st =
    if not (is_regular st)
    then unexpected permission_denied
    else if not (st.uid == owner)
    then unexpected permission_denied
    else if is_shared_writable st
    then unexpected permission_denied
    else if not (is_executable st)
    then unexpected permission_denied
    else value (record {
      path = resolved;
      policy_path = policy_path_of k resolved candidate;
      device = st.device;
      inode = st.inode;
    })

unfoldable pub check_candidate : Kernel → ℕ → Text → Expected FileError ExecutableInfo
unfolding check_stat errno_to_file_error
check_candidate k owner candidate = elim (k.realpath candidate) [
  | unexpected e ↦ unexpected (errno_to_file_error e not_found)
  | value resolved ↦ elim (k.stat resolved) [
    | unexpected e ↦ unexpected (errno_to_file_error e read_error)
    | value st ↦ check_stat k owner resolved candidate st
  ]
]

-- `first_error = result.error()` for the first failure that is not NotFound.
abbrev pub note_error : Option FileError → FileError → Option FileError
note_error first_error not_found = first_error
note_error none e = some e
note_error (some first) e = some first

abbrev error_or_not_found : Option FileError → FileError
error_or_not_found none = not_found
error_or_not_found (some e) = e

-- The search through PATH, from the first failure remembered so far.
unfoldable pub search_path :
    Kernel → ℕ → Text → Option FileError → List Text → Expected FileError ExecutableInfo
unfolding append_path
search_path k owner command first_error [] = unexpected (error_or_not_found first_error)
search_path k owner command first_error (item ∷ items) =
    let skipped = search_path k owner command first_error items in
    if is_empty item then skipped else elim (check_candidate k owner (append_path item command)) [
      | value info ↦ value info
      | unexpected e ↦ search_path k owner command (note_error first_error e) items
    ]

unfoldable pub resolve_executable : Kernel → ℕ → Text → Text → Expected FileError ExecutableInfo
unfolding check_candidate search_path absolute split_from contains
resolve_executable k owner command path_env =
    if is_empty command
    then unexpected not_found
    else if contains command b'/'
    then elim (absolute k.cwd command) [
      | none ↦ unexpected not_found
      | some full ↦ check_candidate k owner full
    ]
    else search_path k owner command none (split_from b':' [] path_env)

-- `resolve_command`: the canonical path, or nothing.
unfoldable pub resolve_command : Kernel → ℕ → Text → Text → Text
unfolding resolve_executable
resolve_command k owner command path_env = elim (resolve_executable k owner command path_env) [
  | value info ↦ info.path
  | unexpected e ↦ []
]

-- The kernel may have changed since the executable was resolved.
unfoldable pub open_executable : Kernel → ℕ → ExecutableInfo → Expected FileError ℕ
unfolding errno_to_file_error
open_executable k owner info = elim (k.open_no_follow info.path) [
  | unexpected e ↦ unexpected (errno_to_file_error e read_error)
  | value file ↦ elim file.fstat [
    | unexpected e ↦ unexpected read_error
    | value st ↦
        if not (st.device == info.device) || not (st.inode == info.inode)
        then unexpected permission_denied
        else if not (is_regular st)
            || (not (st.uid == owner) || (is_shared_writable st || not (is_executable st)))
        then unexpected permission_denied
        else value file.fd
  ]
]
