-- ===== src/Files/Checked.antt =====
-- `resolve_executable` and `open_executable` of src/file_utils.cpp: the checks behind their positive
-- answers.
use voix.Base.{
  ℕ, ◌≡◌, ap, ◌∙◌, true, false, Option, none, List, [], ◌∷◌, Text, is_empty, contains, nat_eq,
  nat_beq_iff, arith, Bool-cases, Option-cases, inl, inr,
}
use voix.Paths.{append_path, absolute, split_from}
use voix.Files.{
  Expected-cases, FileError, value, Stat, ExecutableInfo, Opened, Kernel, is_regular,
  is_shared_writable, is_executable,
}
use voix.Files.Executables.{
  check_stat, check_candidate, note_error, search_path, resolve_executable, open_executable,
}

-- A regular file of the owner's that nobody else may write to and that may be executed.
abbrev pub IsSafe : ℕ → Stat → Type 0
IsSafe owner st =
    (is_regular st ≡ true)
    × (st.uid ≡ owner)
    × (is_shared_writable st ≡ false)
    × (is_executable st ≡ true)

-- What `resolve_executable` has seen of a file.
abbrev pub Checked : Kernel → ℕ → ExecutableInfo → Type 0
Checked k owner info =
    (candidate : Text) × (st : Stat) × (k.realpath candidate ≡ value info.path)
    × (k.stat info.path ≡ value st)
    × IsSafe owner st
    × (st.device ≡ info.device)
    × (st.inode ≡ info.inode)

module _ (k : Kernel) (owner : ℕ) where
  check_stat-IsSafe :
      (resolved candidate : Text) (st : Stat) (info : ExecutableInfo)
      → check_stat k owner resolved candidate st ≡ value info
      → IsSafe owner st
        × (resolved ≡ info.path)
        × (st.device ≡ info.device)
        × (st.inode ≡ info.inode)
  unfolding check_stat
  check_stat-IsSafe resolved candidate st info e =
      let same_owner = (nat_beq_iff st.uid owner).0 in ground (arith, nat_beq_iff st.uid owner)

  check_candidate-Checked :
      (candidate : Text) (info : ExecutableInfo)
      → check_candidate k owner candidate ≡ value info
      → Checked k owner info
  unfolding check_candidate
  check_candidate-Checked candidate info e = elim (Expected-cases (k.realpath candidate)) [
    | inl (error, failed) ↦ absurd (ground arith)
    | inr (resolved, found) ↦ elim (Expected-cases (k.stat resolved)) [
      | inl (error, failed) ↦ absurd (ground arith)
      | inr (st, known) ↦
          let (safe, path, device, inode) =
            check_stat-IsSafe resolved candidate st info (ground arith) in
          (candidate, st, found ∙ ap value path, rw path at known, safe, device, inode)
    ]
  ]

  search_path-Checked :
      (command : Text) (first_error : Option FileError) (items : List Text) (info : ExecutableInfo)
      → search_path k owner command first_error items ≡ value info
      → Checked k owner info
  unfolding search_path
  search_path-Checked command first_error [] info e = absurd (ground arith)
  search_path-Checked command first_error (item ∷ items) info e =
      elim (Bool-cases (is_empty item)) [
        | inl blank ↦ search_path-Checked command first_error items info (ground arith)
        | inr named ↦ elim (Expected-cases (check_candidate k owner (append_path item command))) [
          | inl (error, failed) ↦
              search_path-Checked command (note_error first_error error) items info (ground arith)
          | inr (here, found) ↦
              check_candidate-Checked (append_path item command) info (ground arith)
        ]
      ]

  resolve_executable-Checked :
      (command path_env : Text) (info : ExecutableInfo)
      → resolve_executable k owner command path_env ≡ value info
      → Checked k owner info
  unfolding resolve_executable
  resolve_executable-Checked command path_env info e = elim (Bool-cases (is_empty command)) [
    | inl blank ↦ absurd (ground arith)
    | inr named ↦ elim (Bool-cases (contains command b'/')) [
      | inl direct ↦ elim (Option-cases (absolute k.cwd command)) [
        | inl failed ↦ absurd (ground arith)
        | inr (full, found) ↦ check_candidate-Checked full info (ground arith)
      ]
      | inr searched ↦
          search_path-Checked command none (split_from b':' [] path_env) info (ground arith)
    ]
  ]

-- The descriptor that is executed belongs to the very file that was checked, whatever happened to the
-- file system in between: it has the device and the inode of the file that the command's name was
-- resolved to, which was a regular executable of the owner's that nobody else may write to, and it
-- still is one.
pub open_executable-resolve_executable :
    (before now : Kernel) (owner : ℕ) (command path_env : Text) (info : ExecutableInfo) (fd : ℕ)
    → resolve_executable before owner command path_env ≡ value info
    → open_executable now owner info ≡ value fd
    → Checked before owner info
      × ((file : Opened) × (st : Stat) × (now.open_no_follow info.path ≡ value file)
          × (file.fstat ≡ value st)
          × (file.fd ≡ fd)
          × IsSafe owner st
          × (st.device ≡ info.device)
          × (st.inode ≡ info.inode))
unfolding open_executable
open_executable-resolve_executable before now owner command path_env info fd resolved opened = (
  resolve_executable-Checked before owner command path_env info resolved,
  elim (Expected-cases (now.open_no_follow info.path)) [
    | inl (error, failed) ↦ absurd (ground arith)
    | inr (file, found) ↦ elim (Expected-cases file.fstat) [
      | inl (error, failed) ↦ absurd (ground arith)
      | inr (st, known) ↦
          let facts : (file.fd ≡ fd)
              × IsSafe owner st
              × (st.device ≡ info.device)
              × (st.inode ≡ info.inode) =
            ground (
              arith,
              nat_beq_iff st.uid owner,
              nat_beq_iff st.device info.device,
              nat_beq_iff st.inode info.inode,
            ) in
          (file, st, found, known, facts.0, facts.1, facts.2, facts.3)
    ]
  ],
)
