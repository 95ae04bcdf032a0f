-- ===== src/Files/Trusted.antt =====
-- `is_trusted_path` and `read_file_secure` of src/file_utils.cpp: their positive answers.
use voix.Base.{
  ℕ, ◌-◌, ◌≡◌, sym, ap, ◌∙◌, Bool, true, false, List, [], ◌∷◌, Text, codes, length, take, All, ◌||◌,
  ◌==◌, nat_eq, list_eq, nat_beq_iff, if◌then◌else◌, arith, Bool-cases, inl, inr,
}
use voix.Paths.{append_path, is_absolute, lexically_normal, relative_names}
use voix.Files.{
  Expected-cases, FileError, Expected, value, unexpected, Stat, Opened, Kernel, is_symlink,
  is_shared_writable, is_regular, is_directory,
}
use voix.Files.Reading.{is_file_safe, read_loop, whole, read_opened, read_file_secure}
use voix.Files.Received.{received, read_loop-received}
use voix.Files.Trust.{is_trusted_component, walk, is_trusted_path}

-- The paths that stand on the way from a directory, which is left out itself: for `/` these are the
-- path's prefixes below the root directory.
pub visited : Text → List Text → List Text
visited current [] = []
visited current (component ∷ components) =
    let here = visited current components in
    let below =
      append_path current component ∷ visited (append_path current component) components in
    if component == codes "." then here else below

module _ (k : Kernel) where
  -- Root owns it, no one else may write to it, it is no symlink, and unless it is the whole path, it
  -- is a directory.
  abbrev pub IsTrusted : Text → Text → Type 0
  IsTrusted normalized path =
      (st : Stat) × (k.lstat path ≡ value st)
      × (st.uid ≡ 0)
      × (is_symlink st ≡ false)
      × (is_shared_writable st ≡ false)
      × (((path == normalized) || is_directory st) ≡ true)

  trusted_component :
      (last : Bool) (st : Stat)
      → is_trusted_component last st ≡ true
      → (st.uid ≡ 0)
        × (is_symlink st ≡ false)
        × (is_shared_writable st ≡ false)
        × ((last || is_directory st) ≡ true)
  unfolding is_trusted_component
  trusted_component last st e = ground (arith, nat_beq_iff st.uid 0)

  walk-IsTrusted :
      (normalized current : Text) (components : List Text)
      → walk k normalized current components ≡ true
      → All (IsTrusted normalized) (visited current components)
  unfolding walk visited
  walk-IsTrusted normalized current [] e = tt
  walk-IsTrusted normalized current (component ∷ components) e =
      elim (Bool-cases (component == codes ".")) [
        | inl dot ↦ rw dot (walk-IsTrusted normalized current components (rw dot at e))
        | inr named ↦ elim (Expected-cases (k.lstat (append_path current component))) [
          | inl (error, failed) ↦ absurd (ground arith)
          | inr (st, known) ↦
              let both : (is_trusted_component (append_path current component == normalized) st
                    ≡ true)
                  × (walk k normalized (append_path current component) components ≡ true) =
                ground arith in
              let facts =
                trusted_component (append_path current component == normalized) st both.0 in
              rw named (
                (st, known, facts.0, facts.1, facts.2, facts.3),
                walk-IsTrusted normalized (append_path current component) components both.1,
              )
        ]
      ]

  -- A path is trusted only if it is absolute, and every directory on its normalized way below the root
  -- directory, and the file itself, exists, is owned by root, not writable by anyone else and no
  -- symlink, the ones before the last being directories. The root directory itself is not asked about.
  pub is_trusted_path-IsTrusted :
      (path : Text)
      → is_trusted_path k path ≡ true
      → (is_absolute path ≡ true)
        × All
            (IsTrusted (lexically_normal path))
            (visited (b'/' ∷ []) (relative_names (lexically_normal path)))
  unfolding is_trusted_path
  is_trusted_path-IsTrusted path e =
      let facts : (is_absolute path ≡ true)
          × (walk k (lexically_normal path) (b'/' ∷ []) (relative_names (lexically_normal path))
              ≡ true) =
        ground arith in
      (
        facts.0,
        walk-IsTrusted (lexically_normal path) (b'/' ∷ []) (relative_names (lexically_normal path))
            facts.1,
      )

  whole-length :
      (size : ℕ) (r : Expected FileError Text) (content : Text)
      → whole size r ≡ value content
      → (r ≡ value content) × (length content ≡ size)
  whole-length size (unexpected error) content e = absurd (ground arith)
  whole-length size (value read) content e = ground (arith, nat_beq_iff (length read) size)

  -- A regular file of the effective user that no one else may write to.
  abbrev pub IsOwnFile : Opened → Type 0
  IsOwnFile file =
      (st : Stat) × (file.fstat ≡ value st)
      × (is_regular st ≡ true)
      × (st.uid ≡ k.geteuid)
      × (is_shared_writable st ≡ false)

  is_file_safe-IsOwnFile : (file : Opened) → is_file_safe k file ≡ true → IsOwnFile file
  unfolding is_file_safe
  is_file_safe-IsOwnFile file e = elim (Expected-cases file.fstat) [
    | inl (error, failed) ↦ absurd (ground arith)
    | inr (st, known) ↦
        let safe : (is_regular st ≡ true) × (st.uid ≡ k.geteuid) × (is_shared_writable st ≡ false) =
          ground (arith, nat_beq_iff st.uid k.geteuid) in
        (st, known, safe.0, safe.1, safe.2)
  ]

  -- What is read securely comes from a file opened without following a symlink, that is regular,
  -- owned by the effective user and not writable by anyone else; it is the bytes that the calls of
  -- read gave, in their order, up to the size that the file had when it was opened, and it has that
  -- size.
  pub read_file_secure-safe :
      (path content : Text)
      → read_file_secure k path ≡ value content
      → (file : Opened) × (k.open_no_follow path ≡ value file)
        × IsOwnFile file
        × (file.size ≡ value (length content))
        × (content ≡ take (length content) (received file.reads))
  unfolding read_file_secure read_opened
  read_file_secure-safe path content e = elim (Expected-cases (k.open_no_follow path)) [
    | inl (error, failed) ↦ absurd (ground arith)
    | inr (file, found) ↦ elim (Bool-cases (is_file_safe k file)) [
      | inr unsafe ↦ absurd (ground arith)
      | inl safe ↦ elim (Expected-cases file.size) [
        | inl (error, failed) ↦ absurd (ground arith)
        | inr (size, known) ↦
            let (done, same) =
              whole-length size (read_loop size [] file.reads) content (ground arith) in
            let all_of : size - 0 ≡ length content = omega (arith, same) in
            (
              file,
              found,
              is_file_safe-IsOwnFile file safe,
              known ∙ ap value (sym same),
              read_loop-received size [] file.reads content done same
                  ∙ ap (λ n. take n (received file.reads)) all_of,
            )
      ]
    ]
  ]
