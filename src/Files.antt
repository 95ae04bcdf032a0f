-- ===== src/Files.antt =====
-- src/file_utils.cpp. The kernel's answers are a parameter, `Kernel`; each operation is a function
-- of them.
pub mod Reading
pub mod Executables
pub mod Trust
pub mod Writing
pub mod Checked
pub mod Received
pub mod Trusted
use voix.Base.{
  ◌≡◌, refl, ◌⊎◌, inl, inr, ℕ, Bool, true, false, ◌||◌, not, ◌&&◌, Option, none, some, Text, List,
  ◌==◌, nat_eq, if◌then◌else◌,
}

-- include/file_utils.hpp
pub data FileError : Type 0 where
  not_found permission_denied read_error write_error unknown : FileError

-- `std::expected<A, E>`; also a system call's result, with `errno` as its error.
pub data Expected (E A : Type 0) : Type 0 where
  value : A → Expected E A
  unexpected : E → Expected E A

pub Expected-cases :
    {E A : Type 0} (r : Expected E A) → (((e : E) × (r ≡ unexpected e)) ⊎ ((a : A) × (r ≡ value a)))
Expected-cases (unexpected e) = inl (e, refl)
Expected-cases (value a) = inr (a, refl)

-- The values of `errno` that the code tells apart.
pub data Errno : Type 0 where
  enoent enotdir eacces eperm eloop eintr other_errno : Errno

pub data FileKind : Type 0 where
  regular directory symlink other_kind : FileKind

-- `struct stat`: the fields and mode bits that the code reads.
pub record Stat : Type 0 where
  pub kind : FileKind
  pub uid : ℕ
  pub device : ℕ
  pub inode : ℕ
  pub user_exec : Bool
  pub group_write : Bool
  pub group_exec : Bool
  pub other_write : Bool
  pub other_exec : Bool
  pub other_bits : Bool  -- any further bit beside those of the owner: read bits, setuid, sticky

pub record ExecutableInfo : Type 0 where
  pub path : Text
  pub policy_path : Text
  pub device : ℕ
  pub inode : ℕ

-- An open descriptor: its number, what `fstat` says of it, its size by `lseek`, and the results
-- of the calls of `read` on it, in order; past them `read` returns 0.
pub record Opened : Type 0 where
  pub fd : ℕ
  pub fstat : Expected Errno Stat
  pub size : Expected Errno ℕ
  pub reads : List (Expected Errno Text)

-- A file opened for writing, emptied: what `fstat` says of it, and the results of the calls of `write`
-- in order; past them `write` takes all that it is given.
pub record Created : Type 0 where
  pub file : Opened
  pub writes : List (Expected Errno ℕ)

-- What the kernel answers at the time of one operation.
pub record Kernel : Type 0 where
  pub geteuid : ℕ
  pub cwd : Option Text
  pub realpath : Text → Expected Errno Text
  pub stat : Text → Expected Errno Stat
  pub lstat : Text → Expected Errno Stat
  pub open_no_follow : Text → Expected Errno Opened
  pub create_no_follow : Text → Expected Errno Created
  pub exists_file : Text → Bool
  pub weakly_canonical : Text → Option Text  -- `fs::weakly_canonical`; `none` where it throws
  pub file_size : Text → Expected Errno ℕ
  pub read_stream : Text → Option (Text × Bool)  -- what `ifstream` reads, and whether it fails then
  pub directory_status : Text → Expected Errno Bool  -- `fs::is_directory` with its error code
  pub mountinfo : Option (List Text)  -- the lines of /proc/self/mountinfo, if it can be opened

abbrev pub is_regular : Stat → Bool
is_regular st = elim st.kind [ regular ↦ true | _ ↦ false ]

abbrev pub is_directory : Stat → Bool
is_directory st = elim st.kind [ directory ↦ true | _ ↦ false ]

abbrev pub is_symlink : Stat → Bool
is_symlink st = elim st.kind [ symlink ↦ true | _ ↦ false ]

-- `st_mode & (S_IWOTH | S_IWGRP)`
abbrev pub is_shared_writable : Stat → Bool
is_shared_writable st = st.other_write || st.group_write

-- `st_mode & (S_IXUSR | S_IXGRP | S_IXOTH)`
abbrev pub is_executable : Stat → Bool
is_executable st = st.user_exec || (st.group_exec || st.other_exec)

unfoldable pub errno_to_file_error : Errno → FileError → FileError
errno_to_file_error enoent fallback = not_found
errno_to_file_error enotdir fallback = not_found
errno_to_file_error eacces fallback = permission_denied
errno_to_file_error eperm fallback = permission_denied
errno_to_file_error eloop fallback = permission_denied
errno_to_file_error _ fallback = fallback
