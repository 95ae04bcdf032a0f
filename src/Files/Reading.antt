-- ===== src/Files/Reading.antt =====
-- Reading a file through a descriptor that is checked first, and the private directory.
use voix.Base.{
  none, some, ℕ, ◌-◌, Bool, true, false, not, ◌||◌, List, [], ◌∷◌, ◌++◌, Text, length, take,
  is_empty, ltb, ◌==◌, nat_eq, if◌then◌else◌,
}
use voix.Files.{
  not_found, FileError, permission_denied, read_error, Expected, value, unexpected, Errno, eintr,
  Opened, Kernel, is_regular, is_directory, is_shared_writable, errno_to_file_error,
}

-- `is_file_safe(fd)`
unfoldable pub is_file_safe : Kernel → Opened → Bool
is_file_safe k file = elim file.fstat [
  | unexpected e ↦ false
  | value st ↦
      if not (is_regular st)
      then false
      else if not (st.uid == k.geteuid)
      then false
      else if is_shared_writable st
      then false
      else true
]

-- The loop of `read_file_secure`: a call of `read` gives at most the bytes asked for.
unfoldable pub read_loop : ℕ → Text → List (Expected Errno Text) → Expected FileError Text
read_loop size content [] = value content
read_loop size content (value chunk ∷ answers) =
    let n = take (size - length content) chunk in
    let more = read_loop size (content ++ n) answers in
    if not (ltb (length content) size)
    then value content
    else if is_empty n
    then value content
    else more
read_loop size content (unexpected eintr ∷ answers) =
    let more = read_loop size content answers in
    if not (ltb (length content) size) then value content else more
read_loop size content (unexpected e ∷ answers) =
    if not (ltb (length content) size) then value content else unexpected read_error

-- The last test: a file that shrank while it was read is refused.
abbrev pub whole : ℕ → Expected FileError Text → Expected FileError Text
whole size (unexpected e) = unexpected e
whole size (value content) =
    if not (length content == size) then unexpected read_error else value content

unfoldable pub read_opened : Kernel → Opened → Expected FileError Text
unfolding is_file_safe read_loop
read_opened k file =
    if not (is_file_safe k file) then unexpected permission_denied else elim file.size [
      | unexpected e ↦ unexpected read_error
      | value size ↦ whole size (read_loop size [] file.reads)
    ]

unfoldable pub read_file_secure : Kernel → Text → Expected FileError Text
unfolding read_opened errno_to_file_error
read_file_secure k path = elim (k.open_no_follow path) [
  | unexpected e ↦ unexpected (errno_to_file_error e read_error)
  | value file ↦ read_opened k file
]

-- `ensure_private_directory`, after `create_directory`: whether `chmod` succeeded, and what
-- `stat` says then.
unfoldable pub ensure_private_directory : Kernel → Bool → Text → Bool
ensure_private_directory k chmod_ok path = if not chmod_ok then false else elim (k.stat path) [
  | unexpected e ↦ false
  | value st ↦
      if not (is_directory st)
      then false
      else if not (st.uid == k.geteuid)
      then false
      else if st.group_write
          || (st.group_exec || (st.other_write || (st.other_exec || st.other_bits)))
      then false
      else true
]

-- `readFile`: `file_size` and the stream are asked one after the other.
unfoldable pub read_file : Kernel → Text → Expected FileError Text
read_file k path =
    if not (k.exists_file path) then unexpected not_found else elim (k.file_size path) [
      | unexpected e ↦ unexpected read_error
      | value size ↦ elim (k.read_stream path) [
        | none ↦ unexpected permission_denied
        | some (content, bad) ↦ if bad then unexpected read_error else value (take size content)
      ]
    ]
