-- ===== src/Tickets.antt =====
-- src/ticket_store.cpp: the authentication timestamps of the persist option. The private files that
-- FileUtils keeps for it are an interface, `PrivateFiles`.
pub mod Validity
pub mod Memory
pub mod Clearing
use voix.Base.{
  ℕ, ◌+◌, ◌-◌, ◌*◌, ◌^◌, ◌≡◌, Bool, true, false, not, Option, none, some, List, [], ◌∷◌, ◌++◌, Text,
  codes, starts_with, is_empty, leb, ltb, if◌then◌else◌,
}
use voix.Numbers.{to_string, strtoull}
use voix.Paths.{append_path}

-- `FileUtils` as the ticket store uses it, on the state `S` of the files, with the laws of a file
-- system that nothing else writes to between two calls.
pub record PrivateFiles (S : Type 0) : Type 0 where
  pub read_file_secure : S → Text → Option Text
  pub write_file_secure : Text → Text → S → Bool × S
  pub ensure_private_directory : Text → S → Bool × S
  pub remove : Text → S → S  -- the files afterwards, whether or not the call succeeds
  -- The names that the iterator gives before it ends or fails; `none` where it is no directory.
  pub directory_names : Text → S → Option (List Text)
  pub read_write :
      (path content : Text) (s t : S)
      → write_file_secure path content s ≡ (true, t)
      → read_file_secure t path ≡ some content
  pub read_write_other :
      (path content other : Text) (s : S)
      → ((other ≡ path) → ⊥)
      → read_file_secure (write_file_secure path content s).1 other ≡ read_file_secure s other
  pub read_ensure :
      (dir path : Text) (s : S)
      → read_file_secure (ensure_private_directory dir s).1 path ≡ read_file_secure s path

-- `k_persist_ttl`, in seconds.
abbrev pub k_persist_ttl : ℕ
k_persist_ttl = 15 * 60

-- `dir_`
unfoldable pub ticket_dir : Text → Text
ticket_dir sanctuary = append_path sanctuary (codes "timestamp")

unfoldable pub ticket_name : ℕ → ℕ → Text
ticket_name caller_uid target_uid = to_string caller_uid ++ b'-' ∷ to_string target_uid

unfoldable pub path_for : Text → ℕ → ℕ → Text
unfolding ticket_name
path_for dir caller_uid target_uid = append_path dir (ticket_name caller_uid target_uid)

-- The comparison of the times, in seconds: a time of 2^63 or more is a negative `seconds` count.
unfoldable pub fresh : ℕ → ℕ → ℕ → Bool
fresh now ttl epoch =
    if ltb epoch (2 ^ 63)
    then if ltb now epoch then false else leb (now - epoch) ttl
    else leb (now + (2 ^ 64 - epoch)) ttl

abbrev fresh_parsed : ℕ → ℕ → Option ℕ → Bool
fresh_parsed now ttl none = false
fresh_parsed now ttl (some epoch) = fresh now ttl epoch

-- A file that cannot be read, an empty one and one without digits are no ticket.
abbrev valid_content : ℕ → ℕ → Option Text → Bool
valid_content now ttl none = false
valid_content now ttl (some content) =
    if is_empty content then false else fresh_parsed now ttl (strtoull content)

module _ {S : Type 0} (files : PrivateFiles S) where
  unfoldable pub valid : S → Text → ℕ → ℕ → ℕ → ℕ → Bool
  valid s dir now ttl caller_uid target_uid =
      valid_content now ttl (files.read_file_secure s (path_for dir caller_uid target_uid))

  unfoldable pub record_ticket : Text → ℕ → ℕ → ℕ → S → Bool × S
  record_ticket dir now caller_uid target_uid s =
      let (ok, t) = files.ensure_private_directory dir s in
      if not ok
      then (false, t)
      else files.write_file_secure (path_for dir caller_uid target_uid) (to_string now) t

  unfoldable pub clear : Text → ℕ → ℕ → S → S
  unfolding path_for
  clear dir caller_uid target_uid s = files.remove (path_for dir caller_uid target_uid) s

  -- The loop over the directory.
  unfoldable pub clear_names : Text → Text → List Text → S → S
  clear_names dir prefix [] s = s
  clear_names dir prefix (name ∷ names) s =
      clear_names dir prefix names
        (if starts_with name prefix then files.remove (append_path dir name) s else s)

  unfoldable pub clear_all_for_caller : Text → ℕ → S → S
  unfolding clear_names
  clear_all_for_caller dir caller_uid s = elim (files.directory_names dir s) [
    | none ↦ s
    | some names ↦ clear_names dir (to_string caller_uid ++ b'-' ∷ []) names s
  ]
