-- ===== src/Tickets/Clearing.antt =====
-- src/ticket_store.cpp: `clear_all_for_caller`.
use voix.Base.{
  ℕ, ◌≡◌, refl, sym, ap, ◌∙◌, true, false, none, some, List, [], ◌∷◌, ◌++◌, Text, In, drop, length,
  starts_with, ◌==◌, nat_eq, nat_beq_iff, list_eq, list_beq_iff, arith, inl, inr, ◌⊎◌, Bool-cases,
  if◌then◌else◌,
}
use voix.Numbers.{to_string}
use voix.Paths.{append_path}
use voix.Tickets.{
  PrivateFiles, ticket_name, path_for, valid, valid_content, clear_names, clear_all_for_caller,
}

-- `std::filesystem::remove`: the file is gone, or the call fails and changes nothing; no other file is
-- touched.
pub record Removal {S : Type 0} (files : PrivateFiles S) : Type 0 where
  pub read_remove :
      (path : Text) (s : S)
      → (files.read_file_secure (files.remove path s) path ≡ none) ⊎ (files.remove path s ≡ s)
  pub read_remove_other :
      (path other : Text) (s : S)
      → ((other ≡ path) → ⊥)
      → files.read_file_secure (files.remove path s) other ≡ files.read_file_secure s other

-- Removing the file does not fail.
abbrev pub Removable : {S : Type 0} → PrivateFiles S → Text → Type 0
Removable {S} files path = (s : S) → files.read_file_secure (files.remove path s) path ≡ none

pub starts_with-append : (prefix rest : Text) → starts_with (prefix ++ rest) prefix ≡ true
unfolding starts_with
starts_with-append [] rest = refl
starts_with-append (p ∷ ps) rest =
    ground (arith, (nat_beq_iff p p).1 refl, starts_with-append ps rest)

pub drop_behind : (xs rest : Text) → drop (length xs) (xs ++ rest) ≡ rest
drop_behind [] rest = refl
drop_behind (x ∷ xs) rest = drop_behind xs rest

pub dash_behind : (xs rest : Text) (c : ℕ) → (xs ++ c ∷ []) ++ rest ≡ xs ++ c ∷ rest
dash_behind [] rest c = refl
dash_behind (x ∷ xs) rest c = ap (λ ys. x ∷ ys) (dash_behind xs rest c)

-- The names that are removed for a caller.
caller_prefix : ℕ → Text
caller_prefix c = to_string c ++ b'-' ∷ []

ticket_name-prefix : (c t : ℕ) → starts_with (ticket_name c t) (caller_prefix c) ≡ true
unfolding ticket_name caller_prefix
ticket_name-prefix c t =
    rw (dash_behind (to_string c) (to_string t) b'-') at
      (starts_with-append (to_string c ++ b'-' ∷ []) (to_string t))

module _ {S : Type 0} (files : PrivateFiles S) (dir : Text) (law : Removal files) where
  remove-none :
      (path p : Text) (s : S)
      → files.read_file_secure s p ≡ none
      → files.read_file_secure (files.remove path s) p ≡ none
  remove-none path p s e = elim (Bool-cases (path == p)) [
    | inl same ↦
        let is = (list_beq_iff path p).0 same in
        elim (law.read_remove path s) [ inl gone ↦ rw (sym is) gone | inr failed ↦ rw failed e ]
    | inr apart ↦
        law.read_remove_other path p s
          (λ is. let same = (list_beq_iff path p).1 (sym is) in absurd (ground arith))
        ∙ e
  ]

  abbrev step : Text → Text → S → S
  step prefix name s = if starts_with name prefix then files.remove (append_path dir name) s else s

  step-none :
      (prefix name p : Text) (s : S)
      → files.read_file_secure s p ≡ none
      → files.read_file_secure (step prefix name s) p ≡ none
  step-none prefix name p s e = elim (Bool-cases (starts_with name prefix)) [
    | inl removed ↦ rw removed (remove-none (append_path dir name) p s e)
    | inr left ↦ rw left e
  ]

  clear_names-none :
      (prefix p : Text) (names : List Text) (s : S)
      → files.read_file_secure s p ≡ none
      → files.read_file_secure (clear_names files dir prefix names s) p ≡ none
  unfolding clear_names
  clear_names-none prefix p [] s e = e
  clear_names-none prefix p (name ∷ names) s e =
      clear_names-none prefix p names (step prefix name s) (step-none prefix name p s e)

  clear_names-In :
      (prefix entry : Text) (names : List Text) (s : S)
      → In entry names
      → starts_with entry prefix ≡ true
      → Removable files (append_path dir entry)
      → files.read_file_secure (clear_names files dir prefix names s) (append_path dir entry) ≡ none
  unfolding clear_names
  clear_names-In prefix entry [] s h e removable = absurd h
  clear_names-In prefix entry (name ∷ names) s (inr later) e removable =
      clear_names-In prefix entry names (step prefix name s) later e removable
  clear_names-In prefix entry (name ∷ names) s (inl is) e removable =
      clear_names-none prefix (append_path dir entry) names (step prefix name s)
        (rw (sym is, e) (removable s))

  read-clear_all :
      (s : S) (c t : ℕ) (names : List Text)
      → files.directory_names dir s ≡ some names
      → In (ticket_name c t) names
      → Removable files (path_for dir c t)
      → files.read_file_secure (clear_all_for_caller files dir c s) (path_for dir c t) ≡ none
  unfolding clear_all_for_caller path_for caller_prefix
  read-clear_all s c t names names_are listed removable =
      rw (clear_all_for_caller, names_are)
        (clear_names-In (caller_prefix c) (ticket_name c t) names s listed (ticket_name-prefix c t)
          removable)

  -- The ticket of one target, for the command line.
  pub valid-clear_listed :
      (s : S) (caller_uid target_uid now ttl : ℕ) (names : List Text)
      → files.directory_names dir s ≡ some names
      → In (ticket_name caller_uid target_uid) names
      → Removable files (path_for dir caller_uid target_uid)
      → valid files (clear_all_for_caller files dir caller_uid s) dir now ttl caller_uid target_uid
        ≡ false
  unfolding valid
  valid-clear_listed s c t now ttl names names_are listed removable =
      ap (valid_content now ttl) (read-clear_all s c t names names_are listed removable)
