-- ===== src/Identity/Lookup.antt =====
-- src/system_utils.cpp: the lookups that grow a buffer until the C library's answer fits into it, and
-- the functions that read the answers.
use voix.Base.{
  ℕ, zero, suc, ◌+◌, ◌*◌, ◌≤◌, ◌≡◌, ◌⊎◌, refl, Bool, false, not, ◌&&◌, ◌||◌, Option, none, some,
  List, [], ◌∷◌, Text, codes, is_empty, find_char, take, drop, starts_with, arith, inl, inr, ◌==◌,
  nat_eq, list_eq,
}
use voix.Identity.{Accounts, PasswdEntry}
use voix.Environment.Table.{Env, setenv}

-- What `getpwnam_r` and its kin give for a buffer of some size: ERANGE, no entry, or an entry.
pub data Looked (A : Type 0) : Type 0 where
  erange missing : Looked A
  found : A → Looked A

-- The loop, on fuel: `none` where the fuel does not reach.
unfoldable pub lookup : {A : Type 0} → (ℕ → Looked A) → ℕ → ℕ → Option (Option A)
lookup ask zero size = none
lookup ask (suc fuel) size = elim (ask size) [
  | erange ↦ lookup ask fuel (size * 2)
  | missing ↦ some none
  | found entry ↦ some (some entry)
]

abbrev pub k_get_pw_buffer_fallback_size : ℕ
k_get_pw_buffer_fallback_size = 16384

-- `make_passwd_buffer`, by what `sysconf` knows.
unfoldable pub passwd_buffer_size : Option ℕ → ℕ
passwd_buffer_size none = k_get_pw_buffer_fallback_size
passwd_buffer_size (some size) = size

-- The user database as the C library gives it, for a buffer of some size.
pub record Database : Type 0 where
  pub buffer_size : Option ℕ  -- `sysconf(_SC_GETPW_R_SIZE_MAX)`
  pub getpwnam_r : Text → ℕ → Looked PasswdEntry
  pub getpwuid_r : ℕ → ℕ → Looked PasswdEntry
  pub getgrnam_r : Text → ℕ → Looked ℕ

unfoldable pub lookup_passwd_by_name : Database → ℕ → Text → Option (Option PasswdEntry)
unfolding lookup passwd_buffer_size
lookup_passwd_by_name db fuel name =
    lookup (db.getpwnam_r name) fuel (passwd_buffer_size db.buffer_size)

unfoldable pub lookup_passwd_by_uid : Database → ℕ → ℕ → Option (Option PasswdEntry)
unfolding lookup passwd_buffer_size
lookup_passwd_by_uid db fuel uid =
    lookup (db.getpwuid_r uid) fuel (passwd_buffer_size db.buffer_size)

unfoldable pub get_gid_by_name : Database → ℕ → Text → Option (Option ℕ)
unfolding lookup
get_gid_by_name db fuel name = lookup (db.getgrnam_r name) fuel 1024

-- The entry of an answer that fits.
abbrev pub entry_of : {A : Type 0} → Looked A → Option (Option A)
entry_of erange = none
entry_of missing = some none
entry_of (found entry) = some (some entry)

Looked-cases :
    {A : Type 0} (answer : Looked A)
    → (answer ≡ erange) ⊎ ((r : Option A) × (entry_of answer ≡ some r))
Looked-cases erange = inl refl
Looked-cases missing = inr (none, refl)
Looked-cases (found entry) = inr (some entry, refl)

module _ {A : Type 0} (ask : ℕ → Looked A) (bound : ℕ)
    (fits : (size : ℕ) → bound ≤ size → ask size ≡ erange → ⊥) where
  answered :
      (answer : Looked A) (fuel size : ℕ) (r : Option A)
      → entry_of answer ≡ some r
      → (elim answer [
        | erange ↦ lookup ask fuel (size * 2)
        | missing ↦ some none
        | found entry ↦ some (some entry)
      ])
        ≡ some r
  answered erange fuel size r e = absurd (ground arith)
  answered missing fuel size r e = e
  answered (found entry) fuel size r e = e

  lookup_from :
      (fuel size : ℕ)
      → 1 ≤ size
      → bound ≤ fuel + size
      → (r : Option A) × (at_size : ℕ) × (lookup ask (suc fuel) size ≡ some r)
        × (entry_of (ask at_size) ≡ some r)
  unfolding lookup
  lookup_from zero size positive reaches = elim (Looked-cases (ask size)) [
    | inr (r, is) ↦ (r, size, answered (ask size) zero size r is, is)
    | inl small ↦ absurd (fits size (omega (arith, reaches)) small)
  ]
  lookup_from (suc fuel) size positive reaches = elim (Looked-cases (ask size)) [
    | inr (r, is) ↦ (r, size, answered (ask size) (suc fuel) size r is, is)
    | inl small ↦
        let (r, at_size, got, of_library) =
          lookup_from fuel (size * 2) (omega (arith, positive))
            (omega (arith, positive, reaches)) in
        (r, at_size, rw (lookup, small) got, of_library)
  ]

  -- Where a buffer of some size is enough for the answer, the loop ends, from any buffer that is not
  -- empty, within as many rounds as that size and one more; its result is an answer of the library.
  pub lookup-ends :
      (size : ℕ)
      → 1 ≤ size
      → (r : Option A) × (at_size : ℕ) × (lookup ask (suc bound) size ≡ some r)
        × (entry_of (ask at_size) ≡ some r)
  lookup-ends size positive = lookup_from bound size positive (omega arith)

-- `setEnvironment`: entries without `=` are passed over.
unfoldable pub set_environment : List Text → Env → Env
unfolding setenv find_char
set_environment [] env = env
set_environment (entry ∷ entries) env = set_environment entries (elim (find_char entry b'=') [
  | none ↦ env
  | some n ↦ setenv env (take n entry) (drop (suc n) entry)
])

-- The shadow database's hash of a user, and the password field that a second lookup gives.
pub record Secrets : Type 0 where
  pub shadow : Text → Option Text
  pub pw_passwd : Text → Option Text

-- `user_has_password`, by the field without a shadow entry and by the hash with one.
abbrev field_has_password : Option Text → Bool
field_has_password none = false
field_has_password (some field) = not (
    is_empty field
    || (field == codes "x"
        || (field == codes "!*"
            || (field == codes "!!"
                || (starts_with field (codes "!") || starts_with field (codes "*"))))))

abbrev hash_has_password : Text → Bool
hash_has_password hash =
    not (is_empty hash)
    && (not (hash == codes "!")
        && (not (hash == codes "*")
            && (not (hash == codes "!!")
                && (not (starts_with hash (codes "!")) && not (starts_with hash (codes "*"))))))

unfoldable pub user_has_password : Accounts → Secrets → Text → Bool
unfolding codes starts_with
user_has_password accounts secrets username = elim (secrets.shadow username) [
  | some hash ↦ hash_has_password hash
  | none ↦ elim (accounts.passwd_by_name username) [
    | none ↦ false
    | some entry ↦ field_has_password (secrets.pw_passwd username)
  ]
]
