-- ===== src/Tickets/Validity.antt =====
-- src/ticket_store.cpp: how long a ticket is valid, and for whom.
use voix.Base.{
  ℕ, ◌-◌, ◌^◌, ◌<◌, ◌≡◌, refl, ap, ◌∙◌, true, false, not, ◌&&◌, some, [], ◌∷◌, ◌++◌, Text, is_empty,
  leb, ltb, arith, Bool-cases, inl, inr, is_digit, append_nil, append-left_injective, list_eq,
}
use voix.Numbers.{to_string, strtoull}
use voix.Numbers.Laws.{strtoull-to_string, to_string-append_injective, to_string-head}
use voix.Paths.{append_path, is_absolute, filename}
use voix.Tickets.{PrivateFiles, ticket_name, path_for, fresh, valid, valid_content, record_ticket}

is_empty-to_string : (n : ℕ) → is_empty (to_string n) ≡ false
is_empty-to_string n = let (d, s, e, _) = to_string-head n in rw e refl

strtoull-printed : (n : ℕ) → n < 2 ^ 64 → strtoull (to_string n) ≡ some n
strtoull-printed n small = rw (append_nil (to_string n)) at (strtoull-to_string n [] small tt)

-- Behind a directory, a name that is not absolute.
pub append_path-injective :
    (dir a b : Text)
    → is_absolute a ≡ false
    → is_absolute b ≡ false
    → append_path dir a ≡ append_path dir b
    → a ≡ b
unfolding append_path
append_path-injective dir a b ha hb e = elim (Bool-cases (is_empty (filename dir))) [
  | inl ends ↦ append-left_injective dir a b (ground arith)
  | inr inside ↦
      let slashed : b'/' ∷ a ≡ b'/' ∷ b =
        append-left_injective dir (b'/' ∷ a) (b'/' ∷ b) (ground arith) in
      ground arith
]

pub is_absolute-ticket_name : (c t : ℕ) → is_absolute (ticket_name c t) ≡ false
unfolding ticket_name is_absolute
is_absolute-ticket_name c t =
    let (d, s, e, digit) = to_string-head c in rw e (unfold is_digit in ground arith)

path_for-injective :
    (dir : Text) (c t c' t' : ℕ) → path_for dir c t ≡ path_for dir c' t' → (c ≡ c') × (t ≡ t')
unfolding path_for ticket_name
path_for-injective dir c t c' t' e =
    let dash : is_digit b'-' ≡ false = unfold is_digit in refl in
    let named =
      append_path-injective dir _ _ (is_absolute-ticket_name c t) (is_absolute-ticket_name c' t')
        e in
    let (same_c, rest) =
      to_string-append_injective c c' (b'-' ∷ to_string t) (b'-' ∷ to_string t') dash dash named in
    let behind : to_string t ++ [] ≡ to_string t' ++ [] = ground arith in
    (same_c, (to_string-append_injective t t' [] [] tt tt behind).0)

module _ {S : Type 0} (files : PrivateFiles S) (dir : Text) where
  valid_of_content :
      (s : S) (now ttl c t : ℕ) (content : Text) (epoch : ℕ)
      → files.read_file_secure s (path_for dir c t) ≡ some content
      → is_empty content ≡ false
      → strtoull content ≡ some epoch
      → valid files s dir now ttl c t ≡ fresh now ttl epoch
  unfolding valid
  valid_of_content s now ttl c t content epoch e full parsed = rw (e, full, parsed) refl

  fresh_lem :
      (now later ttl : ℕ)
      → now < 2 ^ 63
      → fresh later ttl now ≡ not (ltb later now) && leb (later - now) ttl
  unfolding fresh
  fresh_lem now later ttl small = ground arith

  recorded :
      (s t : S) (c u now : ℕ)
      → record_ticket files dir now c u s ≡ (true, t)
      → files.read_file_secure t (path_for dir c u) ≡ some (to_string now)
  unfolding record_ticket
  recorded s t c u now e = elim (Bool-cases (files.ensure_private_directory dir s).0) [
    | inl ready ↦
        files.read_write (path_for dir c u) (to_string now) (files.ensure_private_directory dir s).1
          t (ground arith)
    | inr failed ↦ absurd (ground arith)
  ]

  -- A ticket that was recorded is valid from then on, for as long as the limit allows and no longer.
  pub valid-record_ticket :
      (s t : S) (caller_uid target_uid now later ttl : ℕ)
      → now < 2 ^ 63
      → record_ticket files dir now caller_uid target_uid s ≡ (true, t)
      → valid files t dir later ttl caller_uid target_uid
        ≡ not (ltb later now) && leb (later - now) ttl
  valid-record_ticket s t caller_uid target_uid now later ttl small e =
      valid_of_content t later ttl caller_uid target_uid (to_string now) now
        (recorded s t caller_uid target_uid now e) (is_empty-to_string now)
        (strtoull-printed now (omega arith))
      ∙ fresh_lem now later ttl small

  -- Recording a ticket for one caller and target, whether it succeeds or not, changes nothing for any
  -- other pair.
  pub valid-record_ticket_other :
      (s : S) (caller_uid target_uid other_caller other_target now later ttl : ℕ)
      → ((other_caller ≡ caller_uid) × (other_target ≡ target_uid) → ⊥)
      → valid files
          (record_ticket files dir now caller_uid target_uid s).1
          dir
          later
          ttl
          other_caller
          other_target
        ≡ valid files s dir later ttl other_caller other_target
  unfolding valid record_ticket
  valid-record_ticket_other s c u c' u' now later ttl differ =
      elim (Bool-cases (files.ensure_private_directory dir s).0) [
        | inl ready ↦ ap (valid_content later ttl) (
            rw ready (
              files.read_write_other (path_for dir c u) (to_string now) (path_for dir c' u')
                (files.ensure_private_directory dir s).1
                (λ same. differ (path_for-injective dir c' u' c u same))
              ∙ files.read_ensure dir (path_for dir c' u') s))
        | inr failed ↦
            ap (valid_content later ttl) (rw failed (files.read_ensure dir (path_for dir c' u') s))
      ]
