-- ===== src/Security/Catastrophic.antt =====
-- `isCatastrophicCommand` of src/security.cpp: conditions under which it blocks.
use voix.Base.{
  ◌≡◌, refl, ◌∙◌, Bool, true, false, not, ◌&&◌, ◌||◌, List, [], ◌∷◌, ◌++◌, Text, codes, contains,
  any, All, In, is_empty, ◌==◌, nat_eq, list_eq, list_beq, if◌then◌else◌, arith, inl, inr,
  Bool-cases,
}
use voix.Paths.{filename_from, filename}
use voix.Files.{Kernel}
use voix.Config.{Config}
use voix.Security.{
  rm_targets_root, is_recursive_flag, is_force_flag, begins_with_dash, rm_loop,
  k_destructive_basenames, is_builtin_catastrophic, trim_left, trim_right,
  canonicalize_blocklist_path, is_catastrophic_command,
}

module _ (k : Kernel) where
  abbrev gives_recursive : Text → Bool
  gives_recursive arg = begins_with_dash arg && is_recursive_flag arg

  abbrev gives_force : Text → Bool
  gives_force arg = begins_with_dash arg && is_force_flag arg

  abbrev gives_root : Text → Bool
  gives_root arg = not (begins_with_dash arg) && rm_targets_root k arg

  -- The loop asks for three arguments, in any order.
  rm_loop-any :
      (r f t : Bool) (args : List Text)
      → rm_loop k r f t args ≡ (
          (r || any gives_recursive args)
          && ((f || any gives_force args) && (t || any gives_root args)))
  unfolding rm_loop
  rm_loop-any r f t [] = ground arith
  rm_loop-any r f t (arg ∷ args) = elim (Bool-cases (begins_with_dash arg)) [
    | inl e ↦ rw e (
        rw (rm_loop-any (r || is_recursive_flag arg) (f || is_force_flag arg) t args)
          (ground arith))
    | inr e ↦ rw e (rw (rm_loop-any r f (t || rm_targets_root k arg) args) (ground arith))
  ]

pub any-In :
    {A : Type 0} (p : A → Bool) (xs : List A) (a : A) → In a xs → p a ≡ true → any p xs ≡ true
any-In p [] a h e = absurd h
any-In p (x ∷ xs) a (inl same) e = let here : p x ≡ true = rw (← same) e in rw here
any-In p (x ∷ xs) a (inr later) e = let there = any-In p xs a later e in ground arith

-- A last byte that is not trimmed keeps everything before it.
trim_right-append :
    (p s : Text) → is_empty s ≡ false → trim_right s ≡ s → trim_right (p ++ s) ≡ p ++ s
unfolding trim_right
trim_right-append [] s full h = h
trim_right-append (c ∷ p) s full h =
    let e = trim_right-append p s full h in
    let long = is_empty-append p s full in rw e (rw long refl)
  where
    is_empty-append : (q t : Text) → is_empty t ≡ false → is_empty (q ++ t) ≡ false
    is_empty-append [] t h = h
    is_empty-append (c ∷ q) t h = refl

filename_from-append :
    (cur p name : Text) → filename_from cur (p ++ b'/' ∷ name) ≡ filename_from [] name
unfolding filename_from
filename_from-append cur [] name = refl
filename_from-append cur (c ∷ p) name =
    filename_from-append (if c == b'/' then [] else cur ++ c ∷ []) p name

-- The names of the list, as the checks read them.
abbrev IsPlainName : Text → Type 0
IsPlainName name =
    (is_empty name ≡ false)
    × (trim_right name ≡ name)
    × (filename_from [] name ≡ name)
    × ((name == codes "rm") ≡ false)
    × ((name == codes "dd") ≡ false)
    × (contains k_destructive_basenames name ≡ true)

destructive-IsPlainName : All IsPlainName k_destructive_basenames
unfolding trim_right filename_from list_beq codes contains
destructive-IsPlainName =
    let plain : (name : Text) → Text = λ name. name in
    (
      (refl, refl, refl, refl, refl, refl),
      (
        (refl, refl, refl, refl, refl, refl),
        (
          (refl, refl, refl, refl, refl, refl),
          (
            (refl, refl, refl, refl, refl, refl),
            (
              (refl, refl, refl, refl, refl, refl),
              (
                (refl, refl, refl, refl, refl, refl),
                ((refl, refl, refl, refl, refl, refl), ((refl, refl, refl, refl, refl, refl), tt)),
              ),
            ),
          ),
        ),
      ),
    )

All-In : {A : Type 0} (P : A → Type 0) (xs : List A) (a : A) → All P xs → In a xs → P a
All-In P [] a h i = absurd i
All-In P (x ∷ xs) a (p, h) (inl same) = rw same p
All-In P (x ∷ xs) a (p, h) (inr later) = All-In P xs a h later

module _ (k : Kernel) (regex_search : Text → Text → Bool) (config : Config) where
  catastrophic_of_builtin :
      (cmd : Text) (args : List Text)
      → is_empty cmd ≡ false
      → trim_right (trim_left cmd) ≡ cmd
      → is_builtin_catastrophic k (filename cmd) (filename (canonicalize_blocklist_path k cmd)) args
        ≡ true
      → is_catastrophic_command k regex_search config cmd args ≡ true
  unfolding is_catastrophic_command
  catastrophic_of_builtin cmd args full trimmed h = rw trimmed (ground arith)

  rm_name :
      (is_empty (codes "rm") ≡ false)
      × (trim_right (codes "rm") ≡ codes "rm")
      × (filename_from [] (codes "rm") ≡ codes "rm")
      × ((codes "rm" == codes "rm") ≡ true)
  unfolding trim_right filename_from list_beq codes
  rm_name = (refl, refl, refl, refl)

  builtin_of_rm :
      (resolved : Text) (args : List Text)
      → rm_loop k false false false args ≡ true
      → is_builtin_catastrophic k (codes "rm") resolved args ≡ true
  unfolding is_builtin_catastrophic
  builtin_of_rm resolved args h = rw (rm_name.3, is_builtin_catastrophic) h

  builtin_of_destructive :
      (base resolved : Text) (args : List Text)
      → IsPlainName base
      → (resolved == codes "rm") ≡ false
      → (resolved == codes "dd") ≡ false
      → is_builtin_catastrophic k base resolved args ≡ true
  unfolding is_builtin_catastrophic
  builtin_of_destructive base resolved args plain not_rm not_dd =
      rw (plain.3, not_rm, plain.4, not_dd, plain.5) refl

  trim-path :
      (d name : Text)
      → IsPlainName name
      → trim_right (trim_left (b'/' ∷ d ++ b'/' ∷ name)) ≡ b'/' ∷ d ++ b'/' ∷ name
  unfolding trim_left
  trim-path d name plain =
      trim_right-append (b'/' ∷ d) (b'/' ∷ name) refl
        (trim_right-append (b'/' ∷ []) name plain.0 plain.1)

  -- A destructive tool is blocked under every absolute path prefix, with any arguments and any
  -- configuration, unless the path leads to a file named "rm" or "dd".
  pub is_catastrophic_command-destructive :
      (d name : Text) (args : List Text)
      → In name k_destructive_basenames
      → (filename (canonicalize_blocklist_path k (b'/' ∷ d ++ b'/' ∷ name)) == codes "rm") ≡ false
      → (filename (canonicalize_blocklist_path k (b'/' ∷ d ++ b'/' ∷ name)) == codes "dd") ≡ false
      → is_catastrophic_command k regex_search config (b'/' ∷ d ++ b'/' ∷ name) args ≡ true
  is_catastrophic_command-destructive d name args listed not_rm not_dd =
      let plain = All-In IsPlainName k_destructive_basenames name destructive-IsPlainName listed in
      let base : filename (b'/' ∷ d ++ b'/' ∷ name) ≡ name =
        unfold filename in filename_from-append [] (b'/' ∷ d) name ∙ plain.2 in
      catastrophic_of_builtin (b'/' ∷ d ++ b'/' ∷ name) args refl (trim-path d name plain)
        (rw base (builtin_of_destructive name _ args plain not_rm not_dd))

  -- A command named "rm" in any directory is blocked as soon as its arguments hold, in any order and
  -- among any others, one that asks for recursion, one that asks for force, and one that is no option
  -- and leads to the root directory.
  pub is_catastrophic_command-rm :
      (d : Text) (args : List Text) (r f t : Text)
      → In r args
      → In f args
      → In t args
      → begins_with_dash r && is_recursive_flag r ≡ true
      → begins_with_dash f && is_force_flag f ≡ true
      → not (begins_with_dash t) && rm_targets_root k t ≡ true
      → is_catastrophic_command k regex_search config (b'/' ∷ d ++ b'/' ∷ codes "rm") args ≡ true
  is_catastrophic_command-rm d args r f t at_r at_f at_t hr hf ht =
      let name = rm_name in
      let base : filename (b'/' ∷ d ++ b'/' ∷ codes "rm") ≡ codes "rm" =
        unfold filename in filename_from-append [] (b'/' ∷ d) (codes "rm") ∙ name.2 in
      let trimmed =
        trim_right-append (b'/' ∷ d) (b'/' ∷ codes "rm") refl
          (trim_right-append (b'/' ∷ []) (codes "rm") name.0 name.1) in
      catastrophic_of_builtin (b'/' ∷ d ++ b'/' ∷ codes "rm") args refl
        (unfold trim_left in trimmed)
        (rw base (
          builtin_of_rm _ args (
            rm_loop-any k false false false args
            ∙ rw
                (
                  any-In (gives_recursive k) args r at_r hr,
                  any-In (gives_force k) args f at_f hf,
                  any-In (gives_root k) args t at_t ht,
                )
                refl)))
