-- ===== src/Permission/Variables.antt =====
-- `resolve_variables` of src/permission_checker.cpp: the loop over "%u" against a plain recursion.
use mathlib.Core.List.{append_assoc}
use voix.Base.{
  ℕ, zero, suc, ◌+◌, ◌<◌, ◌≤◌, ◌≡◌, refl, ap, ◌∙◌, true, false, ◌&&◌, none, some, [], ◌∷◌, ◌++◌,
  Text, arith, inl, inr, Bool-cases, Option-cases, if◌then◌else◌, length, take, drop, length-append,
  drop-append, ◌==◌, nat_eq,
}
use voix.Permission.{find_variable, resolve_loop, or_text, resolve_variables}

-- Every "%u" of the text, from the left, gives way to the user's name.
pub expand : Text → Text → Text
expand user [] = []
expand user (c ∷ []) = c ∷ []
expand user (c ∷ d ∷ s) =
    let replaced = user ++ expand user s in
    let kept = c ∷ expand user (d ∷ s) in if c == b'%' && d == b'u' then replaced else kept

module _ (user : Text) where
  expand-of_none : (s : Text) → find_variable s ≡ none → expand user s ≡ s
  unfolding expand find_variable
  expand-of_none [] h = refl
  expand-of_none (c ∷ []) h = refl
  expand-of_none (c ∷ d ∷ s) h = ground (arith, expand-of_none (d ∷ s))

  find_variable-hit :
      (c d : ℕ) (s : Text) → (c == b'%' && d == b'u') ≡ true → find_variable (c ∷ d ∷ s) ≡ some 0
  unfolding find_variable
  find_variable-hit c d s h = ground arith

  find_variable-miss :
      (c d : ℕ) (s : Text) (n : ℕ)
      → (c == b'%' && d == b'u') ≡ false
      → find_variable (c ∷ d ∷ s) ≡ some n
      → (m : ℕ) × (n ≡ suc m) × (find_variable (d ∷ s) ≡ some m)
  unfolding find_variable
  find_variable-miss c d s n miss h = elim (Option-cases (find_variable (d ∷ s))) [
    | inl e ↦ ground arith
    | inr (m, e) ↦ (m, ground arith, e)
  ]

  expand-of_some :
      (s : Text) (n : ℕ)
      → find_variable s ≡ some n
      → (expand user s ≡ take n s ++ (user ++ expand user (drop (suc (suc n)) s)))
        × (suc (suc n) ≤ length s)
  unfolding expand
  expand-of_some [] n h = unfold find_variable in cc
  expand-of_some (c ∷ []) n h = unfold find_variable in ground arith
  expand-of_some (c ∷ d ∷ s) n h = elim (Bool-cases (c == b'%' && d == b'u')) [
    | inl hit ↦
        let at_zero : n ≡ 0 = cc (find_variable-hit c d s hit) in
        rw at_zero (rw hit (refl, omega arith))
    | inr miss ↦
        let (m, same, found) = find_variable-miss c d s n miss h in
        let (e, le) = expand-of_some (d ∷ s) m found in
        rw same (rw miss (ap (λ t. c ∷ t) e, omega arith))
  ]

  length-take_le : (n : ℕ) (s : Text) → n ≤ length s → length (take n s) ≡ n
  length-take_le zero s h = refl
  length-take_le (suc n) [] h = absurd (omega arith)
  length-take_le (suc n) (c ∷ s) h = ap suc (length-take_le n s (omega arith))

  take-append_add :
      (start rest : Text) (n : ℕ) → take (length start + n) (start ++ rest) ≡ start ++ take n rest
  take-append_add [] rest n = let e : 0 + n ≡ n = omega arith in cc e
  take-append_add (c ∷ start) rest n =
      let e : suc (length start) + n ≡ suc (length start + n) = omega arith in
      rw e (ap (λ t. c ∷ t) (take-append_add start rest n))

  length-drop_lt : (n : ℕ) (s : Text) → suc n ≤ length s → length (drop (suc n) s) < length s
  length-drop_lt n [] h = absurd (omega arith)
  length-drop_lt zero (c ∷ s) h = omega arith
  length-drop_lt (suc n) (c ∷ s) h = omega (arith, length-drop_lt n s (omega arith))

  -- One round of the loop, on a text whose part `start` is done.
  resolve_loop-round :
      (fuel : ℕ) (start rest : Text) (n : ℕ)
      → find_variable rest ≡ some n
      → suc (suc n) ≤ length rest
      → resolve_loop (suc fuel) user (start ++ rest) (length start)
        ≡ resolve_loop fuel user
            ((start ++ (take n rest ++ user)) ++ drop (suc (suc n)) rest)
            (length (start ++ (take n rest ++ user)))
  unfolding resolve_loop
  resolve_loop-round fuel start rest n h le =
      let at_start : drop (length start) (start ++ rest) ≡ rest =
        ap (λ i. drop i (start ++ rest)) (omega arith) ∙ drop-append start rest 0 in
      let behind : drop (length start + n + 2) (start ++ rest) ≡ drop (suc (suc n)) rest =
        ap (λ i. drop i (start ++ rest)) (omega arith) ∙ drop-append start rest (suc (suc n)) in
      let long : length start + n + length user ≡ length (start ++ (take n rest ++ user)) = omega (
        arith,
        length-append start (take n rest ++ user),
        length-append (take n rest) user,
        length-take_le n rest (omega arith),
      ) in
      let text : (start ++ take n rest) ++ (user ++ drop (suc (suc n)) rest)
          ≡ (start ++ (take n rest ++ user)) ++ drop (suc (suc n)) rest =
        simp append_assoc in
      rw (at_start, resolve_loop)
        (rw (h, resolve_loop) (rw (take-append_add, behind) (rw text (rw long refl))))

  resolve_loop-last :
      (fuel : ℕ) (start rest : Text)
      → find_variable rest ≡ none
      → resolve_loop (suc fuel) user (start ++ rest) (length start)
        ≡ some (start ++ expand user rest)
  unfolding resolve_loop
  resolve_loop-last fuel start rest h =
      let at_start : drop (length start) (start ++ rest) ≡ rest =
        ap (λ i. drop i (start ++ rest)) (omega arith) ∙ drop-append start rest 0 in
      rw (at_start, resolve_loop) (rw (h, resolve_loop) (rw (expand-of_none rest h)))

  resolve_loop-expand :
      (fuel : ℕ) (start rest : Text)
      → length rest < fuel
      → resolve_loop fuel user (start ++ rest) (length start) ≡ some (start ++ expand user rest)
  resolve_loop-expand zero start rest h = elim h [ ]
  resolve_loop-expand (suc fuel) start rest h = elim (Option-cases (find_variable rest)) [
    | inl last ↦ resolve_loop-last fuel start rest last
    | inr (n, found) ↦
        let (e, le) = expand-of_some rest n found in
        resolve_loop-round fuel start rest n found le
        ∙ resolve_loop-expand fuel (start ++ (take n rest ++ user)) (drop (suc (suc n)) rest)
            (omega (arith, length-drop_lt (suc n) rest le))
        ∙ rw e (simp append_assoc)
  ]

-- For every user name and every text the loop ends, and it gives the text in which each "%u", from
-- the left, has given way to the name; what is put in is not searched again.
pub resolve_variables-expand :
    (user s : Text)
    → (resolve_loop (suc (length s)) user s 0 ≡ some (expand user s))
      × (resolve_variables user s ≡ expand user s)
unfolding resolve_variables
resolve_variables-expand user s =
    let e = resolve_loop-expand user (suc (length s)) [] s (omega arith) in
    (e, ap (λ o. or_text o s) e)
