-- ===== src/Permission/Denials.antt =====
-- The inner loop of `list_permitted_entries` of src/permission_checker.cpp: what the denials met so
-- far do to a permit.
use voix.Base.{
  ℕ, ◌≡◌, refl, Bool, true, false, some, List, [], ◌∷◌, ◌++◌, Text, All, arith, inl, inr, ◌⊎◌,
  Bool-cases,
}
use voix.Permission.{Scope, Coverage, uncovered, partial, full, scope_coverage, qualify}
use voix.Permission.Overlap.{scope_matches, scope_coverage_full, scope_coverage_uncovered}

pub All-snoc :
    {A : Type 0} (P : A → Type 0) (xs : List A) (y : A) → All P xs → P y → All P (xs ++ y ∷ [])
All-snoc P [] y h p = (p, tt)
All-snoc P (x ∷ xs) y (hx, h) p = (hx, All-snoc P xs y h p)

pub All-init : {A : Type 0} (P : A → Type 0) (xs : List A) (y : A) → All P (xs ++ y ∷ []) → All P xs
All-init P [] y h = tt
All-init P (x ∷ xs) y (hx, h) = (hx, All-init P xs y h)

pub All-last : {A : Type 0} (P : A → Type 0) (xs : List A) (y : A) → All P (xs ++ y ∷ []) → P y
All-last P [] y (p, _) = p
All-last P (x ∷ xs) y (hx, h) = All-last P xs y h

Coverage-cases : (v : Coverage) → (v ≡ full) ⊎ (v ≡ partial) ⊎ (v ≡ uncovered)
Coverage-cases full = inl refl
Coverage-cases partial = inr (inl refl)
Coverage-cases uncovered = inr (inr refl)

module _ (command : Text) (target : ℕ) (args : List Text) where
  -- No scope of the list holds the request.
  abbrev pub Clear : List Scope → Type 0
  Clear = All (λ s. scope_matches s command target args ≡ false)

  -- A permit that holds the request is not suppressed by denials that do not.
  pub qualify-of_Clear :
      (denied : List Scope) (scope : Scope) (b : Bool)
      → Clear denied
      → scope_matches scope command target args ≡ true
      → (c : Bool) × (qualify denied scope b ≡ some c)
  unfolding qualify
  qualify-of_Clear [] scope b clear h = (b, refl)
  qualify-of_Clear (deny ∷ denied) scope b (miss, clear) h =
      elim (Coverage-cases (scope_coverage deny scope)) [
        | inl e ↦ cc (scope_coverage_full deny scope command target args e h)
        | inr (inl e) ↦ rw (e, qualify) (qualify-of_Clear denied scope true clear h)
        | inr (inr e) ↦ rw (e, qualify) (qualify-of_Clear denied scope b clear h)
      ]

  qualify-true : (denied : List Scope) (scope : Scope) → qualify denied scope true ≡ some false → ⊥
  unfolding qualify
  qualify-true [] scope h = cc
  qualify-true (deny ∷ denied) scope h = ground (arith, qualify-true denied scope)

  miss_of_uncovered :
      (deny scope : Scope)
      → scope_coverage deny scope ≡ uncovered
      → scope_matches scope command target args ≡ true
      → scope_matches deny command target args ≡ false
  miss_of_uncovered deny scope e h = elim (Bool-cases (scope_matches deny command target args)) [
    | inr miss ↦ miss
    | inl hit ↦ cc (scope_coverage_uncovered deny scope command target args e hit)
  ]

  -- A permit that is listed without a condition is disjoint from every denial before it.
  pub Clear-of_qualify :
      (denied : List Scope) (scope : Scope)
      → qualify denied scope false ≡ some false
      → scope_matches scope command target args ≡ true
      → Clear denied
  unfolding qualify
  Clear-of_qualify [] scope q h = tt
  Clear-of_qualify (deny ∷ denied) scope q h = elim (Coverage-cases (scope_coverage deny scope)) [
    | inl e ↦ cc e
    | inr (inl e) ↦ absurd (qualify-true denied scope (rw (e, qualify) at q))
    | inr (inr e) ↦
        (miss_of_uncovered deny scope e h, Clear-of_qualify denied scope (rw (e, qualify) at q) h)
  ]
