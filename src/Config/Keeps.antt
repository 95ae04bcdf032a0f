-- ===== src/Config/Keeps.antt =====
-- Properties of the configuration that reading the document keeps, in src/config.cpp, step by step.
use voix.Base.{◌≡◌, refl, sym, ap, Option, none, some, List, [], ◌∷◌, arith, inl, inr}
use voix.Files.{Expected, value, Expected-cases}
use voix.Config.{Config, ConfigError}
use voix.Config.Loading.{Load, ◌>>=◌, ◌>>◌, pure, fail, modify, or_throw, fail_if, each, or_fail}

-- A step after which the property holds, wherever it held before and the step does not fail.
abbrev pub Keeps : {A : Type 0} → (Config → Type 0) → Load A → Type 0
Keeps {A} P m = (c after : Config) (a : A) → P c → m c ≡ (value a, after) → P after

-- What these steps have found where they do not fail.
pub fail_if-steps :
    (r : Option ConfigError) (c after : Config) (a : Unit {0})
    → fail_if r c ≡ (value a, after)
    → (r ≡ none) × (c ≡ after)
unfolding fail_if
fail_if-steps none c after a e = (refl, ground arith)
fail_if-steps (some x) c after a e = absurd (ground arith)

pub or_throw-steps :
    {A : Type 0} (r : Option A) (c after : Config) (a : A)
    → or_throw r c ≡ (value a, after)
    → (r ≡ some a) × (c ≡ after)
unfolding or_throw
or_throw-steps none c after a e = absurd (ground arith)
or_throw-steps (some x) c after a e = (ground arith, ground arith)

pub or_fail-steps :
    {A : Type 0} (r : Expected ConfigError A) (c after : Config) (a : A)
    → or_fail r c ≡ (value a, after)
    → (r ≡ value a) × (c ≡ after)
unfolding or_fail
or_fail-steps r c after a e = (ap (λ p. p.0) e, ap (λ p. p.1) e)

-- What a step without an error has done first.
pub read_value :
    {A B : Type 0} (m : Load A) (f : A → Load B) (c after : Config) (b : B)
    → (m >>= f) c ≡ (value b, after)
    → (a : A) × (next : Config) × (m c ≡ (value a, next)) × (f a next ≡ (value b, after))
read_value m f c after b e = elim (Expected-cases (m c).0) [
  | inl (x, is) ↦ absurd (ground arith)
  | inr (a, is) ↦ (a, (m c).1, ap (λ r. (r, (m c).1)) is, ground arith)
]

module _ (P : Config → Type 0) where
  pub bind-Keeps :
      {A B : Type 0} (m : Load A) (f : A → Load B)
      → Keeps P m
      → ((a : A) → Keeps P (f a))
      → Keeps P (m >>= f)
  bind-Keeps m f first then_keeps c after b h e =
      let (a, next, one, two) = read_value m f c after b e in
      then_keeps a next after b (first c next a h one) two

  pub then-Keeps :
      {B : Type 0} (m : Load (Unit {0})) (n : Load B) → Keeps P m → Keeps P n → Keeps P (m >> n)
  then-Keeps m n first second = bind-Keeps m (λ _. n) first (λ _. second)

  pub pure-Keeps : {A : Type 0} (a : A) → Keeps P (pure a)
  unfolding pure
  pure-Keeps a c after b h e = let same : c ≡ after = ground arith in rw (sym same) h

  pub fail-Keeps : (x : ConfigError) → Keeps P (fail x)
  unfolding fail
  fail-Keeps x c after b h e = absurd (ground arith)

  pub modify-Keeps : (f : Config → Config) → ((c : Config) → P c → P (f c)) → Keeps P (modify f)
  unfolding modify
  modify-Keeps f keeps c after b h e =
      let same : f c ≡ after = ground arith in rw (sym same) (keeps c h)

  pub or_throw-Keeps : {A : Type 0} (r : Option A) → Keeps P (or_throw r)
  unfolding or_throw
  or_throw-Keeps none c after b h e = absurd (ground arith)
  or_throw-Keeps (some a) c after b h e = let same : c ≡ after = ground arith in rw (sym same) h

  pub fail_if-Keeps : (r : Option ConfigError) → Keeps P (fail_if r)
  unfolding fail_if
  fail_if-Keeps none c after b h e = let same : c ≡ after = ground arith in rw (sym same) h
  fail_if-Keeps (some x) c after b h e = absurd (ground arith)

  pub or_fail-Keeps : {A : Type 0} (r : Expected ConfigError A) → Keeps P (or_fail r)
  unfolding or_fail
  or_fail-Keeps r c after b h e = let same : c ≡ after = ground arith in rw (sym same) h

  pub each-Keeps :
      {A : Type 0} (body : A → Load (Unit {0}))
      → ((a : A) → Keeps P (body a))
      → (xs : List A) → Keeps P (each body xs)
  unfolding each
  each-Keeps body keeps [] = pure-Keeps tt
  each-Keeps body keeps (x ∷ xs) =
      then-Keeps (body x) (each body xs) (keeps x) (each-Keeps body keeps xs)

  -- The common form: read something of the document, then go on with it.
  pub thrown-Keeps :
      {A B : Type 0} (r : Option A) (f : A → Load B)
      → ((a : A) → Keeps P (f a))
      → Keeps P (or_throw r >>= f)
  thrown-Keeps r f keeps = bind-Keeps (or_throw r) f (or_throw-Keeps r) keeps
