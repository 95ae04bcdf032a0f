-- ===== src/Environment/Table.antt =====
-- Lists of environment entries: `set_entry` of `build_environment`, and `setenv`.
use voix.Base.{
  ◌≡◌, refl, Bool, true, false, not, ◌&&◌, Option, none, some, List, [], ◌∷◌, Text, contains,
  is_empty, ◌==◌, nat_eq, list_eq, list_beq_iff, if◌then◌else◌, arith, inl, inr, Bool-cases, ap,
  ◌∙◌,
}

abbrev pub Env : Type 0
Env = List (Text × Text)

-- The value of the first entry of that name, which is what `getenv` gives.
unfoldable pub get_env : Text → Env → Option Text
get_env key [] = none
get_env key ((k, v) ∷ env) = if k == key then some v else get_env key env

-- The first entry of that name gets the value; a new entry goes to the end.
unfoldable pub set_entry : Env → Text → Text → Env
set_entry [] key v = (key, v) ∷ []
set_entry ((k, w) ∷ env) key v =
    let rest = set_entry env key v in if k == key then (k, v) ∷ env else (k, w) ∷ rest

-- `if (on) set_entry(env, key, v);`
unfoldable pub set_if : Bool → Env → Text → Text → Env
set_if on env key v = if on then set_entry env key v else env

abbrev pub is_valid_name : Text → Bool
is_valid_name key = not (is_empty key) && not (contains key b'=')

-- `setenv(key, value, 1)`: an empty name or one with '=' is refused, and the code goes on.
unfoldable pub setenv : Env → Text → Text → Env
setenv env key v = if is_valid_name key then set_entry env key v else env

unfoldable pub setenv_all : Env → Env → Env
unfolding setenv set_entry
setenv_all env [] = env
setenv_all env ((k, v) ∷ entries) = setenv_all (setenv env k v) entries

pub get_env-set_entry :
    (j k v : Text) (env : Env)
    → get_env j (set_entry env k v) ≡ (if k == j then some v else get_env j env)
unfolding get_env set_entry
get_env-set_entry j k v [] = refl
get_env-set_entry j k v ((i, w) ∷ env) =
    ground
      (arith, list_beq_iff i k, list_beq_iff k j, list_beq_iff i j, get_env-set_entry j k v env)

-- No name stands twice.
abbrev pub NodupKeys : Env → Type 0
NodupKeys [] = Unit
NodupKeys ((k, v) ∷ env) = (get_env k env ≡ none) × NodupKeys env

pub set_entry-NodupKeys : (k v : Text) (env : Env) → NodupKeys env → NodupKeys (set_entry env k v)
unfolding set_entry
set_entry-NodupKeys k v [] h = (unfold get_env in refl, tt)
set_entry-NodupKeys k v ((i, w) ∷ env) (fresh, h) = ground (
  arith,
  list_beq_iff i k,
  list_beq_iff k i,
  get_env-set_entry i k v env,
  set_entry-NodupKeys k v env h,
)

pub get_env-set_if :
    (on : Bool) (j k v : Text) (env : Env)
    → get_env j (set_if on env k v) ≡ (if on && k == j then some v else get_env j env)
unfolding set_if
get_env-set_if true j k v env = get_env-set_entry j k v env
get_env-set_if false j k v env = refl

pub set_if-NodupKeys :
    (on : Bool) (k v : Text) (env : Env) → NodupKeys env → NodupKeys (set_if on env k v)
unfolding set_if
set_if-NodupKeys true k v env h = set_entry-NodupKeys k v env h
set_if-NodupKeys false k v env h = h

-- The value of the last entry of that name, on top of an earlier value.
abbrev pub last_value : Text → Option Text → Env → Option Text
last_value j old [] = old
last_value j old ((k, v) ∷ env) = last_value j (if k == j then some v else old) env

get_env-setenv :
    (j k v : Text) (env : Env)
    → is_valid_name j ≡ true
    → get_env j (setenv env k v) ≡ (if k == j then some v else get_env j env)
unfolding setenv
get_env-setenv j k v env valid = ground (arith, get_env-set_entry j k v env, list_beq_iff k j)

-- `setenv` for each entry in order: the last entry of a name wins.
pub get_env-setenv_all :
    (j : Text) (old entries : Env)
    → is_valid_name j ≡ true
    → get_env j (setenv_all old entries) ≡ last_value j (get_env j old) entries
unfolding setenv_all
get_env-setenv_all j old [] valid = refl
get_env-setenv_all j old ((k, v) ∷ entries) valid =
    get_env-setenv_all j (setenv old k v) entries valid
    ∙ ap (λ o. last_value j o entries) (get_env-setenv j k v old valid)

last_value_fresh :
    (j : Text) (old : Option Text) (env : Env) → get_env j env ≡ none → last_value j old env ≡ old
unfolding get_env
last_value_fresh j old [] h = refl
last_value_fresh j old ((k, v) ∷ env) h = ground (arith, last_value_fresh j old env)

-- Where no name stands twice, the first entry is the last one.
pub last_value-NodupKeys :
    (j : Text) (env : Env) → NodupKeys env → last_value j none env ≡ get_env j env
unfolding get_env
last_value-NodupKeys j [] h = refl
last_value-NodupKeys j ((k, v) ∷ env) (fresh, h) = elim (Bool-cases (k == j)) [
  | inl e ↦
      let same : k ≡ j = (list_beq_iff k j).0 e in
      rw e (last_value_fresh j (some v) env (rw (← same) fresh))
  | inr e ↦ rw e (last_value-NodupKeys j env h)
]
