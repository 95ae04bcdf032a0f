-- ===== src/Numbers/Laws.antt =====
-- Printing and parsing decimal numbers.
use voix.Base.{
  ℕ, zero, suc, ◌+◌, ◌-◌, ◌*◌, ◌/◌, ◌%◌, ◌^◌, ◌<◌, ◌≡◌, refl, sym, ap, ◌∙◌, Bool, true, false, some,
  [], ◌∷◌, ◌++◌, Text, is_digit, arith, ltb, nat_eq, inl, inr, Bool-cases,
}
use voix.Numbers.{
  is_space, scan_digits, digits_of, scan_number, parse_uid, strtoull, digits_onto, to_string,
}

-- A text that does not continue a number.
abbrev pub NoDigit : Text → Type 0
NoDigit [] = Unit
NoDigit (c ∷ s) = is_digit c ≡ false

scan_digits-NoDigit : (acc : ℕ) (s : Text) → NoDigit s → scan_digits acc true s ≡ (acc, true, s)
unfolding scan_digits
scan_digits-NoDigit acc [] h = refl
scan_digits-NoDigit acc (c ∷ s) h = rw h

is_digit-digit : (d : ℕ) → d < 10 → is_digit (b'0' + d) ≡ true
unfolding is_digit
is_digit-digit d h = ground arith

scan_digits-cons :
    (acc : ℕ) (found : Bool) (c : ℕ) (s : Text)
    → is_digit c ≡ true
    → scan_digits acc found (c ∷ s) ≡ scan_digits (acc * 10 + (c - b'0')) true s
unfolding scan_digits
scan_digits-cons acc found c s h = rw h

scan_digits-digits :
    (fuel n : ℕ) (acc : Text)
    → n < fuel
    → scan_digits 0 false (digits_onto fuel n acc) ≡ scan_digits n true acc
unfolding digits_onto
scan_digits-digits zero n acc h = elim h [ ]
scan_digits-digits (suc fuel) n acc h = elim (Bool-cases (ltb n 10)) [
  | inl small ↦
      let d : ℕ = b'0' + n % 10 in
      let v : 0 * 10 + (d - b'0') ≡ n = ground arith in
      rw small (rw (scan_digits-cons 0 false d acc (is_digit-digit (n % 10) (omega arith))) (rw v))
  | inr big ↦
      let d : ℕ = b'0' + n % 10 in
      let v : n / 10 * 10 + (d - b'0') ≡ n = omega arith in
      rw big (
        scan_digits-digits fuel (n / 10) (d ∷ acc) (ground arith)
        ∙ rw (scan_digits-cons (n / 10) true d acc (is_digit-digit (n % 10) (omega arith))) (rw v))
]

digits_onto-append :
    (fuel n : ℕ) (acc rest : Text)
    → digits_onto fuel n acc ++ rest ≡ digits_onto fuel n (acc ++ rest)
unfolding digits_onto
digits_onto-append zero n acc rest = refl
digits_onto-append (suc fuel) n acc rest =
    ground (arith, digits_onto-append fuel (n / 10) ((b'0' + n % 10) ∷ acc) rest)

pub to_string-append : (n : ℕ) (rest : Text) → to_string n ++ rest ≡ digits_onto (suc n) n rest
unfolding to_string
to_string-append n rest = digits_onto-append (suc n) n [] rest

scan_digits-to_string :
    (n : ℕ) (rest : Text) → scan_digits 0 false (to_string n ++ rest) ≡ scan_digits n true rest
scan_digits-to_string n rest = rw to_string-append (scan_digits-digits (suc n) n rest (omega arith))

-- What is printed begins with a digit.
digits_onto_head :
    (fuel n : ℕ) (acc : Text)
    → n < fuel
    → (d : ℕ) × (s : Text) × (digits_onto fuel n acc ≡ d ∷ s) × (is_digit d ≡ true)
unfolding digits_onto
digits_onto_head zero n acc h = elim h [ ]
digits_onto_head (suc fuel) n acc h = elim (Bool-cases (ltb n 10)) [
  | inl small ↦ (b'0' + n % 10, acc, rw small, is_digit-digit (n % 10) (omega arith))
  | inr big ↦ rw big (digits_onto_head fuel (n / 10) ((b'0' + n % 10) ∷ acc) (ground arith))
]

scan_number-digit :
    (d : ℕ) (s : Text) → is_digit d ≡ true → scan_number (d ∷ s) ≡ digits_of false (d ∷ s)
unfolding scan_number is_digit is_space
scan_number-digit d s h = ground arith

digits_of-some :
    (negative : Bool) (s : Text) (n : ℕ) (rest : Text)
    → scan_digits 0 false s ≡ (n, true, rest)
    → digits_of negative s ≡ some (record { negative = negative; magnitude = n; end = rest })
unfolding digits_of
digits_of-some negative s n rest h = rw h

scan_number-to_string :
    (n : ℕ) (rest : Text)
    → NoDigit rest
    → scan_number (to_string n ++ rest)
      ≡ some (record { negative = false; magnitude = n; end = rest })
scan_number-to_string n rest h =
    let (d, s, e, digit) = digits_onto_head (suc n) n rest (omega arith) in
    let printed : to_string n ++ rest ≡ d ∷ s = to_string-append n rest ∙ e in
    ap scan_number printed
    ∙ scan_number-digit d s digit
    ∙ ap (digits_of false) (sym printed)
    ∙ digits_of-some false (to_string n ++ rest) n rest
        (scan_digits-to_string n rest ∙ scan_digits-NoDigit n rest h)

-- Reading back what `std::to_string` printed, in front of a text that does not go on with a digit.
pub strtoull-to_string :
    (n : ℕ) (rest : Text) → n < 2 ^ 64 → NoDigit rest → strtoull (to_string n ++ rest) ≡ some n
unfolding strtoull
strtoull-to_string n rest small h = rw (scan_number-to_string n rest h, strtoull) (ground arith)

-- Every 32-bit user id is read back from what `std::to_string` printed.
pub parse_uid-to_string : (n : ℕ) → n < 2 ^ 32 → parse_uid (to_string n ++ []) ≡ some n
unfolding parse_uid
parse_uid-to_string n small = rw (scan_number-to_string n [] tt, parse_uid) (ground arith)

-- Two numbers printed in front of texts that do not go on with a digit can be told apart.
pub to_string-append_injective :
    (a b : ℕ) (s t : Text)
    → NoDigit s
    → NoDigit t
    → to_string a ++ s ≡ to_string b ++ t
    → (a ≡ b) × (s ≡ t)
to_string-append_injective a b s t hs ht e =
    let left : scan_digits 0 false (to_string a ++ s) ≡ (a, true, s) =
      scan_digits-to_string a s ∙ scan_digits-NoDigit a s hs in
    let right : scan_digits 0 false (to_string b ++ t) ≡ (b, true, t) =
      scan_digits-to_string b t ∙ scan_digits-NoDigit b t ht in
    let same : ◌≡◌ {A = ℕ × Bool × Text} (a, true, s) (b, true, t) =
      sym left ∙ ap (scan_digits 0 false) e ∙ right in
    (ap (λ p. p.0) same, ap (λ p. p.2) same)

-- What `std::to_string` prints begins with a digit.
pub to_string-head : (n : ℕ) → (d : ℕ) × (s : Text) × (to_string n ≡ d ∷ s) × (is_digit d ≡ true)
unfolding to_string
to_string-head n = digits_onto_head (suc n) n [] (omega arith)
