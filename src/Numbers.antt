-- ===== src/Numbers.antt =====
-- The C library's decimal conversions, as the program uses them: `strtol` into a `uid_t`,
-- `strtoull`, and `std::to_string` of an unsigned value.
pub mod Laws
use voix.Base.{
  ℕ, zero, suc, ◌+◌, ◌-◌, ◌*◌, ◌/◌, ◌%◌, ◌^◌, Bool, true, false, ◌&&◌, ◌||◌, Option, none, some,
  List, [], ◌∷◌, Text, is_digit, leb, ltb, ◌==◌, nat_eq, if◌then◌else◌,
}

-- `std::isspace` in the C locale.
is_space : ℕ → Bool
is_space c = c == 32 || (leb 9 c && leb c 13)

skip_spaces : Text → Text
unfolding is_space
skip_spaces [] = []
skip_spaces (c ∷ s) = let rest = skip_spaces s in if is_space c then rest else c ∷ s

-- The digits at the front: their value on top of `acc`, whether there was one, and what follows.
unfoldable pub scan_digits : ℕ → Bool → Text → ℕ × Bool × Text
unfolding is_digit
scan_digits acc found [] = (acc, found, [])
scan_digits acc found (c ∷ s) =
    let rest = scan_digits (acc * 10 + (c - b'0')) true s in
    if is_digit c then rest else (acc, found, c ∷ s)

pub record Parsed : Type 0 where
  pub negative : Bool
  pub magnitude : ℕ
  pub end : Text

digits_of : Bool → Text → Option Parsed
digits_of negative s =
    let (n, found, rest) = scan_digits 0 false s in
    if found then some (record { negative = negative; magnitude = n; end = rest }) else none

-- After the spaces an optional sign; `none` where `endptr` is left at the start.
scan_signed : Text → Option Parsed
unfolding digits_of
scan_signed [] = none
scan_signed (c ∷ s) =
    if c == b'-'
    then digits_of true s
    else if c == b'+'
    then digits_of false s
    else digits_of false (c ∷ s)

unfoldable pub scan_number : Text → Option Parsed
unfolding skip_spaces scan_signed
scan_number s = scan_signed (skip_spaces s)

abbrev clamp : ℕ → ℕ → ℕ
clamp most n = if leb n most then n else most

-- `static_cast<uid_t>(strtol(s, &endptr, 10))`: clamped to a 64-bit `long`, then 32 bits of it.
cast_uid : Bool → ℕ → ℕ
cast_uid true n = (2 ^ 32 - clamp (2 ^ 63) n % 2 ^ 32) % 2 ^ 32
cast_uid false n = clamp (2 ^ 63 - 1) n % 2 ^ 32

-- `*endptr == '\0'`
abbrev at_end : Text → Bool
at_end [] = true
at_end (c ∷ s) = c == 0

-- A whole text as a user id: digits parsed, and nothing behind them.
unfoldable pub parse_uid : Text → Option ℕ
unfolding scan_number cast_uid
parse_uid s = elim (scan_number s) [
  | none ↦ none
  | some p ↦ if at_end p.end then some (cast_uid p.negative p.magnitude) else none
]

-- `strtoull(s, &end, 10)`; `none` where no digit was parsed. It negates modulo 2^64.
unfoldable pub strtoull : Text → Option ℕ
unfolding scan_number
strtoull s = elim (scan_number s) [
  | none ↦ none
  | some p ↦ some (
      if ltb (2 ^ 64 - 1) p.magnitude
      then 2 ^ 64 - 1
      else if p.negative
      then (2 ^ 64 - p.magnitude) % 2 ^ 64
      else p.magnitude)
]

-- The decimal digits of `n` in front of `acc`; `n < fuel` is enough.
unfoldable pub digits_onto : ℕ → ℕ → Text → Text
digits_onto zero n acc = acc
digits_onto (suc fuel) n acc =
    let d : ℕ = b'0' + n % 10 in
    let rest = digits_onto fuel (n / 10) (d ∷ acc) in if ltb n 10 then d ∷ acc else rest

-- `std::to_string`
unfoldable pub to_string : ℕ → Text
unfolding digits_onto
to_string n = digits_onto (suc n) n []
