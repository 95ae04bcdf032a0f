-- ===== src/Logger/Sanitized.antt =====
-- `sanitize_message` of src/logger.cpp, on messages with and without control characters.
use mathlib.Core.List.{append_assoc, append-nil}
use voix.Base.{
  ℕ, ◌≡◌, refl, sym, ap, ◌∙◌, Bool, false, ◌||◌, [], ◌∷◌, ◌++◌, Text, All, All-append, ltb, ◌==◌,
  nat_eq, arith,
}
use voix.Logger.{sanitize_byte, sanitize_from, sanitize_message}

abbrev pub is_control : ℕ → Bool
is_control c = ltb c 32 || c == 127

abbrev body : Text → Text
body [] = []
body (c ∷ s) = sanitize_byte c ++ body s

sanitize_from-body : (out s : Text) → sanitize_from out s ≡ out ++ body s
unfolding sanitize_from
sanitize_from-body out [] = sym (append-nil out)
sanitize_from-body out (c ∷ s) =
    sanitize_from-body (out ++ sanitize_byte c) s ∙ append_assoc out _ (body s)

sanitize_byte-clean : (c : ℕ) → All (λ x. is_control x ≡ false) (sanitize_byte c)
unfolding sanitize_byte
sanitize_byte-clean c = ground arith

sanitize_byte-of_clean : (c : ℕ) → is_control c ≡ false → sanitize_byte c ≡ c ∷ []
unfolding sanitize_byte
sanitize_byte-of_clean c h = ground arith

body-clean : (s : Text) → All (λ c. is_control c ≡ false) (body s)
body-clean [] = tt
body-clean (c ∷ s) = All-append _ (sanitize_byte c) (body s) (sanitize_byte-clean c) (body-clean s)

body-of_clean : (s : Text) → All (λ c. is_control c ≡ false) s → body s ≡ s
body-of_clean [] h = refl
body-of_clean (c ∷ s) (p, h) = rw (sanitize_byte-of_clean c p) (ap (λ t. c ∷ t) (body-of_clean s h))

-- No byte of a record's message is a control character, so no message can begin a line of its own
-- in the log or move the terminal's cursor.
pub sanitize_message-clean :
    (message : Text) → All (λ c. is_control c ≡ false) (sanitize_message message)
unfolding sanitize_message
sanitize_message-clean message = rw (sanitize_from-body [] message) (body-clean message)

-- A message with no control character is logged as it is.
pub sanitize_message-of_clean :
    (message : Text) → All (λ c. is_control c ≡ false) message → sanitize_message message ≡ message
unfolding sanitize_message
sanitize_message-of_clean message h = sanitize_from-body [] message ∙ body-of_clean message h
