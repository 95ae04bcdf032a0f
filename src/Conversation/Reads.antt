-- ===== src/Conversation/Reads.antt =====
-- src/pam_utils.cpp: a line of standard input, as the prompts of PAM read it.
use voix.Base.{
  ℕ, zero, suc, ◌≤◌, ◌≡◌, ◌∙◌, refl, sym, ap, Bool, false, List, [], ◌∷◌, ◌++◌, Text, length,
  append_nil, arith, All, ◌==◌, nat_eq, if◌then◌else◌,
}
use mathlib.Core.List.{append_assoc}
use voix.Conversation.{
  Console, c_string, c_getline, std_getline, read_password, read_line, line_from,
}

-- A byte that stands in a line: no newline and no zero.
abbrev pub IsLineByte : ℕ → Type 0
IsLineByte c = ((c == 10) ≡ false) × ((c == 0) ≡ false)

-- A line that fits the buffer for a password.
abbrev pub IsLine : Text → Type 0
IsLine line = All IsLineByte line × (length line ≤ 511)

-- The input of some lines.
unfoldable pub unlines : List Text → Text
unlines [] = []
unlines (line ∷ lines) = line ++ 10 ∷ unlines lines

pub c_string-line : (line : Text) → All IsLineByte line → c_string line ≡ line
unfolding c_string
c_string-line [] h = refl
c_string-line (c ∷ line) ((_, nonzero), h) = rw (nonzero, c_string-line line h) refl

c_getline-line :
    (room : ℕ) (read line rest : Text)
    → All IsLineByte line
    → length line ≤ room
    → c_getline room read (line ++ 10 ∷ rest) ≡ (read ++ line, rest, false)
unfolding c_getline
c_getline-line zero read [] rest h fits = ap (λ r. (r, rest, false)) (sym (append_nil read))
c_getline-line (suc room) read [] rest h fits = ap (λ r. (r, rest, false)) (sym (append_nil read))
c_getline-line zero read (c ∷ line) rest h fits = absurd (omega (arith, fits))
c_getline-line (suc room) read (c ∷ line) rest ((plain, _), h) fits = rw plain (
    c_getline-line room (read ++ c ∷ []) line rest h (omega (arith, fits))
    ∙ ap (λ r. (r, rest, false)) (append_assoc read (c ∷ []) line))

std_getline-line :
    (read line rest : Text)
    → All IsLineByte line
    → std_getline read (line ++ 10 ∷ rest) ≡ (read ++ line, rest, false)
unfolding std_getline
std_getline-line read [] rest h = ap (λ r. (r, rest, false)) (sym (append_nil read))
std_getline-line read (c ∷ line) rest ((plain, _), h) = rw plain (
    std_getline-line (read ++ c ∷ []) line rest h
    ∙ ap (λ r. (r, rest, false)) (append_assoc read (c ∷ []) line))

unless : {A : Type 0} (b : Bool) (x y : A) → b ≡ false → (if b then x else y) ≡ y
unless b x y e = rw e refl

-- A console that is ready to give a line, with some input behind it.
abbrev pub Ready : Text → Console → Type 0
Ready input t = (t.bad ≡ false) × (t.input ≡ input)

pub read_password-line :
    (t : Console) (line rest : Text)
    → IsLine line
    → Ready (line ++ 10 ∷ rest) t
    → read_password t ≡ (line, record t { input = rest; bad = false })
unfolding read_password
read_password-line t line rest (plain, fits) (good, input) =
    unless t.bad ([], t) (line_from t (c_getline 511 [] t.input)) good
    ∙ ap (line_from t) (ap (c_getline 511 []) input ∙ c_getline-line 511 [] line rest plain fits)

pub read_line-line :
    (t : Console) (line rest : Text)
    → All IsLineByte line
    → Ready (line ++ 10 ∷ rest) t
    → read_line t ≡ (line, record t { input = rest; bad = false })
unfolding read_line
read_line-line t line rest plain (good, input) =
    unless t.bad ([], t) (line_from t (std_getline [] t.input)) good
    ∙ ap (line_from t) (ap (std_getline []) input ∙ std_getline-line [] line rest plain)
