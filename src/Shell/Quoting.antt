-- ===== src/Shell/Quoting.antt =====
-- The command line of `do_exec` of src/command.cpp, read by a POSIX shell.
use mathlib.Core.List.{append_assoc, append-nil}
use voix.Base.{
  ◌≡◌, refl, sym, ap, ◌∙◌, Option, none, some, List, [], ◌∷◌, ◌++◌, Text, ◌==◌, nat_eq,
  if◌then◌else◌, arith, Bool-cases, inl, inr,
}
use voix.Shell.{escape_from, escape, full_cmd_from, full_cmd}

-- POSIX quoting, as far as the text needs it: outside quotes a space ends a word, a single quote
-- opens a quoted part, and a backslash keeps the next byte; every byte of a quoted part is kept.
-- Any other byte outside quotes, which a shell could interpret, is refused.
pub data Reading : Type 0 where
  blank word quoted kept : Reading

-- The words read so far, the word at hand, and how the next byte is read.
pub shell_words : Reading → List Text → Text → Text → Option (List Text)
shell_words blank words cur [] = some words
shell_words word words cur [] = some (words ++ cur ∷ [])
shell_words quoted words cur [] = none
shell_words kept words cur [] = none
shell_words blank words cur (c ∷ s) =
    let skip = shell_words blank words cur s in
    let open_quote = shell_words quoted words [] s in
    if c == 32 then skip else if c == 39 then open_quote else none
shell_words word words cur (c ∷ s) =
    let close = shell_words blank (words ++ cur ∷ []) [] s in
    let open_quote = shell_words quoted words cur s in
    let keep = shell_words kept words cur s in
    if c == 32 then close else if c == 39 then open_quote else if c == 92 then keep else none
shell_words quoted words cur (c ∷ s) =
    let close = shell_words word words cur s in
    let more = shell_words quoted words (cur ++ c ∷ []) s in if c == 39 then close else more
shell_words kept words cur (c ∷ s) = shell_words word words (cur ++ c ∷ []) s

-- What the loop of `escape` writes behind the first quote.
abbrev escape_body : Text → Text
escape_body [] = 39 ∷ []
escape_body (c ∷ s) = (if c == 39 then 39 ∷ 92 ∷ 39 ∷ 39 ∷ [] else c ∷ []) ++ escape_body s

escape_from-body : (acc s : Text) → escape_from acc s ≡ acc ++ escape_body s
unfolding escape_from
escape_from-body acc [] = refl
escape_from-body acc (c ∷ s) =
    let piece : Text = if c == 39 then 39 ∷ 92 ∷ 39 ∷ 39 ∷ [] else c ∷ [] in
    escape_from-body (acc ++ piece) s ∙ append_assoc acc piece (escape_body s)

shell_words-body :
    (words : List Text) (cur s rest : Text)
    → shell_words quoted words cur (escape_body s ++ rest) ≡ shell_words word words (cur ++ s) rest
unfolding shell_words
shell_words-body words cur [] rest = rw append-nil
shell_words-body words cur (c ∷ s) rest = elim (Bool-cases (c == 39)) [
  | inl e ↦
      let same : c ≡ 39 = ground arith in
      rw e (shell_words-body words (cur ++ 39 ∷ []) s rest ∙ rw append_assoc (rw same refl))
  | inr e ↦ rw e (rw e (shell_words-body words (cur ++ c ∷ []) s rest ∙ rw append_assoc refl))
]

shell_words-escape :
    (words : List Text) (s rest : Text)
    → shell_words blank words [] (escape s ++ rest) ≡ shell_words word words s rest
unfolding escape shell_words
shell_words-escape words s rest =
    rw (escape_from-body (39 ∷ []) s) (shell_words-body words [] s rest)

abbrev quoted_args : List Text → Text
quoted_args [] = []
quoted_args (arg ∷ args) = 32 ∷ escape arg ++ quoted_args args

full_cmd_from-quoted_args :
    (acc : Text) (args : List Text) → full_cmd_from acc args ≡ acc ++ quoted_args args
unfolding full_cmd_from
full_cmd_from-quoted_args acc [] = sym (append-nil acc)
full_cmd_from-quoted_args acc (arg ∷ args) =
    full_cmd_from-quoted_args (acc ++ 32 ∷ escape arg) args
    ∙ append_assoc acc (32 ∷ escape arg) (quoted_args args)

shell_words-quoted_args :
    (words : List Text) (cur : Text) (args : List Text)
    → shell_words word words cur (quoted_args args) ≡ some (words ++ cur ∷ args)
unfolding shell_words
shell_words-quoted_args words cur [] = refl
shell_words-quoted_args words cur (arg ∷ args) =
    shell_words-escape (words ++ cur ∷ []) arg (quoted_args args)
    ∙ shell_words-quoted_args (words ++ cur ∷ []) arg args
    ∙ ap some (append_assoc words (cur ∷ []) (arg ∷ args))

-- Whatever the command and its arguments hold, quotes and newlines too, the shell that reads the text
-- behind `-c` gets exactly the command and its arguments as words, and interprets no byte of them.
pub shell_words-full_cmd :
    (cmd_str : Text) (args : List Text)
    → shell_words blank [] [] (full_cmd cmd_str args) ≡ some (cmd_str ∷ args)
unfolding full_cmd
shell_words-full_cmd cmd_str args =
    ap (shell_words blank [] []) (full_cmd_from-quoted_args (escape cmd_str) args)
    ∙ shell_words-escape [] cmd_str (quoted_args args)
    ∙ shell_words-quoted_args [] cmd_str args
