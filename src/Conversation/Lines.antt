-- ===== src/Conversation/Lines.antt =====
-- src/pam_utils.cpp: the lines of standard input that the prompts of PAM get.
use voix.Base.{
  ℕ, ◌+◌, ◌≡◌, ◌∙◌, refl, sym, ap, Bool, true, false, Option, none, some, List, [], ◌∷◌, ◌++◌,
  codes, Text, append_nil, arith, All, nat_eq,
}
use mathlib.Core.List.{append_assoc}
use mathlib.Core.Path.{subst}
use voix.Conversation.{
  prompt_echo_off, prompt_echo_on, error_msg, text_info, Message, Console, Calls, print, hide, show,
  answer, ask_hidden, respond, answered, converse, pam_conversation,
}
use voix.Conversation.Answers.{converse-echo, append_cons}
use voix.Conversation.Reads.{
  IsLineByte, IsLine, unlines, Ready, c_string-line, read_password-line, read_line-line,
}

-- The answers that are due: each prompt takes the next line, a text takes none. There is no such list
-- where a message has another style, or the lines are not as many as the prompts.
pub data Answers : List Message → List Text → List (Option Text) → Type 0 where
  no_more : Answers [] [] []
  hidden :
      {text line : Text} {messages : List Message} {lines : List Text}
      {responses : List (Option Text)}
      → Answers messages lines responses
      → Answers
          (record { style = prompt_echo_off; text = text } ∷ messages)
          (line ∷ lines)
          (some line ∷ responses)
  visible :
      {text line : Text} {messages : List Message} {lines : List Text}
      {responses : List (Option Text)}
      → Answers messages lines responses
      → Answers
          (record { style = prompt_echo_on; text = text } ∷ messages)
          (line ∷ lines)
          (some line ∷ responses)
  error :
      {text : Text} {messages : List Message} {lines : List Text} {responses : List (Option Text)}
      → Answers messages lines responses
      → Answers (record { style = error_msg; text = text } ∷ messages) lines (none ∷ responses)
  info :
      {text : Text} {messages : List Message} {lines : List Text} {responses : List (Option Text)}
      → Answers messages lines responses
      → Answers (record { style = text_info; text = text } ∷ messages) lines (none ∷ responses)

-- The message is answered, and the console is ready with the rest of the input.
abbrev Gives : Option Text → Text → Option (Option Text) × Console → Type 0
Gives given rest (response, u) = (response ≡ some given) × Ready rest u

module _ (calls : Calls) (copies : (i : ℕ) → calls.strdup_ok i ≡ true) where
  hide-Ready : (input : Text) (t : Console) → Ready input t → Ready input (hide calls t)
  unfolding hide
  hide-Ready input t (good, is) = ground arith

  show-Ready :
      (input : Text) (echo : Bool) (t : Console) → Ready input t → Ready input (show calls echo t)
  unfolding show
  show-Ready input echo t (good, is) = ground arith

  answer-Gives :
      (i : ℕ) (line rest : Text) (u : Console)
      → All IsLineByte line
      → Ready rest u
      → Gives (some line) rest (answer calls i (line, u))
  answer-Gives i line rest u plain ready =
      (rw (copies i) (ap (λ s. some (some s)) (c_string-line line plain)), ready)

  hidden-Gives :
      (i : ℕ) (text line rest : Text) (t : Console)
      → IsLine line
      → Ready (line ++ 10 ∷ rest) t
      → Gives (some line) rest (respond calls i (record { style = prompt_echo_off; text = text }) t)
  unfolding respond ask_hidden
  hidden-Gives i text line rest t is ready =
      let asked = print text (hide calls t) in
      let read = read_password-line asked line rest is (hide-Ready (line ++ 10 ∷ rest) t ready) in
      let shown = show calls t.echo (record asked { input = rest; bad = false }) in
      let given =
        answer-Gives i line rest (print (codes "\n") shown) is.0
          (show-Ready rest t.echo (record asked { input = rest; bad = false }) (refl, refl)) in
      subst
        (λ p.
          Gives (some line) rest (answer calls i (p.0, print (codes "\n") (show calls t.echo p.1))))
        (sym read) given

  visible-Gives :
      (i : ℕ) (text line rest : Text) (t : Console)
      → IsLine line
      → Ready (line ++ 10 ∷ rest) t
      → Gives (some line) rest (respond calls i (record { style = prompt_echo_on; text = text }) t)
  unfolding respond
  visible-Gives i text line rest t is ready =
      let read = read_line-line (print text t) line rest is.0 ready in
      let given =
        answer-Gives i line rest (record (print text t) { input = rest; bad = false }) is.0
          (refl, refl) in
      subst (λ p. Gives (some line) rest (answer calls i p)) (sym read) given

  error-Gives :
      (i : ℕ) (text input : Text) (t : Console)
      → Ready input t
      → Gives none input (respond calls i (record { style = error_msg; text = text }) t)
  unfolding respond
  error-Gives i text input t ready = (refl, ready)

  info-Gives :
      (i : ℕ) (text input : Text) (t : Console)
      → Ready input t
      → Gives none input (respond calls i (record { style = text_info; text = text }) t)
  unfolding respond
  info-Gives i text input t ready = (refl, ready)

  converse-step :
      (i : ℕ) (message : Message) (messages : List Message) (responses : List (Option Text))
      (t : Console) (given : Option Text)
      → (respond calls i message t).0 ≡ some given
      → converse calls i (message ∷ messages) responses t
        ≡ converse calls (i + 1) messages (responses ++ given ∷ []) (respond calls i message t).1
  unfolding converse
  converse-step i message messages responses t given goes_on = rw (converse, goes_on) refl

  -- What the conversation comes to.
  abbrev Ends : ℕ → List Message → List (Option Text) → List (Option Text) → Text → Console → Type 0
  Ends i messages before responses rest t =
      let r = converse calls i messages before t in
      (r.0 ≡ answered (before ++ responses)) × (r.1.input ≡ rest)

  step-Ends :
      (i : ℕ) (message : Message) (messages : List Message) (before later : List (Option Text))
      (rest : Text) (t : Console) (given : Option Text)
      → (respond calls i message t).0 ≡ some given
      → Ends (i + 1) messages (before ++ given ∷ []) later rest (respond calls i message t).1
      → Ends i (message ∷ messages) before (given ∷ later) rest t
  step-Ends i message messages before later rest t given goes_on (done, left) =
      let step = converse-step i message messages before t given goes_on in
      (
        ap (λ r. r.0) step ∙ done ∙ ap answered (append_cons before given later),
        ap (λ r. r.1.input) step ∙ left,
      )

  converse-Ends :
      (i : ℕ) {messages : List Message} {lines : List Text} {responses : List (Option Text)}
      (before : List (Option Text)) (rest : Text) (t : Console)
      → Answers messages lines responses
      → All IsLine lines
      → Ready (unlines lines ++ rest) t
      → Ends i messages before responses rest t
  unfolding unlines
  converse-Ends i before rest t no_more plain (good, input) =
      unfold converse in (ap answered (sym (append_nil before)), input)
  converse-Ends i before rest t (hidden {text} {line} {messages} {lines} {responses} due)
        (is, plain) (good, input) =
      let (goes_on, ready) =
        hidden-Gives i text line (unlines lines ++ rest) t is
          (good, input ∙ append_assoc line (10 ∷ unlines lines) rest) in
      step-Ends i _ messages before responses rest t (some line) goes_on
        (converse-Ends (i + 1) (before ++ some line ∷ []) rest _ due plain ready)
  converse-Ends i before rest t (visible {text} {line} {messages} {lines} {responses} due)
        (is, plain) (good, input) =
      let (goes_on, ready) =
        visible-Gives i text line (unlines lines ++ rest) t is
          (good, input ∙ append_assoc line (10 ∷ unlines lines) rest) in
      step-Ends i _ messages before responses rest t (some line) goes_on
        (converse-Ends (i + 1) (before ++ some line ∷ []) rest _ due plain ready)
  converse-Ends i before rest t (error {text} {messages} {lines} {responses} due) plain ready =
      let (goes_on, later) = error-Gives i text (unlines lines ++ rest) t ready in
      step-Ends i _ messages before responses rest t none goes_on
        (converse-Ends (i + 1) (before ++ none ∷ []) rest _ due plain later)
  converse-Ends i before rest t (info {text} {messages} {lines} {responses} due) plain ready =
      let (goes_on, later) = info-Gives i text (unlines lines ++ rest) t ready in
      step-Ends i _ messages before responses rest t none goes_on
        (converse-Ends (i + 1) (before ++ none ∷ []) rest _ due plain later)

  -- Where standard input holds a line for each prompt, of at most 511 bytes and none of them zero, the
  -- memory suffices and the terminal's settings can be restored, the conversation succeeds: each prompt,
  -- hidden or visible, is answered with the next of the lines, in order and unchanged, and a text with
  -- none; the input behind the lines is left, and the terminal's echo is as before.
  pub pam_conversation-Answers :
      {messages : List Message} {lines : List Text} {responses : List (Option Text)} (rest : Text)
      (t : Console)
      → Answers messages lines responses
      → All IsLine lines
      → Ready (unlines lines ++ rest) t
      → calls.calloc_ok ≡ true
      → calls.restore_ok ≡ true
      → let r = pam_conversation calls messages t in
        (r.0 ≡ answered responses) × (r.1.input ≡ rest) × (r.1.echo ≡ t.echo)
  unfolding pam_conversation
  pam_conversation-Answers {messages} rest t due plain ready memory restores =
      let (done, left) = converse-Ends 0 [] rest t due plain ready in
      let echo = converse-echo calls 0 messages [] t restores in rw memory (done, left, echo)
