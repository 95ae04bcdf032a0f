-- ===== src/Conversation/Answers.antt =====
-- src/pam_utils.cpp: what PAM gets for its messages, and the terminal behind the conversation.
use voix.Base.{
  ℕ, zero, suc, ◌+◌, ◌≤◌, ◌≡◌, ◌∙◌, refl, sym, ap, true, Option, none, some, List, [], ◌∷◌, ◌++◌,
  Text, length, length-append, append_nil, arith, inl, inr, Bool-cases, Option-cases, nat_eq,
}
use voix.Conversation.{
  Style, prompt_echo_off, prompt_echo_on, error_msg, text_info, other_style, Message, Console,
  Calls, c_string, c_getline, read_password, read_line, print, hide, show, answer, ask_hidden,
  respond, answered, converse, pam_conversation,
}

c_string-length : (s : Text) → length (c_string s) ≤ length s
unfolding c_string
c_string-length [] = omega arith
c_string-length (c ∷ s) = ground (arith, c_string-length s)

c_getline-length :
    (room : ℕ) (line s : Text) → length (c_getline room line s).0 ≤ length line + room
unfolding c_getline
c_getline-length room line [] = omega arith
c_getline-length zero line (c ∷ s) = ground arith
c_getline-length (suc room) line (c ∷ s) =
    ground (arith, c_getline-length room (line ++ c ∷ []) s, length-append line (c ∷ []))

read_password-length : (t : Console) → length (read_password t).0 ≤ 511
unfolding read_password
read_password-length t = ground (arith, c_getline-length 511 [] t.input)

read_password-echo : (t : Console) → (read_password t).1.echo ≡ t.echo
unfolding read_password
read_password-echo t = ground arith

read_line-echo : (t : Console) → (read_line t).1.echo ≡ t.echo
unfolding read_line
read_line-echo t = ground arith

-- The response that a message is due: a password of at most 511 bytes, a line, or none for a text.
abbrev pub AnswerFor : Style → Option Text → Type 0
AnswerFor prompt_echo_off response = (text : Text) × (response ≡ some text) × (length text ≤ 511)
AnswerFor prompt_echo_on response = (text : Text) × (response ≡ some text)
AnswerFor error_msg response = response ≡ none
AnswerFor text_info response = response ≡ none
AnswerFor other_style response = ⊥

-- One response for each message, in order.
abbrev pub AnswersFor : List Message → List (Option Text) → Type 0
AnswersFor [] [] = Unit
AnswersFor [] (response ∷ responses) = ⊥
AnswersFor (message ∷ messages) [] = ⊥
AnswersFor (message ∷ messages) (response ∷ responses) =
    AnswerFor message.style response × AnswersFor messages responses

pub append_cons :
    (xs : List (Option Text)) (x : Option Text) (ys : List (Option Text))
    → (xs ++ x ∷ []) ++ ys ≡ xs ++ x ∷ ys
append_cons [] x ys = refl
append_cons (y ∷ xs) x ys = ap (λ zs. y ∷ zs) (append_cons xs x ys)

module _ (calls : Calls) where
  answer-steps :
      (i : ℕ) (p : Text × Console) (u : Console) (response : Option Text)
      → answer calls i p ≡ (some response, u)
      → response ≡ some (c_string p.0)
  answer-steps i p u response e = elim (Bool-cases (calls.strdup_ok i)) [
    | inl copied ↦ ground arith
    | inr failed ↦ absurd (ground arith)
  ]

  respond-AnswerFor :
      (i : ℕ) (style : Style) (text : Text) (t u : Console) (response : Option Text)
      → respond calls i (record { style = style; text = text }) t ≡ (some response, u)
      → AnswerFor style response
  unfolding respond ask_hidden
  respond-AnswerFor i prompt_echo_off text t u response e =
      let line = (ask_hidden calls text t).0 in
      let short : length line ≤ 511 = read_password-length (print text (hide calls t)) in
      (
        c_string line,
        answer-steps i (ask_hidden calls text t) u response e,
        omega (arith, c_string-length line, short),
      )
  respond-AnswerFor i prompt_echo_on text t u response e = (
    c_string (read_line (print text t)).0,
    answer-steps i (read_line (print text t)) u response e,
  )
  respond-AnswerFor i error_msg text t u response e = ground arith
  respond-AnswerFor i text_info text t u response e = ground arith
  respond-AnswerFor i other_style text t u response e = absurd (ground arith)

  ask_hidden-echo :
      (text : Text) (t : Console)
      → calls.restore_ok ≡ true
      → (ask_hidden calls text t).1.echo ≡ t.echo
  unfolding ask_hidden hide show
  ask_hidden-echo text t restores = elim (Bool-cases calls.tcgetattr_ok) [
    | inl terminal ↦ ground arith
    | inr no_terminal ↦ let same = read_password-echo (print text t) in ground arith
  ]

  respond-echo :
      (i : ℕ) (style : Style) (text : Text) (t : Console)
      → calls.restore_ok ≡ true
      → (respond calls i (record { style = style; text = text }) t).1.echo ≡ t.echo
  unfolding respond
  respond-echo i prompt_echo_off text t restores = ask_hidden-echo text t restores
  respond-echo i prompt_echo_on text t restores = read_line-echo (print text t)
  respond-echo i error_msg text t restores = refl
  respond-echo i text_info text t restores = refl
  respond-echo i other_style text t restores = refl

  pub converse-echo :
      (i : ℕ) (messages : List Message) (responses : List (Option Text)) (t : Console)
      → calls.restore_ok ≡ true
      → (converse calls i messages responses t).1.echo ≡ t.echo
  unfolding converse
  converse-echo i [] responses t restores = refl
  converse-echo i (message ∷ messages) responses t restores =
      let first = respond-echo i message.style message.text t restores in
      elim (Option-cases (respond calls i message t).0) [
        | inl ends ↦ ground arith
        | inr (given, goes_on) ↦
            let later =
              converse-echo (i + 1) messages (responses ++ given ∷ []) (respond calls i message t).1
                restores in
            ground arith
      ]

  converse-AnswersFor :
      (i : ℕ) (messages : List Message) (responses every : List (Option Text)) (t u : Console)
      → converse calls i messages responses t ≡ (answered every, u)
      → (new : List (Option Text)) × (every ≡ responses ++ new) × AnswersFor messages new
  unfolding converse
  converse-AnswersFor i [] responses every t u e =
      let same : responses ≡ every = ground arith in ([], sym same ∙ sym (append_nil responses), tt)
  converse-AnswersFor i (message ∷ messages) responses every t u e =
      elim (Option-cases (respond calls i message t).0) [
        | inl ends ↦ absurd (ground arith)
        | inr (given, goes_on) ↦
            let (new, all_of, fits) =
              converse-AnswersFor (i + 1) messages (responses ++ given ∷ []) every
                (respond calls i message t).1 u (ground arith) in
            let here =
              respond-AnswerFor i message.style message.text t (respond calls i message t).1 given
                (ap (λ r. (r, (respond calls i message t).1)) goes_on) in
            (given ∷ new, all_of ∙ append_cons responses given new, (here, fits))
      ]

  -- Where the terminal's settings can be restored, its echo is as before when the conversation ends, on
  -- every way out; and if the conversation succeeds, there is one response for each message, in order: a
  -- password of at most 511 bytes for a hidden prompt, a line for a visible one, and none for a text.
  pub pam_conversation-AnswersFor :
      (messages : List Message) (t : Console)
      → calls.restore_ok ≡ true
      → ((pam_conversation calls messages t).1.echo ≡ t.echo)
        × ((responses : List (Option Text))
            → (pam_conversation calls messages t).0 ≡ answered responses
            → AnswersFor messages responses)
  unfolding pam_conversation
  pam_conversation-AnswersFor messages t restores = elim (Bool-cases calls.calloc_ok) [
    | inr no_memory ↦ (ground arith, λ responses e. absurd (ground arith))
    | inl memory ↦
        let same = converse-echo 0 messages [] t restores in
        (
          ground arith,
          λ responses e.
              let done : (converse calls 0 messages [] t).0 ≡ answered responses = ground arith in
              let (new, all_of, fits) =
                converse-AnswersFor 0 messages [] responses t (converse calls 0 messages [] t).1
                  (ap (λ o. (o, (converse calls 0 messages [] t).1)) done) in
              rw all_of fits,
        )
  ]
