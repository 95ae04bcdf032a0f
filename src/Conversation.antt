-- ===== src/Conversation.antt =====
-- src/pam_utils.cpp: the conversation that PAM calls for its prompts, on the terminal and standard input.
pub mod Answers
pub mod Reads
pub mod Lines
use voix.Base.{
  ℕ, zero, suc, ◌+◌, Bool, true, false, not, ◌&&◌, ◌||◌, Option, none, some, List, [], ◌∷◌, ◌++◌,
  Text, codes, ◌==◌, nat_eq, if◌then◌else◌,
}

-- `msg_style`
pub data Style : Type 0 where
  prompt_echo_off prompt_echo_on error_msg text_info other_style : Style

pub record Message : Type 0 where
  pub style : Style
  pub text : Text

-- Standard input, whether it is no longer good, the terminal's echo, and what is printed.
pub record Console : Type 0 where
  pub input : Text
  pub bad : Bool
  pub echo : Bool
  pub out : Text
  pub err : Text

-- Whether the calls succeed: `calloc`, the `strdup` for the message at an index, `tcgetattr`, and
-- `tcsetattr` for turning the echo off and for restoring it.
pub record Calls : Type 0 where
  pub calloc_ok : Bool
  pub strdup_ok : ℕ → Bool
  pub tcgetattr_ok : Bool
  pub echo_off_ok : Bool
  pub restore_ok : Bool

-- A C string ends at its first zero byte.
unfoldable pub c_string : Text → Text
c_string [] = []
c_string (c ∷ s) = let rest = c_string s in if c == 0 then [] else c ∷ rest

-- `istream::getline` with room for so many bytes: the line, the input behind it, and whether the stream
-- is no longer good, because it ended or the line did not fit.
unfoldable pub c_getline : ℕ → Text → Text → Text × Text × Bool
c_getline room line [] = (line, [], true)
c_getline zero line (c ∷ s) = if c == 10 then (line, s, false) else (line, c ∷ s, true)
c_getline (suc room) line (c ∷ s) =
    let rest = c_getline room (line ++ c ∷ []) s in if c == 10 then (line, s, false) else rest

-- `std::getline`
unfoldable pub std_getline : Text → Text → Text × Text × Bool
std_getline line [] = (line, [], true)
std_getline line (c ∷ s) =
    let rest = std_getline (line ++ c ∷ []) s in if c == 10 then (line, s, false) else rest

-- A line of a stream that is not good is empty.
abbrev pub line_from : Console → Text × Text × Bool → Text × Console
line_from t (line, rest, bad) = (line, record t { input = rest; bad = bad })

unfoldable pub read_password : Console → Text × Console
unfolding c_getline
read_password t = if t.bad then ([], t) else line_from t (c_getline 511 [] t.input)

unfoldable pub read_line : Console → Text × Console
unfolding std_getline
read_line t = if t.bad then ([], t) else line_from t (std_getline [] t.input)

abbrev pub print : Text → Console → Console
print s t = record t { out = t.out ++ s }

abbrev pub print_error : Text → Console → Console
print_error s t = record t { err = t.err ++ s }

module _ (calls : Calls) where
  -- The echo turned off where there is a terminal.
  unfoldable pub hide : Console → Console
  unfolding codes
  hide t =
      if not calls.tcgetattr_ok
      then t
      else if calls.echo_off_ok
      then record t { echo = false }
      else print_error (codes "voix: warning: failed to disable terminal echo\n") t

  unfoldable pub show : Bool → Console → Console
  show before t = if calls.tcgetattr_ok && calls.restore_ok then record t { echo = before } else t

  abbrev pub answer : ℕ → Text × Console → Option (Option Text) × Console
  answer i (line, t) = (if calls.strdup_ok i then some (some (c_string line)) else none, t)

  -- `PAM_PROMPT_ECHO_OFF`; the buffer is zeroed in any case.
  unfoldable pub ask_hidden : Text → Console → Text × Console
  unfolding hide show read_password
  ask_hidden text t =
      let (line, u) = read_password (print text (hide t)) in
      (line, print (codes "\n") (show t.echo u))

  -- One message: the response, which is null for a text, or `none` where the conversation ends.
  unfoldable pub respond : ℕ → Message → Console → Option (Option Text) × Console
  unfolding ask_hidden read_line c_string
  respond i message t = elim message.style [
    | prompt_echo_off ↦ answer i (ask_hidden message.text t)
    | prompt_echo_on ↦ answer i (read_line (print message.text t))
    | error_msg ↦ (some none, print_error (codes "PAM Error: " ++ (message.text ++ codes "\n")) t)
    | text_info ↦ (some none, print (message.text ++ codes "\n") t)
    | other_style ↦ (none, t)
  ]

-- The responses, or the texts that were zeroed before they were freed.
pub data Outcome : Type 0 where
  answered : List (Option Text) → Outcome
  conv_err : List Text → Outcome

-- The loop at `cleanup`.
unfoldable pub wipe : List (Option Text) → List Text
wipe [] = []
wipe (none ∷ responses) = wipe responses
wipe (some text ∷ responses) = text ∷ wipe responses

unfoldable pub converse :
    Calls → ℕ → List Message → List (Option Text) → Console → Outcome × Console
unfolding respond wipe
converse calls i [] responses t = (answered responses, t)
converse calls i (message ∷ messages) responses t =
    let (response, u) = respond calls i message t in
    elim response [
      | none ↦ (conv_err (wipe responses), u)
      | some given ↦ converse calls (i + 1) messages (responses ++ given ∷ []) u
    ]

-- `pam_conversation`
unfoldable pub pam_conversation : Calls → List Message → Console → Outcome × Console
unfolding converse
pam_conversation calls messages t =
    if not calls.calloc_ok then (conv_err [], t) else converse calls 0 messages [] t
