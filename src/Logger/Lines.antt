-- ===== src/Logger/Lines.antt =====
-- src/logger.cpp: that a record stays on its own line in every sink.
use mathlib.Core.List.{append_assoc}
use voix.Base.{
  ℕ, ◌+◌, ◌%◌, ◌/◌, ◌*◌, ◌≡◌, ◌∙◌, refl, sym, ap, zero, suc, Bool, true, false, not, ◌&&◌, Option,
  none, some, List, [], ◌∷◌, ◌++◌, Text, codes, All, All-append, ltb, arith, nat_eq, inl, inr,
  Bool-cases, if◌then◌else◌,
}
use voix.Numbers.{to_string, digits_onto}
use voix.Files.{Expected, Errno}
use voix.Files.Writing.{write_loop-Rest}
use voix.Logger.{
  LogLevel, info, warning, error, security, log_level_name, syslog_severity, sanitize_message,
  log_line, syslog_payload,
}
use voix.Logger.Sanitized.{is_control, sanitize_message-clean}
use voix.Logger.Sinks.{System, append_line, send_to_syslog, echo_line, log}

-- A text without a control character.
abbrev pub IsClean : Text → Type 0
IsClean = All (λ c. is_control c ≡ false)

append-IsClean : (s t : Text) → IsClean s → IsClean t → IsClean (s ++ t)
append-IsClean s t h k = All-append _ s t h k

digit-IsClean : (n : ℕ) → is_control (b'0' + n % 10) ≡ false
digit-IsClean n = ground arith

if-IsClean : (b : Bool) (s t : Text) → IsClean s → IsClean t → IsClean (if b then s else t)
if-IsClean true s t h k = h
if-IsClean false s t h k = k

digits_onto-IsClean : (fuel n : ℕ) (acc : Text) → IsClean acc → IsClean (digits_onto fuel n acc)
unfolding digits_onto
digits_onto-IsClean zero n acc h = h
digits_onto-IsClean (suc fuel) n acc h =
    if-IsClean (ltb n 10) _ _ (digit-IsClean n, h)
      (digits_onto-IsClean fuel (n / 10) ((b'0' + n % 10) ∷ acc) (digit-IsClean n, h))

to_string-IsClean : (n : ℕ) → IsClean (to_string n)
unfolding to_string
to_string-IsClean n = digits_onto-IsClean (suc n) n [] tt

level-IsClean : (level : LogLevel) → IsClean (log_level_name level)
unfolding log_level_name
level-IsClean info = ground arith
level-IsClean warning = ground arith
level-IsClean error = ground arith
level-IsClean security = ground arith

pieces :
    IsClean (codes "[")
    × IsClean (codes "] [")
    × IsClean (codes "] [pid ")
    × IsClean (codes "] ")
    × IsClean (codes "<")
    × IsClean (codes ">voix: [")
    × IsClean (codes "voix: [")
unfolding codes
pieces = ground arith

-- A clean text and the end of the line.
IsLine : Text → Type 0
IsLine s = (line : Text) × IsClean line × (s ≡ line ++ codes "\n")

append-IsLine : (s t : Text) → IsClean s → IsLine t → IsLine (s ++ t)
unfolding IsLine
append-IsLine s t h (line, k, e) = (
  s ++ line,
  append-IsClean s line h k,
  ap (λ r. s ++ r) e ∙ sym (append_assoc s line (codes "\n")),
)

log_line-IsLine :
    (level : LogLevel) (timestamp : Text) (pid : ℕ) (message : Text)
    → IsClean timestamp
    → IsLine (log_line level timestamp pid message)
unfolding log_line IsLine
log_line-IsLine level timestamp pid message clean = append-IsLine (codes "[") _ pieces.0 (
    append-IsLine timestamp _ clean (
      append-IsLine (codes "] [") _ pieces.1 (
        append-IsLine (log_level_name level) _ (level-IsClean level) (
          append-IsLine (codes "] [pid ") _ pieces.2 (
            append-IsLine (to_string pid) _ (to_string-IsClean pid) (
              append-IsLine (codes "] ") _ pieces.3
                (sanitize_message message, sanitize_message-clean message, refl)))))))

payload-IsClean :
    (level : LogLevel) (pid : ℕ) (message : Text) → IsClean (syslog_payload level pid message)
unfolding syslog_payload
payload-IsClean level pid message = append-IsClean (codes "<") _ pieces.4 (
    append-IsClean (to_string (10 * 8 + syslog_severity level)) _
      (to_string-IsClean (10 * 8 + syslog_severity level))
      (append-IsClean (codes ">voix: [") _ pieces.5 (
        append-IsClean (log_level_name level) _ (level-IsClean level) (
          append-IsClean (codes "] [pid ") _ pieces.2 (
            append-IsClean (to_string pid) _ (to_string-IsClean pid)
              (append-IsClean (codes "] ") _ pieces.3 (sanitize_message-clean message)))))))

sent-IsClean :
    (sys : System) (level : LogLevel) (message : Text)
    → All IsClean (send_to_syslog sys level message)
unfolding send_to_syslog
sent-IsClean sys level message = elim (Bool-cases sys.socket_ok) [
  | inr no_socket ↦ rw (send_to_syslog, no_socket) tt
  | inl socket ↦ elim (Bool-cases sys.connect_ok) [
    | inr refused ↦ rw (send_to_syslog, socket, refused) tt
    | inl connected ↦
        rw (send_to_syslog, socket, connected) (payload-IsClean level sys.pid message, tt)
  ]
]

echoed-IsClean :
    (b : Bool) (level : LogLevel) (message : Text)
    → All IsClean (if b then echo_line level message ∷ [] else [])
echoed-IsClean false level message = tt
echoed-IsClean true level message = (
  append-IsClean (codes "voix: [") _ pieces.6 (
      append-IsClean (log_level_name level) _ (level-IsClean level)
        (append-IsClean (codes "] ") _ pieces.3 (sanitize_message-clean message))),
  tt,
)

-- The part of a line that is written.
PartOf : Text → Text → Type 0
PartOf s line = (left : Text) × (s ++ left ≡ line)

append_line-PartOf :
    (answers : Option (List (Expected Errno ℕ))) (line : Text)
    → PartOf (append_line answers line) line
unfolding PartOf
append_line-PartOf none line = (line, refl)
append_line-PartOf (some answers) line =
    let (left, is, _) = write_loop-Rest answers [] line in (left, is)

-- Whatever the message and the answers of the system, one record adds at most one line to the log file:
-- a beginning of a text without control characters and the end of the line. What it sends to syslog and
-- prints on standard error holds no control character. The clock's text must hold none.
pub log-one_line :
    (sys : System) (level : LogLevel) (message : Text) (echo_stderr : Bool)
    → IsClean sys.timestamp
    → ((line : Text) × IsClean line
        × ((left : Text) × ((log sys level message echo_stderr).file ++ left ≡ line ++ codes "\n")))
      × (All IsClean (log sys level message echo_stderr).sent
          × All IsClean (log sys level message echo_stderr).stderr)
unfolding log IsLine PartOf
log-one_line sys level message echo_stderr clean =
    let (line, line_clean, is) = log_line-IsLine level sys.timestamp sys.pid message clean in
    let (left, part) =
      append_line-PartOf sys.log_file (log_line level sys.timestamp sys.pid message) in
    (
      (line, line_clean, (left, part ∙ is)),
      (
        sent-IsClean sys level message,
        echoed-IsClean (echo_stderr && not sys.suppress_stderr) level message,
      ),
    )
