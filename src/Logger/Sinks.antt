-- ===== src/Logger/Sinks.antt =====
-- `Logger::log`, `report_error` and `report_warning` of src/logger.cpp: what reaches the log file, the
-- syslog socket and standard error.
use voix.Base.{
  ℕ, Bool, false, not, ◌&&◌, Option, none, some, List, [], ◌∷◌, ◌++◌, Text, codes, is_empty, ◌==◌,
  nat_eq, if◌then◌else◌,
}
use voix.Files.{Expected, Errno}
use voix.Files.Writing.{write_loop}
use voix.Logger.{
  LogLevel, warning, error, log_level_name, sanitize_message, log_line, syslog_payload,
}

-- The system's answers to one record: the calls of `write` on the log file where it can be opened,
-- whether there is a socket and it connects, the clock, the process and `suppress_stderr`.
pub record System : Type 0 where
  pub log_file : Option (List (Expected Errno ℕ))
  pub socket_ok : Bool
  pub connect_ok : Bool
  pub timestamp : Text
  pub pid : ℕ
  pub suppress_stderr : Bool

-- What is appended to the log file, sent to syslog, and printed on standard error.
pub record Written : Type 0 where
  pub file : Text
  pub sent : List Text
  pub stderr : List Text

abbrev pub append_line : Option (List (Expected Errno ℕ)) → Text → Text
append_line none line = []
append_line (some answers) line = (write_loop answers [] line).1

-- `send_to_syslog`
unfoldable pub send_to_syslog : System → LogLevel → Text → List Text
unfolding syslog_payload
send_to_syslog sys level message =
    if not sys.socket_ok
    then []
    else if not sys.connect_ok
    then []
    else syslog_payload level sys.pid message ∷ []

abbrev pub echo_line : LogLevel → Text → Text
echo_line level message =
    codes "voix: [" ++ (log_level_name level ++ (codes "] " ++ sanitize_message message))

-- `Logger::log`
unfoldable pub log : System → LogLevel → Text → Bool → Written
unfolding write_loop log_line send_to_syslog codes
log sys level message echo_stderr = record {
  file = append_line sys.log_file (log_line level sys.timestamp sys.pid message);
  sent = send_to_syslog sys level message;
  stderr = if echo_stderr && not sys.suppress_stderr then echo_line level message ∷ [] else [];
}

-- `exit_code_name` of include/exit_code.hpp.
unfoldable pub exit_code_name : ℕ → Text
unfolding codes
exit_code_name code =
    if code == 0
    then codes "success"
    else if code == 1
    then codes "failure"
    else if code == 64
    then codes "usage"
    else if code == 70
    then codes "software"
    else if code == 77
    then codes "not-permitted"
    else if code == 78
    then codes "config"
    else if code == 126
    then codes "no-exec"
    else if code == 127
    then codes "not-found"
    else codes "failure"

abbrev hint_lines : Text → List Text
hint_lines hint = if is_empty hint then [] else (codes "voix: hint: " ++ sanitize_message hint) ∷ []

-- `report_error`: the messages on standard error whatever `suppress_stderr` says.
unfoldable pub report_error : System → ℕ → Text → Text → Written
unfolding log exit_code_name
report_error sys code message hint =
    record (log sys error (codes "[" ++ (exit_code_name code ++ (codes "] " ++ message))) false) {
      stderr = (codes "voix: error: " ++ sanitize_message message) ∷ hint_lines hint;
    }

unfoldable pub report_warning : System → Text → Text → Text → Written
unfolding log
report_warning sys code message hint =
    record (log sys warning (codes "[" ++ (code ++ (codes "] " ++ message))) false) {
      stderr =
          if sys.suppress_stderr
          then []
          else (codes "voix: warning: " ++ sanitize_message message) ∷ hint_lines hint;
    }
