-- ===== src/Logger.antt =====
-- src/logger.cpp: the text of a log record.
pub mod Sanitized
pub mod Sinks
pub mod Lines
use voix.Base.{
  ℕ, ◌+◌, ◌/◌, ◌%◌, ◌*◌, Bool, true, false, ◌||◌, List, [], ◌∷◌, ◌++◌, Text, codes, ltb, ◌==◌,
  nat_eq, if◌then◌else◌,
}
use voix.Numbers.{to_string}

-- include/logger.hpp
pub data LogLevel : Type 0 where
  info warning error security : LogLevel

unfoldable pub log_level_name : LogLevel → Text
unfolding codes
log_level_name info = codes "INFO"
log_level_name warning = codes "WARN"
log_level_name error = codes "ERROR"
log_level_name security = codes "SECURITY"

unfoldable pub syslog_severity : LogLevel → ℕ
syslog_severity info = 6
syslog_severity warning = 4
syslog_severity error = 3
syslog_severity security = 5

-- A digit of `{:02x}`.
abbrev hex_digit : ℕ → ℕ
hex_digit d = if ltb d 10 then b'0' + d else 87 + d

-- What the loop appends for one byte.
unfoldable pub sanitize_byte : ℕ → Text
sanitize_byte c =
    if c == 10
    then 92 ∷ b'n' ∷ []
    else if c == 13
    then 92 ∷ b'r' ∷ []
    else if c == 9
    then 92 ∷ b't' ∷ []
    else if ltb c 32 || c == 127
    then 92 ∷ b'x' ∷ hex_digit (c / 16) ∷ hex_digit (c % 16) ∷ []
    else c ∷ []

unfoldable pub sanitize_from : Text → Text → Text
unfolding sanitize_byte
sanitize_from out [] = out
sanitize_from out (c ∷ message) = sanitize_from (out ++ sanitize_byte c) message

unfoldable pub sanitize_message : Text → Text
unfolding sanitize_from
sanitize_message message = sanitize_from [] message

-- The line that `log` appends to the file, and the payload that it sends to syslog; the clock's text
-- and the process id come from the system.
unfoldable pub log_line : LogLevel → Text → ℕ → Text → Text
unfolding log_level_name sanitize_message to_string codes
log_line level timestamp pid message =
    codes "["
    ++ (timestamp
        ++ (codes "] ["
            ++ (log_level_name level
                ++ (codes "] [pid "
                    ++ (to_string pid
                        ++ (codes "] " ++ (sanitize_message message ++ codes "\n")))))))

unfoldable pub syslog_payload : LogLevel → ℕ → Text → Text
unfolding log_level_name sanitize_message to_string codes syslog_severity
syslog_payload level pid message =
    codes "<"
    ++ (to_string (10 * 8 + syslog_severity level)
        ++ (codes ">voix: ["
            ++ (log_level_name level
                ++ (codes "] [pid "
                    ++ (to_string pid ++ (codes "] " ++ sanitize_message message))))))
