-- ===== src/Audit.antt =====
-- include/audit.hpp, and the records that reach the log.
use voix.Base.{ℕ, Text}
use voix.Files.{FileError}

pub data Code : Type 0 where
  command_requested command_rejected command_blocked command_denied command_executed
        command_withheld invalid_target authentication_ok authentication_failed
        account_validation_failed session_open_failed :
      Code

-- The texts of the events, by the call of `std::format` that makes each.
pub data Detail : Type 0 where
  rejected : Text → FileError → Detail
  blocked requested : Text → Detail
  finished : ℕ → Text → Detail
  unknown_target unresolved_identity : Text → Detail
  withheld : ℕ → Detail
  not_permitted target_missing pam_refused caller_account_refused target_account_refused verified
        no_authentication no_session :
      Detail

-- The records of the log, in order: the events of `Security::logEvent`, the execution that the child
-- announces, a message of `Logger::report_error` or of a stage that ends the process with a status, with
-- the command where it names one, and the error that `Config::load` logs when it fails.
pub data Event : Type 0 where
  event : Code → Detail → Text → Event
  started : Text → Text → Event
  reported : ℕ → Event
  reported_command : ℕ → Text → Event
  load_failed : Event
