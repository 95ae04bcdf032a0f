-- ===== src/Runtime.antt =====
-- src/voix.cpp: one invocation, from the command's name to its exit status. What the reports print on
-- standard error is left out; the records of the log are kept in order.
pub mod Gates
pub mod Mentions
pub mod Nolog
pub mod Listed
pub mod Status
use voix.Base.{
  ℕ, Bool, true, false, not, ◌&&◌, ◌||◌, Option, none, some, List, [], ◌∷◌, ◌++◌, Text,
  if◌then◌else◌,
}
use voix.Rule.{Rule}
use voix.Config.{Config, get_path}
use voix.Files.{
  FileError, not_found, permission_denied, Expected, value, unexpected, ExecutableInfo,
}
use voix.Files.Executables.{resolve_executable}
use voix.Identity.{Accounts, UserIdentity, PasswdEntry, get_user_by_name, get_current_username}
use voix.Permission.{Request, permit}
use voix.Environment.{CommandOptions}
use voix.Security.{is_catastrophic_command, validate_user}
use voix.Child.{Machine, run_command}
use voix.Child.Records.{execute_records}
use voix.Tickets.{PrivateFiles}
use voix.Audit.{
  Event, event, reported, reported_command, Code, Detail, command_requested, command_rejected,
  command_blocked, command_denied, command_executed, command_withheld, invalid_target,
  authentication_failed, session_open_failed, rejected, blocked, requested, finished,
  unknown_target, unresolved_identity, withheld, not_permitted, no_authentication, no_session,
}
use voix.Authenticator.{Pam, AuthState, authenticate, open_session, close_session}

-- `exit_code_for`
unfoldable pub exit_code_for : FileError → ℕ
exit_code_for not_found = 127
exit_code_for permission_denied = 77
exit_code_for _ = 126

-- What `Command::execute` is called with.
pub record Launch : Type 0 where
  pub executable : ExecutableInfo
  pub args : List Text
  pub options : CommandOptions
  pub rule : Rule
  pub identity : UserIdentity

pub record Result (S : Type 0) : Type 0 where
  pub status : ℕ
  pub launched : Option Launch
  pub auth : AuthState S

-- `merged_options`: preserving the environment takes a rule with keepenv.
unfoldable pub merge_options : Config → CommandOptions → Rule → CommandOptions
merge_options config options rule = record options {
  login_shell = options.login_shell || config.login_shell_default;
  preserve_env = rule.options.keepenv;
}

module _ {S : Type 0} where
  abbrev pub log_event : Event → AuthState S → AuthState S
  log_event e a = record a { log = a.log ++ e ∷ [] }

  -- The records of `Command::execute`, or the record of a report.
  abbrev pub records : List Event → AuthState S → AuthState S
  records events a = record a { log = a.log ++ events }

  abbrev pub stop : ℕ → AuthState S → Result S
  stop status a = record { status = status; launched = none; auth = a }

  -- `emit`: under nolog only what is always recorded.
  abbrev pub emit : Bool → Code → Detail → Text → Bool → AuthState S → AuthState S
  emit nolog code detail user always a =
      if not nolog || always then log_event (event code detail user) a else a

module _ {S : Type 0} (files : PrivateFiles S) (accounts : Accounts) (pam : Pam) (dir : Text)
    (now : ℕ) (m : Machine) (config : Config) (regex_search : Text → Text → Bool)
    (non_interactive : Bool) where
  -- The command and the records behind it.
  unfoldable pub launch : Launch → AuthState S → Result S
  launch l a =
      let user = get_current_username accounts in
      let nolog = l.rule.options.nolog in
      let status = run_command m config l.executable l.args l.options l.rule l.identity in
      let ran =
        records (execute_records m config l.executable l.args l.options l.rule l.identity) a in
      let done =
        emit nolog command_executed (finished status l.executable.policy_path) user false ran in
      let told =
        if nolog then emit nolog command_withheld (withheld status) user true done else done in
      record {
        status = status;
        launched = some l;
        auth = close_session files accounts pam dir now told;
      }

  -- Behind `openSession`; the session is closed on every way out.
  unfoldable pub in_session :
      ExecutableInfo → List Text → CommandOptions → Text → Rule → AuthState S → Result S
  in_session executable args options user rule a = elim (get_user_by_name accounts user) [
    | none ↦ stop 70 (
        close_session files accounts pam dir now (
          emit rule.options.nolog invalid_target (unresolved_identity user)
            (get_current_username accounts) true (records (reported 70 ∷ []) a)))
    | some identity ↦
        launch
          (record {
            executable = executable;
            args = args;
            options = merge_options config options rule;
            rule = rule;
            identity = identity;
          })
          a
  ]

  unfoldable pub with_session :
      ExecutableInfo → List Text → CommandOptions → Text → Rule → AuthState S → Result S
  with_session executable args options user rule a =
      let (opened, b) = open_session files accounts pam dir now a in
      if not opened
      then stop 1 (
          emit rule.options.nolog session_open_failed no_session (get_current_username accounts)
            true (records (reported 1 ∷ []) b))
      else in_session executable args options user rule b

  unfoldable pub as_permitted :
      ExecutableInfo → List Text → CommandOptions → Text → Rule → AuthState S → Result S
  as_permitted executable args options user rule a =
      let (ok, b) = authenticate files accounts pam dir now non_interactive (some rule) user a in
      if not ok
      then stop 1 (
          emit rule.options.nolog authentication_failed no_authentication
            (get_current_username accounts) true (records (reported 1 ∷ []) b))
      else with_session executable args options user rule b

  nolog_of : Option Rule → Bool
  nolog_of none = false
  nolog_of (some rule) = rule.options.nolog

  decide : ExecutableInfo → List Text → CommandOptions → Text → Option Rule → AuthState S → Result S
  decide executable args options user none a = stop 77 (
      emit false command_denied not_permitted (get_current_username accounts) true
        (records (reported_command 77 executable.policy_path ∷ []) a))
  decide executable args options user (some rule) a =
      as_permitted executable args options user rule a

  -- From the policy on: the rule, then the record of the request.
  unfoldable pub for_target :
      ExecutableInfo → List Text → CommandOptions → Text → PasswdEntry → AuthState S → Result S
  unfolding decide nolog_of
  for_target executable args options user entry a =
      let rule =
        permit m.kernel accounts config
          (record { command = executable.policy_path; args = args; target_uid = entry.uid }) in
      decide executable args options user rule (
        emit (nolog_of rule) command_requested (requested executable.policy_path)
          (get_current_username accounts) false a)

  reject_target : Text → AuthState S → Result S
  reject_target user a = stop 64 (
      log_event (event invalid_target (unknown_target user) (get_current_username accounts))
        (records (reported 64 ∷ []) a))

  unfoldable pub on_executable :
      ExecutableInfo → List Text → CommandOptions → Text → AuthState S → Result S
  unfolding reject_target
  on_executable executable args options user a =
      if is_catastrophic_command m.kernel regex_search config executable.policy_path args
      then stop 77 (
          log_event
            (event command_blocked (blocked executable.policy_path) (get_current_username accounts))
            (records (reported_command 77 executable.policy_path ∷ []) a))
      else elim (accounts.passwd_by_name user) [
        | none ↦ reject_target user a
        | some entry ↦
            if not (validate_user accounts user)
            then reject_target user a
            else for_target executable args options user entry a
      ]

  -- `Voix::execute`
  unfoldable pub voix_execute : Text → List Text → CommandOptions → Text → AuthState S → Result S
  voix_execute command args options user a =
      elim (resolve_executable m.kernel 0 command (get_path config)) [
        | unexpected error ↦ stop (exit_code_for error) (
            log_event
              (event command_rejected (rejected command error) (get_current_username accounts))
              (records (reported_command (exit_code_for error) command ∷ []) a))
        | value executable ↦ on_executable executable args options user a
      ]
