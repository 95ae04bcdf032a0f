-- ===== src/Runtime/Status.antt =====
-- src/voix.cpp: the bounds of the status of one invocation.
use voix.Base.{ℕ, ◌<◌, Bool, false, some, List, Text, arith, inl, inr, Bool-cases, Option-cases}
use voix.Rule.{Rule}
use voix.Audit.{command_requested, requested}
use voix.Files.{FileError, ExecutableInfo, Expected-cases}
use voix.Files.Executables.{resolve_executable}
use voix.Identity.{Accounts, get_user_by_name, get_current_username}
use voix.Config.{Config, get_path}
use voix.Permission.{permit}
use voix.Environment.{CommandOptions}
use voix.Security.{is_catastrophic_command, validate_user}
use voix.Child.{Machine, Execution}
use voix.Child.Status.{IsByte, run_command-bound}
use voix.Tickets.{PrivateFiles}
use voix.Authenticator.{Pam, AuthState, authenticate, open_session}
use voix.Runtime.{
  exit_code_for, emit, merge_options, launch, in_session, with_session, as_permitted, decide,
  nolog_of, for_target, on_executable, reject_target, voix_execute,
}

exit_code_for-bound : (error : FileError) → exit_code_for error < 256
unfolding exit_code_for
exit_code_for-bound FileError.not_found = omega arith
exit_code_for-bound FileError.permission_denied = omega arith
exit_code_for-bound FileError.read_error = omega arith
exit_code_for-bound FileError.write_error = omega arith
exit_code_for-bound FileError.unknown = omega arith

module _ {S : Type 0} (files : PrivateFiles S) (accounts : Accounts) (pam : Pam) (dir : Text)
    (now : ℕ) (m : Machine) (config : Config) (regex_search : Text → Text → Bool)
    (non_interactive : Bool) (programs : (e : Execution) → IsByte (m.program e)) where
  as_permitted-bound :
      (executable : ExecutableInfo) (args : List Text) (options : CommandOptions) (user : Text)
      (rule : Rule) (a : AuthState S)
      → (as_permitted files accounts pam dir now m config regex_search non_interactive executable
          args options user rule a).status
        < 256
  unfolding as_permitted with_session in_session launch
  as_permitted-bound executable args options user rule a =
      let after = authenticate files accounts pam dir now non_interactive (some rule) user a in
      elim (Bool-cases after.0) [
        | inr failed ↦ ground arith
        | inl ok ↦ elim (Bool-cases (open_session files accounts pam dir now after.1).0) [
          | inr closed ↦ ground arith
          | inl opened ↦ elim (Option-cases (get_user_by_name accounts user)) [
            | inl unknown ↦ ground arith
            | inr (identity, known) ↦
                let bound =
                  run_command-bound m programs config executable args
                    (merge_options config options rule) rule identity in
                ground arith
          ]
        ]
      ]

  on_executable-bound :
      (executable : ExecutableInfo) (args : List Text) (options : CommandOptions) (user : Text)
      (a : AuthState S)
      → (on_executable files accounts pam dir now m config regex_search non_interactive executable
          args options user a).status
        < 256
  unfolding on_executable for_target decide reject_target nolog_of
  on_executable-bound executable args options user a =
      elim (Bool-cases
        (is_catastrophic_command m.kernel regex_search config executable.policy_path args)) [
          | inl catastrophic ↦ ground arith
          | inr harmless ↦ elim (Option-cases (accounts.passwd_by_name user)) [
            | inl unknown ↦ ground arith
            | inr (entry, known) ↦ elim (Bool-cases (validate_user accounts user)) [
              | inr bad ↦ ground arith
              | inl good ↦
                  elim (Option-cases (
                    permit m.kernel accounts config (record {
                      command = executable.policy_path;
                      args = args;
                      target_uid = entry.uid;
                    }))) [
                      | inl denied ↦ ground arith
                      | inr (rule, granted) ↦
                          let bound = as_permitted-bound executable args options user rule (
                            emit rule.options.nolog command_requested
                              (requested executable.policy_path) (get_current_username accounts)
                              false a) in
                          ground arith
                    ]
            ]
          ]
        ]

  pub voix_execute-bound :
      (command : Text) (args : List Text) (options : CommandOptions) (user : Text) (a : AuthState S)
      → (voix_execute files accounts pam dir now m config regex_search non_interactive command args
          options user a).status
        < 256
  unfolding voix_execute
  voix_execute-bound command args options user a =
      elim (Expected-cases (resolve_executable m.kernel 0 command (get_path config))) [
        | inl (error, missing) ↦ let bound = exit_code_for-bound error in ground arith
        | inr (executable, found) ↦
            let bound = on_executable-bound executable args options user a in ground arith
      ]
