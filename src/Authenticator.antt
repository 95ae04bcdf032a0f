-- ===== src/Authenticator.antt =====
-- src/authenticator.cpp. PAM's answers are a parameter; tickets are kept in files behind the
-- interface `PrivateFiles`. Messages below the audit level are left out.
pub mod Verdict
use voix.Base.{
  ℕ, Bool, true, false, not, ◌&&◌, ◌||◌, Option, none, some, List, [], ◌∷◌, ◌++◌, Text, codes, ◌==◌,
  nat_eq, list_eq, if◌then◌else◌,
}
use voix.Rule.{Rule, Options, no_options}
use voix.Identity.{Accounts, PasswdEntry, get_current_username}
use voix.Tickets.{PrivateFiles, k_persist_ttl, valid, record_ticket, clear_all_for_caller}
use voix.Audit.{
  Event, event, invalid_target, authentication_ok, authentication_failed, account_validation_failed,
  target_missing, pam_refused, caller_account_refused, target_account_refused, verified,
}

pub data CredentialMode : Type 0 where
  skip_trusted use_ticket reject_non_interactive require_interactive : CredentialMode

unfoldable pub select_credential_mode : Bool → Bool → Bool → Bool → Bool → CredentialMode
select_credential_mode nopass caller_is_root persist_rule ticket_valid non_interactive =
    if nopass || caller_is_root
    then skip_trusted
    else if persist_rule && ticket_valid
    then use_ticket
    else if non_interactive
    then reject_non_interactive
    else require_interactive

-- Whether each call of PAM succeeds: on the caller's handle, and on that for the target's account.
pub record Pam : Type 0 where
  pub start : Bool
  pub authenticate : Bool
  pub acct_mgmt : Bool
  pub target_start : Bool
  pub target_acct_mgmt : Bool
  pub establish_cred : Bool
  pub open_session : Bool

-- The messages of `last_error_`.
pub data AuthError : Type 0 where
  no_such_target : Text → AuthError
  prompt_forbidden pam_not_initialized bad_credentials caller_unusable target_not_initialized
        target_unusable no_credentials no_pam_session :
      AuthError

-- The authenticator's state, with the ticket files and the audit trail that it writes to.
pub record AuthState (S : Type 0) : Type 0 where
  pub handle : Bool  -- `pamh_` is not null
  pub last_error : Option AuthError
  pub tickets : S
  pub log : List Event

-- `rule ? rule->options : 0`
abbrev pub options_of : Option Rule → Options
options_of none = no_options
options_of (some rule) = rule.options

-- `validate_target_account`
unfoldable pub validate_target_account : Pam → Option AuthError
validate_target_account pam =
    if not pam.target_start
    then some target_not_initialized
    else if not pam.target_acct_mgmt
    then some target_unusable
    else none

abbrev needs_prompt : CredentialMode → Bool
needs_prompt mode = elim mode [ require_interactive ↦ true | _ ↦ false ]

abbrev is_rejected : CredentialMode → Bool
is_rejected mode = elim mode [ reject_non_interactive ↦ true | _ ↦ false ]

module _ {S : Type 0} (files : PrivateFiles S) (accounts : Accounts) (pam : Pam) (dir : Text)
    (now : ℕ) where
  -- `last_error_` and an audit record; the handle is closed.
  unfoldable pub refuse : AuthError → Event → AuthState S → Bool × AuthState S
  refuse error e a =
      (false, record a { handle = false; last_error = some error; log = a.log ++ e ∷ [] })

  -- After every check: the ticket of a credential that was verified just now.
  unfoldable pub finish : Bool → ℕ → Text → AuthState S → Bool × AuthState S
  finish mint target_uid user a = (
    true,
    record a {
      handle = true;
      tickets =
          if mint
          then (record_ticket files dir now accounts.getuid target_uid a.tickets).1
          else a.tickets;
      log = a.log ++ event authentication_ok verified user ∷ [];
    },
  )

  unfoldable pub check_target : Bool → ℕ → Text → AuthState S → Bool × AuthState S
  unfolding finish refuse
  check_target mint target_uid user a = elim (validate_target_account pam) [
    | some error ↦ refuse error (event account_validation_failed target_account_refused user) a
    | none ↦ finish mint target_uid user a
  ]

  -- From the choice of the mode on.
  unfoldable pub authenticate_by :
      CredentialMode → Bool → ℕ → Text → AuthState S → Bool × AuthState S
  unfolding check_target refuse
  authenticate_by mode persist_rule target_uid user a =
      if is_rejected mode
      then (false, record a { last_error = some prompt_forbidden })
      else if not pam.start
      then refuse pam_not_initialized (event authentication_failed pam_refused user) a
      else if needs_prompt mode && not pam.authenticate
      then refuse bad_credentials (event authentication_failed pam_refused user) a
      else if not pam.acct_mgmt
      then refuse caller_unusable (event authentication_failed caller_account_refused user) a
      else check_target (persist_rule && needs_prompt mode) target_uid user a

  abbrev pub mode_for : Bool → Options → ℕ → S → CredentialMode
  mode_for non_interactive options target_uid s =
      select_credential_mode options.nopass (get_current_username accounts == codes "root")
        options.persist
        (options.persist && valid files s dir now k_persist_ttl accounts.getuid target_uid)
        non_interactive

  -- `PamAuthenticator::authenticate`
  unfoldable pub authenticate : Bool → Option Rule → Text → AuthState S → Bool × AuthState S
  authenticate non_interactive rule target_user a = elim (accounts.passwd_by_name target_user) [
    | none ↦ (
      false,
      record a {
        last_error = some (no_such_target target_user);
        log = a.log ++ event invalid_target target_missing (get_current_username accounts) ∷ [];
      },
    )
    | some entry ↦
        authenticate_by (mode_for non_interactive (options_of rule) entry.uid a.tickets)
          (options_of rule).persist entry.uid (get_current_username accounts)
          (record a { last_error = none })
  ]

  -- `openSession`; without a handle there is nothing to open.
  unfoldable pub open_session : AuthState S → Bool × AuthState S
  open_session a =
      if not a.handle
      then (true, record a { last_error = none })
      else if not pam.establish_cred
      then (false, record a { last_error = some no_credentials })
      else if not pam.open_session
      then (false, record a { last_error = some no_pam_session })
      else (true, record a { last_error = none })

  -- `closeSession`, whatever PAM answers.
  unfoldable pub close_session : AuthState S → AuthState S
  close_session a = record a { handle = false }

  -- `clear_timestamp`
  unfoldable pub clear_timestamp : AuthState S → AuthState S
  clear_timestamp a = record a {
    tickets = clear_all_for_caller files dir accounts.getuid a.tickets;
  }
