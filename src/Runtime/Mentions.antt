-- ===== src/Runtime/Mentions.antt =====
-- The records of the log that name the command, in `Command::execute` of src/command.cpp and the
-- authentication before it.
use voix.Base.{
  ℕ, ◌≡◌, refl, ap, ◌∙◌, Bool, true, false, Option, some, List, [], ◌∷◌, ◌++◌, Text, arith,
  Bool-cases, Option-cases, inl, inr, ◌⊎◌, if◌then◌else◌,
}
use voix.Rule.{Rule}
use voix.Config.{Config}
use voix.Files.{Expected-cases, value, ExecutableInfo}
use voix.Files.Executables.{open_executable}
use voix.Identity.{Accounts, UserIdentity, get_current_username}
use voix.Environment.{CommandOptions}
use voix.Child.{
  Machine, Outcome, fork_failed, wait_failed, other_status, exited, signaled, Execution, run_child,
  executable_to_open,
}
use voix.Child.Records.{told_of, parent_records, stage_records, child_records, execute_records}
use voix.Tickets.{PrivateFiles}
use voix.Audit.{
  Event, event, started, reported, reported_command, load_failed, Detail, rejected, blocked,
  requested, finished, withheld, no_authentication, no_session, unresolved_identity,
  authentication_failed, session_open_failed, invalid_target, command_withheld, command_requested,
}
use voix.Authenticator
use voix.Audit
use voix.Authenticator.{Pam, AuthState, CredentialMode, authenticate, open_session}

-- Whether an event's text holds the command.
abbrev detail_names : Detail → Bool
detail_names detail = elim detail [
  | rejected command error ↦ true
  | blocked command ↦ true
  | requested command ↦ true
  | finished status command ↦ true
  | _ ↦ false
]

-- Whether a record's text holds the command.
abbrev names_command : Event → Bool
names_command (event code detail user) = detail_names detail
names_command (started command profile) = true
names_command (reported status) = false
names_command (reported_command status command) = true
names_command load_failed = false

-- The records that name a command.
pub mentions : List Event → List Event
mentions [] = []
mentions (e ∷ es) = let rest = mentions es in if names_command e then e ∷ rest else rest

pub mentions-snoc :
    (es : List Event) (e : Event) → names_command e ≡ false → mentions (es ++ e ∷ []) ≡ mentions es
unfolding mentions
mentions-snoc [] e h = rw h refl
mentions-snoc (x ∷ es) e h = rw (mentions-snoc es e h) refl

pub mentions-quiet :
    (es more : List Event) → mentions more ≡ [] → mentions (es ++ more) ≡ mentions es
unfolding mentions
mentions-quiet [] more h = h
mentions-quiet (x ∷ es) more h = rw (mentions-quiet es more h) refl

both_quiet :
    (es more : List Event) → mentions es ≡ [] → mentions more ≡ [] → mentions (es ++ more) ≡ []
both_quiet es more first second = mentions-quiet es more second ∙ first

reported-quiet : (status : ℕ) → mentions (reported status ∷ []) ≡ []
unfolding mentions
reported-quiet status = refl

parent-quiet : (outcome : Outcome) → mentions (parent_records outcome) ≡ []
unfolding mentions
parent-quiet fork_failed = refl
parent-quiet wait_failed = refl
parent-quiet other_status = refl
parent-quiet (exited status) = refl
parent-quiet (signaled signum) = refl

module _ (m : Machine) (config : Config) (command : ExecutableInfo) (args : List Text)
    (options : CommandOptions) (rule : Rule) (target : UserIdentity)
    (quiet : rule.options.nolog ≡ true) (executes : (e : Execution) → m.fexecve_ok e ≡ true) where
  stage-quiet :
      (fd : ℕ) → mentions (stage_records m config command args options rule target fd) ≡ []
  unfolding stage_records
  stage-quiet fd =
      let r =
        run_child m.calls config options rule target m.raw_env command.policy_path args fd
          m.process in
      elim (Expected-cases r) [
        | inl (status, ends) ↦ rw (stage_records, ends) (reported-quiet status)
        | inr (e, reached) ↦ rw (stage_records, reached, executes e) (unfold mentions in refl)
      ]

  child-quiet :
      (fd : ℕ) → mentions (child_records m config command args options rule target fd) ≡ []
  unfolding child_records
  child-quiet fd =
      let records = child_records m config command args options rule target fd in
      elim (Bool-cases m.fork_ok) [
        | inr unforked ↦
            let is : records ≡ [] = ground arith in ap mentions is ∙ (unfold mentions in refl)
        | inl forked ↦ elim (Bool-cases m.calls.sigmask_ok) [
          | inr unmasked ↦
              let is : records ≡ reported 70 ∷ [] = ground arith in
              ap mentions is ∙ reported-quiet 70
          | inl masked ↦
              let is : records ≡ stage_records m config command args options rule target fd =
                ground arith in
              ap mentions is ∙ stage-quiet fd
        ]
      ]

  -- A login shell that is not executed is reported under its own name.
  told-quiet :
      (text : Text) → options.login_shell ≡ true → mentions (told_of options text ∷ []) ≡ []
  told-quiet text login = rw login (reported-quiet 126)

  opened-quiet :
      (executable : ExecutableInfo)
      → executable_to_open m.kernel 0 command options target ≡ some executable
      → (options.login_shell ≡ true)
        ⊎ ((fd : ℕ) × (open_executable m.kernel 0 executable ≡ value fd))
      → mentions (execute_records m config command args options rule target) ≡ []
  unfolding execute_records
  opened-quiet executable found known =
      elim (Expected-cases (open_executable m.kernel 0 executable)) [
        | inr (fd, opened) ↦ elim (Bool-cases m.block_ok) [
          | inr unblocked ↦ rw (execute_records, found, opened, unblocked) (reported-quiet 70)
          | inl blocked_signals ↦
              rw (execute_records, found, opened, blocked_signals)
                (both_quiet (child_records m config command args options rule target fd) _
                  (child-quiet fd) (parent-quiet _))
        ]
        | inl (error, changed) ↦ elim known [
          | inl login ↦ rw (execute_records, found, changed) (told-quiet executable.path login)
          | inr (fd, opened) ↦ absurd (ground arith)
        ]
      ]

  -- Where the command's file is still the checked one and is executed, no record names the command.
  pub execute_records-quiet :
      (fd : ℕ)
      → open_executable m.kernel 0 command ≡ value fd
      → mentions (execute_records m config command args options rule target) ≡ []
  execute_records-quiet fd opened = elim (Bool-cases options.login_shell) [
    | inr plain ↦
        opened-quiet command (unfold executable_to_open in rw plain refl) (inr (fd, opened))
    | inl login ↦ elim (Option-cases (executable_to_open m.kernel 0 command options target)) [
      | inl none_found ↦
          unfold execute_records in rw (execute_records, none_found) (reported-quiet 126)
      | inr (executable, found) ↦ opened-quiet executable found (inl login)
    ]
  ]

module _ {S : Type 0} (files : PrivateFiles S) (accounts : Accounts) (pam : Pam) (dir : Text)
    (now : ℕ) where
  pub authenticate_by-mentions :
      (mode : CredentialMode) (persist : Bool) (uid : ℕ) (user : Text) (a : AuthState S)
      → mentions
          (Authenticator.authenticate_by files accounts pam dir now mode persist uid user a).1.log
        ≡ mentions a.log
  unfolding Authenticator.authenticate_by Authenticator.check_target Authenticator.refuse
      Authenticator.finish Authenticator.validate_target_account
  authenticate_by-mentions mode persist uid user a = ground (
    arith,
    mentions-snoc a.log (event authentication_failed Audit.pam_refused user) refl,
    mentions-snoc a.log (event authentication_failed Audit.caller_account_refused user) refl,
    mentions-snoc a.log (event Audit.account_validation_failed Audit.target_account_refused user)
        refl,
    mentions-snoc a.log (event Audit.authentication_ok Audit.verified user) refl,
  )

  pub authenticate-mentions :
      (non_interactive : Bool) (rule : Option Rule) (user : Text) (a : AuthState S)
      → mentions (authenticate files accounts pam dir now non_interactive rule user a).1.log
        ≡ mentions a.log
  unfolding authenticate
  authenticate-mentions non_interactive rule user a =
      elim (Option-cases (accounts.passwd_by_name user)) [
        | inl unknown ↦
            rw (unknown, authenticate)
              (mentions-snoc a.log
                (event invalid_target Audit.target_missing (get_current_username accounts)) refl)
        | inr (entry, known) ↦ rw (known, authenticate) (authenticate_by-mentions _ _ _ _ _)
      ]

  pub open_session-log :
      (a : AuthState S) → (open_session files accounts pam dir now a).1.log ≡ a.log
  unfolding open_session
  open_session-log a = ground arith
