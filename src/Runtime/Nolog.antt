-- ===== src/Runtime/Nolog.antt =====
-- The nolog option in `Voix::execute` of src/voix.cpp: the records of the log that name the command.
use voix.Base.{
  ℕ, ◌≡◌, refl, ap, ◌∙◌, Bool, true, false, some, List, [], ◌∷◌, ◌++◌, Text, arith, Bool-cases,
  Option-cases, inl, inr,
}
use voix.Rule.{Rule}
use voix.Config.{Config, get_path}
use voix.Files.{value, ExecutableInfo}
use voix.Files.Executables.{resolve_executable, open_executable}
use voix.Identity.{Accounts, PasswdEntry, get_user_by_name, get_current_username}
use voix.Permission.{permit}
use voix.Environment.{CommandOptions}
use voix.Security.{is_catastrophic_command, validate_user}
use voix.Child.{Machine, Execution, run_command}
use voix.Child.Records.{execute_records}
use voix.Runtime.Mentions.{
  mentions, mentions-snoc, mentions-quiet, execute_records-quiet, authenticate-mentions,
  open_session-log,
}
use voix.Tickets.{PrivateFiles}
use voix.Audit.{
  event, reported, requested, withheld, no_authentication, no_session, unresolved_identity,
  authentication_failed, session_open_failed, invalid_target, command_withheld, command_requested,
}
use voix.Authenticator
use voix.Authenticator.{Pam, AuthState, CredentialMode, authenticate, open_session}
use voix.Runtime.{
  emit, log_event, records, Launch, launch, in_session, with_session, as_permitted, decide,
  nolog_of, for_target, on_executable, voix_execute,
}

module _ {S : Type 0} (files : PrivateFiles S) (accounts : Accounts) (pam : Pam) (dir : Text)
    (now : ℕ) (m : Machine) (config : Config) (regex_search : Text → Text → Bool)
    (non_interactive : Bool) (executes : (e : Execution) → m.fexecve_ok e ≡ true) where
  launch-mentions :
      (l : Launch) (a : AuthState S)
      → l.rule.options.nolog ≡ true
      → ((fd : ℕ) × (open_executable m.kernel 0 l.executable ≡ value fd))
      → mentions
          (launch files accounts pam dir now m config regex_search non_interactive l a).auth.log
        ≡ mentions a.log
  unfolding launch Authenticator.close_session
  launch-mentions l a quiet (fd, opened) =
      let ran = execute_records m config l.executable l.args l.options l.rule l.identity in
      let told =
        event command_withheld
          (withheld (run_command m config l.executable l.args l.options l.rule l.identity))
          (get_current_username accounts) in
      let added : (launch files accounts pam dir now m config regex_search non_interactive l
            a).auth.log
          ≡ (a.log ++ ran) ++ told ∷ [] =
        ground arith in
      ap mentions added
      ∙ mentions-snoc (a.log ++ ran) told refl
      ∙ mentions-quiet a.log ran (
          execute_records-quiet m config l.executable l.args l.options l.rule l.identity quiet
            executes fd opened)

  in_session-mentions :
      (executable : ExecutableInfo) (args : List Text) (options : CommandOptions) (user : Text)
      (rule : Rule) (a : AuthState S)
      → rule.options.nolog ≡ true
      → ((fd : ℕ) × (open_executable m.kernel 0 executable ≡ value fd))
      → mentions
          (in_session files accounts pam dir now m config regex_search non_interactive executable
            args options user rule a).auth.log
        ≡ mentions a.log
  unfolding in_session Authenticator.close_session
  in_session-mentions executable args options user rule a quiet opens =
      elim (Option-cases (get_user_by_name accounts user)) [
        | inl unknown ↦
            rw (unknown, in_session)
              (rw quiet (
                mentions-snoc (a.log ++ reported 70 ∷ [])
                  (event invalid_target (unresolved_identity user) (get_current_username accounts))
                  refl
                ∙ mentions-snoc a.log (reported 70) refl))
        | inr (identity, known) ↦ rw (known, in_session) (launch-mentions _ a quiet opens)
      ]

  with_session-mentions :
      (executable : ExecutableInfo) (args : List Text) (options : CommandOptions) (user : Text)
      (rule : Rule) (a : AuthState S)
      → rule.options.nolog ≡ true
      → ((fd : ℕ) × (open_executable m.kernel 0 executable ≡ value fd))
      → mentions
          (with_session files accounts pam dir now m config regex_search non_interactive executable
            args options user rule a).auth.log
        ≡ mentions a.log
  unfolding with_session
  with_session-mentions executable args options user rule a quiet opens =
      let after = open_session files accounts pam dir now a in
      let kept = ap mentions (open_session-log files accounts pam dir now a) in
      elim (Bool-cases after.0) [
        | inl opened ↦
            rw (opened, with_session)
              (in_session-mentions executable args options user rule after.1 quiet opens ∙ kept)
        | inr closed ↦
            rw (closed, with_session)
              (rw quiet (
                mentions-snoc (after.1.log ++ reported 1 ∷ [])
                  (event session_open_failed no_session (get_current_username accounts)) refl
                ∙ mentions-snoc after.1.log (reported 1) refl
                ∙ kept))
      ]

  as_permitted-mentions :
      (executable : ExecutableInfo) (args : List Text) (options : CommandOptions) (user : Text)
      (rule : Rule) (a : AuthState S)
      → rule.options.nolog ≡ true
      → ((fd : ℕ) × (open_executable m.kernel 0 executable ≡ value fd))
      → mentions
          (as_permitted files accounts pam dir now m config regex_search non_interactive executable
            args options user rule a).auth.log
        ≡ mentions a.log
  unfolding as_permitted
  as_permitted-mentions executable args options user rule a quiet opens =
      let after = authenticate files accounts pam dir now non_interactive (some rule) user a in
      let kept =
        authenticate-mentions files accounts pam dir now non_interactive (some rule) user a in
      elim (Bool-cases after.0) [
        | inl ok ↦
            rw (ok, as_permitted)
              (with_session-mentions executable args options user rule after.1 quiet opens ∙ kept)
        | inr failed ↦
            let e = event authentication_failed no_authentication (get_current_username accounts) in
            let told : emit rule.options.nolog authentication_failed no_authentication
                  (get_current_username accounts) true (records (reported 1 ∷ []) after.1)
                ≡ log_event e (records (reported 1 ∷ []) after.1) =
              ground arith in
            rw (failed, as_permitted)
              (ap (λ b. mentions b.log) told
                ∙ mentions-snoc (after.1.log ++ reported 1 ∷ []) e refl
                ∙ mentions-snoc after.1.log (reported 1) refl
                ∙ kept)
      ]

  for_target-mentions :
      (executable : ExecutableInfo) (args : List Text) (options : CommandOptions) (user : Text)
      (entry : PasswdEntry) (rule : Rule) (a : AuthState S)
      → permit m.kernel accounts config
          (record { command = executable.policy_path; args = args; target_uid = entry.uid })
        ≡ some rule
      → rule.options.nolog ≡ true
      → ((fd : ℕ) × (open_executable m.kernel 0 executable ≡ value fd))
      → mentions
          (for_target files accounts pam dir now m config regex_search non_interactive executable
            args options user entry a).auth.log
        ≡ mentions a.log
  unfolding for_target decide nolog_of
  for_target-mentions executable args options user entry rule a granted quiet opens =
      let silent : emit rule.options.nolog command_requested (requested executable.policy_path)
            (get_current_username accounts) false a
          ≡ a =
        ground arith in
      rw (granted, for_target)
        (ap
            (λ b.
              mentions
                (as_permitted files accounts pam dir now m config regex_search non_interactive
                  executable args options user rule b).auth.log)
            silent
          ∙ as_permitted-mentions executable args options user rule a quiet opens)

  -- Where the policy grants the request by a rule with nolog, the command's file is still the checked one
  -- when it is opened, and the kernel executes what it is given, the invocation adds no record to the log
  -- that names the command: neither an event, nor a report of an error, nor the child's announcement,
  -- whether the authentication fails, the session cannot be opened, the target cannot be resolved, a
  -- stage ends the child, or the command runs. (Without the two conditions the report of the failed
  -- execution names it.)
  pub voix_execute-nolog :
      (command : Text) (args : List Text) (options : CommandOptions) (user : Text) (a : AuthState S)
      (executable : ExecutableInfo) (entry : PasswdEntry) (rule : Rule) (fd : ℕ)
      → resolve_executable m.kernel 0 command (get_path config) ≡ value executable
      → is_catastrophic_command m.kernel regex_search config executable.policy_path args ≡ false
      → accounts.passwd_by_name user ≡ some entry
      → validate_user accounts user ≡ true
      → permit m.kernel accounts config
          (record { command = executable.policy_path; args = args; target_uid = entry.uid })
        ≡ some rule
      → rule.options.nolog ≡ true
      → open_executable m.kernel 0 executable ≡ value fd
      → mentions
          (voix_execute files accounts pam dir now m config regex_search non_interactive command
            args options user a).auth.log
        ≡ mentions a.log
  unfolding voix_execute on_executable
  voix_execute-nolog command args options user a executable entry rule fd found harmless known good
        granted quiet opened =
      let same : voix_execute files accounts pam dir now m config regex_search non_interactive
            command args options user a
          ≡ for_target files accounts pam dir now m config regex_search non_interactive executable
              args options user entry a =
        ground arith in
      ap (λ r. mentions r.auth.log) same
      ∙ for_target-mentions executable args options user entry rule a granted quiet (fd, opened)
