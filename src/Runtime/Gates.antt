-- ===== src/Runtime/Gates.antt =====
-- `Voix::execute` of src/voix.cpp: what has been checked when a command is launched.
use voix.Base.{
  ℕ, ◌≡◌, refl, sym, Bool, true, false, some, List, Text, arith, Bool-cases, Option-cases, inl, inr,
}
use voix.Config.{Config, get_path}
use voix.Files.{Expected-cases, value, ExecutableInfo}
use voix.Files.Executables.{resolve_executable}
use voix.Identity.{Accounts, PasswdEntry, get_user_by_name, get_current_username}
use voix.Rule.{Rule}
use voix.Permission.{permit}
use voix.Environment.{CommandOptions}
use voix.Security.{is_catastrophic_command, validate_user}
use voix.Child.{Machine}
use voix.Tickets.{PrivateFiles}
use voix.Authenticator.{Pam, AuthState, authenticate, open_session}
use voix.Audit.{command_requested, requested}
use voix.Runtime.{
  emit, Launch, merge_options, launch, in_session, with_session, as_permitted, decide, nolog_of,
  for_target, on_executable, reject_target, voix_execute,
}

module _ {S : Type 0} (files : PrivateFiles S) (accounts : Accounts) (pam : Pam) (dir : Text)
    (now : ℕ) (m : Machine) (config : Config) (regex_search : Text → Text → Bool)
    (non_interactive : Bool) where
  -- The checks behind the policy, from the state in which authentication is called.
  abbrev pub Admitted :
      ExecutableInfo → List Text → CommandOptions → Text → Rule → AuthState S → Launch → Type 0
  Admitted executable args options user rule b l =
      ((authenticate files accounts pam dir now non_interactive (some rule) user b).0 ≡ true)
      × ((open_session files accounts pam dir now
            (authenticate files accounts pam dir now non_interactive (some rule) user b).1).0
          ≡ true)
      × (get_user_by_name accounts user ≡ some l.identity)
      × (l ≡ record {
        executable = executable;
        args = args;
        options = merge_options config options rule;
        rule = rule;
        identity = l.identity;
      })

  session_gates :
      (executable : ExecutableInfo) (args : List Text) (options : CommandOptions) (user : Text)
      (rule : Rule) (a : AuthState S) (l : Launch)
      → (in_session files accounts pam dir now m config regex_search non_interactive executable args
          options user rule a).launched
        ≡ some l
      → (get_user_by_name accounts user ≡ some l.identity)
        × (l ≡ record {
          executable = executable;
          args = args;
          options = merge_options config options rule;
          rule = rule;
          identity = l.identity;
        })
  unfolding in_session launch
  session_gates executable args options user rule a l e =
      elim (Option-cases (get_user_by_name accounts user)) [
        | inl unknown ↦ absurd (ground arith)
        | inr (identity, known) ↦
            let same : record {
              executable = executable;
              args = args;
              options = merge_options config options rule;
              rule = rule;
              identity = identity;
            }
                ≡ l =
              ground arith in
            rw (sym same) (known, refl)
      ]

  admission_gates :
      (executable : ExecutableInfo) (args : List Text) (options : CommandOptions) (user : Text)
      (rule : Rule) (b : AuthState S) (l : Launch)
      → (as_permitted files accounts pam dir now m config regex_search non_interactive executable
          args options user rule b).launched
        ≡ some l
      → Admitted executable args options user rule b l
  unfolding as_permitted with_session
  admission_gates executable args options user rule b l e =
      let after = authenticate files accounts pam dir now non_interactive (some rule) user b in
      elim (Bool-cases after.0) [
        | inl ok ↦ elim (Bool-cases (open_session files accounts pam dir now after.1).0) [
          | inl opened ↦
              let (known, same) =
                session_gates executable args options user rule
                  (open_session files accounts pam dir now after.1).1 l (ground arith) in
              (ok, opened, known, same)
          | inr closed ↦ absurd (ground arith)
        ]
        | inr failed ↦ absurd (ground arith)
      ]

  policy_gates :
      (executable : ExecutableInfo) (args : List Text) (options : CommandOptions) (user : Text)
      (entry : PasswdEntry) (a : AuthState S) (l : Launch)
      → (for_target files accounts pam dir now m config regex_search non_interactive executable args
          options user entry a).launched
        ≡ some l
      → (rule : Rule) × (permit m.kernel accounts config
            (record { command = executable.policy_path; args = args; target_uid = entry.uid })
          ≡ some rule)
        × ((b : AuthState S) × (b.tickets ≡ a.tickets)
            × Admitted executable args options user rule b l)
  unfolding for_target decide nolog_of
  policy_gates executable args options user entry a l e =
      let asked =
        permit m.kernel accounts config
          (record { command = executable.policy_path; args = args; target_uid = entry.uid }) in
      elim (Option-cases asked) [
        | inl denied ↦ absurd (ground arith)
        | inr (rule, granted) ↦
            let b =
              emit rule.options.nolog command_requested (requested executable.policy_path)
                (get_current_username accounts) false a in
            let same_tickets : b.tickets ≡ a.tickets = ground arith in
            (
              rule,
              granted,
              (
                b,
                same_tickets,
                admission_gates executable args options user rule b l (rw granted at e),
              ),
            )
      ]

  -- The checks that the launch of `l` has passed.
  abbrev pub Gated : Text → List Text → CommandOptions → Text → AuthState S → Launch → Type 0
  Gated command args options user a l =
      (executable : ExecutableInfo) × (resolve_executable m.kernel 0 command (get_path config)
        ≡ value executable)
      × (is_catastrophic_command m.kernel regex_search config executable.policy_path args ≡ false)
      × (validate_user accounts user ≡ true)
      × ((entry : PasswdEntry) × (accounts.passwd_by_name user ≡ some entry)
          × ((rule : Rule) × (permit m.kernel accounts config
                  (record { command = executable.policy_path; args = args; target_uid = entry.uid })
                ≡ some rule)
              × ((b : AuthState S) × (b.tickets ≡ a.tickets)
                  × Admitted executable args options user rule b l)))

  -- A command is launched only behind every gate: it is the executable that its name resolves to, a
  -- file of root's; it is not catastrophic; the target exists and its name is valid; the policy
  -- permits exactly this executable, these arguments and this target, by the rule that is launched
  -- with; authentication by that rule and the opening of the session succeed, with the tickets that
  -- the invocation began with; and the environment is preserved only where the rule has keepenv.
  pub voix_execute-gates :
      (command : Text) (args : List Text) (options : CommandOptions) (user : Text) (a : AuthState S)
      (l : Launch)
      → (voix_execute files accounts pam dir now m config regex_search non_interactive command args
          options user a).launched
        ≡ some l
      → Gated command args options user a l
  unfolding voix_execute on_executable reject_target
  voix_execute-gates command args options user a l e =
      elim (Expected-cases (resolve_executable m.kernel 0 command (get_path config))) [
        | inl (error, missing) ↦ absurd (ground arith)
        | inr (executable, found) ↦
            elim (Bool-cases
              (is_catastrophic_command m.kernel regex_search config executable.policy_path args)) [
                | inl catastrophic ↦ absurd (ground arith)
                | inr harmless ↦ elim (Option-cases (accounts.passwd_by_name user)) [
                  | inl unknown ↦ absurd (ground arith)
                  | inr (entry, known) ↦ elim (Bool-cases (validate_user accounts user)) [
                    | inl good ↦ (
                      executable,
                      found,
                      harmless,
                      good,
                      (
                        entry,
                        known,
                        policy_gates executable args options user entry a l (ground arith),
                      ),
                    )
                    | inr bad ↦ absurd (ground arith)
                  ]
                ]
              ]
      ]
