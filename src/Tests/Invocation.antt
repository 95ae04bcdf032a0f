-- ===== src/Tests/Invocation.antt =====
-- The theorems of the confinement, the authentication and the whole invocation at concrete values.
use voix.Base.{
  contains, is_empty, ℕ, ◌≡◌, ◌↔◌, refl, not, ◌&&◌, ◌||◌, Bool, true, false, Option, none, some,
  List, [], ◌∷◌, Text, codes, In, length, ◌⊎◌, list_beq, if◌then◌else◌, list_eq, nat_eq,
}
use voix.Rule.{Rule, no_options}
use voix.Runtime.Mentions.{mentions}
use voix.Runtime.Nolog.{voix_execute-nolog}
use voix.Paths.{filename, filename_from}
use voix.Files.{Expected, value, unexpected, ExecutableInfo}
use voix.Files.Executables.{resolve_executable, open_executable}
use voix.Config.{Config, get_path, get_profile, is_unconfined_target}
use voix.Identity.{get_user_by_name, get_current_username, PasswdEntry}
use voix.Environment.{CommandOptions, resolve_profile, sanitize_environment}
use voix.Security.{canonicalize_blocklist_path, is_catastrophic_command, validate_user}
use voix.Security.Seccomp.{
  Libseccomp, added, Filter, k_allowlist_baseline, apply_seccomp_allowlist, add_allow_rules,
  add_allow_rule, add_rule, add_allowlist, load_filter, apply_seccomp_blacklist, add_kill_rules,
}
use voix.Security.Seccomp.Allowlist.{Named, apply_seccomp_allowlist-rules}
use voix.Child
use voix.Runtime
use voix.Security
use voix.Permission
use voix.Authenticator
use voix.Child.{Calls, Process, Execution, run_child, Machine, Outcome, exited}
use voix.Child.Confined.{Confined, run_child-Confined}
use voix.Child.Target.{saved_environment, run_child-as_target}
use voix.Environment.Table.{get_env, NodupKeys}
use voix.Tickets.{record_ticket}
use voix.Tickets.Memory.{memory}
use voix.Authenticator.{Pam, AuthState, authenticate, open_session, select_credential_mode}
use voix.Authenticator.Verdict.{authenticate-verdict, authenticate-tickets, is_trusted, has_ticket}
use voix.Runtime.{Launch, Result, voix_execute, merge_options}
use voix.Runtime.Gates.{Admitted, voix_execute-gates}
use voix.Tests.Values.{kernel, accounts, config, root, root_identity, permit_ls}

abbrev pub lib : Libseccomp
lib = record {
  init_ok = true;
  resolve_name = λ name. some (length name);
  scmp_sys = λ name. length name;
  rule_add = λ sc. added;
  load_ok = true;
}

abbrev rules_or_none : Option (List ℕ) → List ℕ
rules_or_none none = []
rules_or_none (some rules) = rules

abbrev extra : List Text
extra = codes "clone" ∷ []

abbrev allowed : Filter
allowed = record { default_allow = false; rules = rules_or_none (add_allowlist lib extra) }

loaded : apply_seccomp_allowlist lib extra ≡ value allowed
unfolding apply_seccomp_allowlist add_allowlist load_filter add_allow_rules add_allow_rule add_rule
    codes
loaded = refl

apply_seccomp_allowlist-rules_example :
    (false ≡ false)
    × ((sc : ℕ) → In sc allowed.rules ↔ (Named lib sc k_allowlist_baseline ⊎ Named lib sc extra))
apply_seccomp_allowlist-rules_example = apply_seccomp_allowlist-rules lib extra allowed loaded

abbrev pub calls : Calls
calls = record {
  sigmask_ok = true;
  setgroups_ok = true;
  setgid_ok = true;
  setuid_ok = true;
  drop_caps_ok = true;
  getrlimit_nofile = some 1024;
  setrlimit_ok = λ r. true;
  dup2_ok = true;
  close_range_ok = true;
  no_new_privs_ok = true;
  fcntl_ok = true;
  seccomp = lib;
}

abbrev pub process : Process
process = record {
  default_signals = false;
  umask = 0;
  groups = 100 ∷ [];
  gid = 100;
  uid = 0;
  capabilities = true;
  environment = [];
  limits = [];
  open_fds = 0 ∷ 1 ∷ 2 ∷ 5 ∷ 7 ∷ [];
  no_new_privs = false;
  filter = none;
}

abbrev execution_or : Execution → Expected ℕ Execution → Execution
execution_or e (unexpected status) = e
execution_or e (value execution) = execution

abbrev pub options : CommandOptions
options = record {
  preserve_env = false;
  login_shell = false;
  set_home = false;
  list_commands = false;
  check_config = false;
}

abbrev execution : Execution
execution =
    execution_or (record { process = process; fd = 7; argv = [] })
      (run_child calls config options permit_ls root_identity [] (codes "/bin/ls") [] 7 process)

reached :
    run_child calls config options permit_ls root_identity [] (codes "/bin/ls") [] 7 process
    ≡ value execution
unfolding run_child Child.reset_child_signals_and_umask Child.apply_privilege_transition
    Child.apply_capability_drop resolve_profile is_unconfined_target get_profile
    Child.apply_resource_limits_and_close_fds Child.set_resource_limits Child.close_fds
    Child.apply_kernel_confinement Child.apply_seccomp list_beq codes apply_seccomp_blacklist
    load_filter add_kill_rules add_rule Child.do_exec
reached = refl

confined :
    (resolve_profile config permit_ls (Child.target_name root_identity)).retain_full_capabilities
    ≡ false
unfolding resolve_profile codes list_beq is_unconfined_target get_profile
confined = refl

nothing_twice : NodupKeys (
    saved_environment calls config options permit_ls root_identity []
      (codes "/bin/ls")
      []
      7
      process)
unfolding sanitize_environment resolve_profile codes list_beq is_unconfined_target get_profile
nothing_twice = tt

run_child-as_target_example :
    let env = execution.process.environment in
    (execution.process.uid ≡ 0)
    × (execution.process.gid ≡ root_identity.gid)
    × (execution.process.groups
        ≡ (if is_empty root_identity.groups then process.groups else root_identity.groups))
    × (get_env (codes "USER") env ≡ some root_identity.username)
    × (get_env (codes "LOGNAME") env ≡ some root_identity.username)
    × (get_env (codes "HOME") env
        ≡ get_env (codes "HOME") (
            saved_environment calls config options permit_ls root_identity []
              (codes "/bin/ls")
              []
              7
              process))
    × (get_env (codes "SHELL") env
        ≡ get_env (codes "SHELL") (
            saved_environment calls config options permit_ls root_identity []
              (codes "/bin/ls")
              []
              7
              process))
run_child-as_target_example =
    run_child-as_target calls config options permit_ls root_identity [] (codes "/bin/ls") [] 7
      process execution nothing_twice (tt, (tt, (tt, (tt, (tt, tt))))) reached

run_child-Confined_example :
    Confined calls config options permit_ls root_identity []
      (codes "/bin/ls")
      []
      7
      process
      execution
run_child-Confined_example =
    run_child-Confined calls config options permit_ls root_identity [] (codes "/bin/ls") [] 7
      process execution reached confined

abbrev pub pam : Pam
pam = record {
  start = true;
  authenticate = true;
  acct_mgmt = true;
  target_start = true;
  target_acct_mgmt = true;
  establish_cred = true;
  open_session = true;
}

abbrev pub Files : Type 0
Files = List (Text × Text)

abbrev pub before : AuthState Files
before = record { handle = false; last_error = none; tickets = []; log = [] }

root_known : accounts.passwd_by_name (codes "root") ≡ some root
unfolding codes list_beq
root_known = refl

authenticate-verdict_example :
    (authenticate memory accounts pam
      (codes "/t")
      5000
      false
      (some permit_ls)
      (codes "root")
      before).0
    ≡ (true && (true && (true && true)))
      && (is_trusted memory accounts pam (codes "/t") 5000 false (some permit_ls)
          || (has_ticket memory accounts pam (codes "/t") 5000 false (some permit_ls) root before
              || (not false && true)))
authenticate-verdict_example =
    authenticate-verdict memory accounts pam (codes "/t") 5000 false (some permit_ls) (codes "root")
      root before root_known

abbrev after : Bool × AuthState Files
after =
    authenticate memory accounts pam (codes "/t") 5000 false (some permit_ls) (codes "root") before

authenticate-tickets_example : after.1.tickets ≡ (
    if after.0
      && (false
          && (not (is_trusted memory accounts pam (codes "/t") 5000 false (some permit_ls))
              && (not (
                    has_ticket memory accounts pam
                      (codes "/t")
                      5000
                      false
                      (some permit_ls)
                      root
                      before)
                  && (not false && true))))
    then (record_ticket memory (codes "/t") 5000 1000 0 []).1
    else [])
authenticate-tickets_example =
    authenticate-tickets memory accounts pam (codes "/t") 5000 false (some permit_ls) (codes "root")
      root before root_known

abbrev pub machine : Machine
machine = record {
  kernel = kernel;
  calls = calls;
  block_ok = true;
  fork_ok = true;
  raw_env = [];
  process = process;
  fexecve_ok = λ e. true;
  program = λ e. exited 0;
}

abbrev pub no_regex : Text → Text → Bool
no_regex s pattern = false

abbrev pub ls_launch : Launch
ls_launch = record {
  executable = record {
    path = codes "/bin/ls";
    policy_path = codes "/bin/ls";
    device = 1;
    inode = 2;
  };
  args = [];
  options = options;
  rule = permit_ls;
  identity = root_identity;
}

launched :
    (voix_execute memory accounts pam
      (codes "/t")
      5000
      machine
      config
      no_regex
      false
      (codes "ls")
      []
      options
      (codes "root")
      before).launched
    ≡ some ls_launch
unfolding voix_execute codes list_beq resolve_executable get_path validate_user
    is_catastrophic_command authenticate Runtime.on_executable Security.trim_right
    Security.trim_left Security.is_builtin_catastrophic canonicalize_blocklist_path
    Runtime.for_target Permission.permit get_current_username Permission.permit_from
    Permission.match_rule Permission.identity_matches Permission.rule_target_uid
    Permission.canonical_command_for_match Permission.resolve_variables Runtime.as_permitted
    Authenticator.authenticate_by select_credential_mode Authenticator.validate_target_account
    Runtime.with_session open_session Runtime.in_session get_user_by_name Runtime.launch
    merge_options filename filename_from Security.is_blocked_by
launched = refl

voix_execute-gates_example :
    (executable : ExecutableInfo) × (resolve_executable kernel 0 (codes "ls") (get_path config)
      ≡ value executable)
    × (is_catastrophic_command kernel no_regex config executable.policy_path [] ≡ false)
    × (validate_user accounts (codes "root") ≡ true)
    × ((entry : PasswdEntry) × (accounts.passwd_by_name (codes "root") ≡ some entry)
        × ((rule : Rule) × (Permission.permit kernel accounts config
                (record { command = executable.policy_path; args = []; target_uid = entry.uid })
              ≡ some rule)
            × ((b : AuthState Files) × (b.tickets ≡ [])
                × Admitted memory accounts pam
                    (codes "/t")
                    5000
                    machine
                    config
                    no_regex
                    false
                    executable
                    []
                    options
                    (codes "root")
                    rule
                    b
                    ls_launch)))
voix_execute-gates_example =
    voix_execute-gates memory accounts pam (codes "/t") 5000 machine config no_regex false
      (codes "ls") [] options (codes "root") before ls_launch launched

abbrev quiet_ls : Rule
quiet_ls = record permit_ls { options = record no_options { nolog = true } }

abbrev quiet_config : Config
quiet_config = record config { rules = quiet_ls ∷ [] }

abbrev ls_executable : ExecutableInfo
ls_executable = record {
  path = codes "/bin/ls";
  policy_path = codes "/bin/ls";
  device = 1;
  inode = 2;
}

ls_found : resolve_executable kernel 0 (codes "ls") (get_path quiet_config) ≡ value ls_executable
unfolding resolve_executable get_path codes
ls_found = refl

ls_harmless : is_catastrophic_command kernel no_regex quiet_config (codes "/bin/ls") [] ≡ false
unfolding is_catastrophic_command contains codes list_beq Security.trim_right Security.trim_left
    Security.is_builtin_catastrophic canonicalize_blocklist_path filename filename_from
    Security.is_blocked_by
ls_harmless = refl

ls_opens : open_executable kernel 0 ls_executable ≡ value 7
unfolding open_executable codes
ls_opens = refl

root_valid : validate_user accounts (codes "root") ≡ true
unfolding validate_user codes list_beq get_user_by_name
root_valid = refl

quiet_granted :
    Permission.permit kernel accounts quiet_config
      (record { command = codes "/bin/ls"; args = []; target_uid = 0 })
    ≡ some quiet_ls
unfolding Permission.permit Permission.permit_from Permission.match_rule codes list_beq
    get_user_by_name get_current_username Permission.identity_matches Permission.rule_target_uid
    Permission.canonical_command_for_match Permission.resolve_variables
quiet_granted = refl

voix_execute-nolog_example :
    mentions
      (voix_execute memory accounts pam
        (codes "/t")
        5000
        machine
        quiet_config
        no_regex
        false
        (codes "ls")
        []
        options
        (codes "root")
        before).auth.log
    ≡ mentions []
voix_execute-nolog_example =
    voix_execute-nolog memory accounts pam (codes "/t") 5000 machine quiet_config no_regex false
      (λ e. refl) (codes "ls") [] options (codes "root") before ls_executable root quiet_ls 7
      ls_found ls_harmless root_known root_valid quiet_granted refl ls_opens
