-- ===== src/Tests/CommandLine.antt =====
-- The theorems of the command line, its modes and the clearing of tickets at concrete values.
use voix.Base.{
  ◌<◌, ◌≡◌, ◌↔◌, refl, true, false, Option, none, some, List, [], ◌∷◌, Text, codes, list_beq,
  starts_with, arith, nat_eq, list_eq,
}
use voix.Files.{value}
use voix.Files.Executables.{resolve_executable}
use voix.Files.Trust.{is_trusted_path}
use voix.Paths.{filename, filename_from}
use voix.Identity.{get_user_by_name, get_current_username}
use voix.Permission
use voix.Runtime
use voix.Security
use voix.Numbers
use voix.Config.Loading
use voix.Authenticator
use voix.Security.{canonicalize_blocklist_path, is_catastrophic_command, validate_user}
use voix.Security.Seccomp.{validate_syscall_names}
use voix.Config.Profiles.{parse_profile}
use voix.Config.Validation.{profile_error, validate_sanctuary_path}
use voix.Config.{get_path, Config}
use voix.Config.Valid.{IsValid}
use voix.Tickets.{ticket_dir, path_for}
use voix.Tickets.Memory.{memory}
use voix.Authenticator.{AuthState, authenticate, open_session, select_credential_mode}
use voix.Security.Capabilities.{LibCap}
use voix.Runtime.{Launch, merge_options, voix_execute}
use voix.Main.Options.{
  Settings, default_settings, parse_options, command_args, opt_check_config, opt_clear, opt_user,
  opt_help,
}
use voix.Main.Described.{described, parse_options-described}
use voix.Main.{World, main, load_config, cleared}
use voix.Main.Launches.{Accepted, GatedRun, main-launched}
use voix.Main.Checks.{main-check_config}
use voix.Main.Status.{main-bound}
use voix.Tests.Values.{accounts, tree}
use voix.Tests.Documents.{Node, yaml}
use voix.Tests.Invocation.{ls_launch, Files, before, machine, pam, no_regex}
use voix.Tests.Settings.{any_regex, loaded_config}

abbrev cap : LibCap
cap = record {
  raise_get_proc = true;
  raise_set_flag = true;
  raise_set_proc = true;
  drop_get_proc = true;
  drop_clear = true;
  drop_set_flag = true;
  drop_set_proc = true;
}

abbrev world : World Node Files
world = record {
  yaml = yaml;
  accounts = accounts;
  machine = record machine { kernel = tree };
  regex_ok = any_regex;
  regex_search = no_regex;
  files = memory;
  pam = pam;
  now = 5000;
  cap = cap;
}

parse_options-described_example :
    parse_options (opt_user (codes "ann") ∷ opt_help ∷ []) default_settings
    ≡ described default_settings (opt_user (codes "ann") ∷ opt_help ∷ [])
parse_options-described_example = parse_options-described (opt_user (codes "ann") ∷ opt_help ∷ [])

abbrev checking : Settings
checking = record default_settings {
  options = record default_settings.options { check_config = true };
}

parsed : parse_options (opt_check_config ∷ []) default_settings ≡ value checking
unfolding parse_options
parsed = refl

main-check_config_example :
    ((main world true false (opt_check_config ∷ []) [] before).launched ≡ none)
    × (((main world true false (opt_check_config ∷ []) [] before).auth.tickets ≡ before.tickets)
        × (((main world true false (opt_check_config ∷ []) [] before).status ≡ 0) ↔ (
            (c : Config) × (load_config world checking.config_path ≡ (true, c))
            × IsValid tree machine.calls.seccomp c)))
main-check_config_example =
    main-check_config world (opt_check_config ∷ []) [] checking before parsed refl

abbrev clearing : Settings
clearing = record default_settings { clear_timestamp = true }

-- One ticket of the caller, in the sanctuary.
abbrev ticketed : AuthState Files
ticketed = record before {
  tickets = (path_for (ticket_dir loaded_config.sanctuary) 1000 0, codes "5000") ∷ [];
}

abbrev launch_or : Launch → Option Launch → Launch
launch_or l none = l
launch_or l (some given) = given

abbrev launch : Launch
launch = launch_or ls_launch (main world true false [] (codes "ls" ∷ []) before).launched

launches : (main world true false [] (codes "ls" ∷ []) before).launched ≡ some launch
unfolding main codes list_beq is_trusted_path parse_profile profile_error validate_syscall_names
    starts_with validate_sanctuary_path resolve_executable get_path Runtime.on_executable
    is_catastrophic_command Security.trim_right Security.trim_left Security.is_builtin_catastrophic
    canonicalize_blocklist_path Security.is_blocked_by Security.canonicalize_policy_path
    validate_user Runtime.for_target Permission.permit get_current_username Permission.permit_from
    Permission.match_rule Permission.identity_matches Permission.rule_target_uid
    Permission.canonical_command_for_match Permission.resolve_variables Runtime.as_permitted
    authenticate Authenticator.authenticate_by select_credential_mode
    Authenticator.validate_target_account Runtime.with_session open_session Runtime.in_session
    get_user_by_name Runtime.launch merge_options filename filename_from voix_execute
launches = refl

main-launched_example :
    (s : Settings) × (words : List Text) × (c : Config) × (parse_options [] default_settings
      ≡ value s)
    × (command_args accounts s (codes "ls" ∷ []) ≡ value words)
    × (s.options.check_config ≡ false)
    × (s.options.list_commands ≡ false)
    × Accepted world s c
    × GatedRun world s words c (cleared world s.clear_timestamp c before) launch
main-launched_example = main-launched world true false [] (codes "ls" ∷ []) before launch launches

main-bound_example : (main world true false (opt_clear ∷ []) [] before).status < 256
main-bound_example = main-bound world (λ e. omega arith) true false (opt_clear ∷ []) [] before

abbrev stored : Files
stored = (codes "/t/1000-0", codes "5000") ∷ []
