-- ===== src/Main.antt =====
-- src/main.cpp: the command line, the modes and the status of the process. The messages on standard
-- error and the usage are left out.
pub mod Options
pub mod Described
pub mod Status
pub mod Launches
pub mod Checks
use voix.Base.{
  ℕ, Bool, true, false, not, ◌&&◌, ◌||◌, Option, none, some, List, [], ◌∷◌, ◌++◌, Text, codes,
  is_empty, if◌then◌else◌,
}
use voix.Files.{Expected, value, unexpected}
use voix.Identity.{Accounts, resolve_login_shell}
use voix.Config.{Config, default_config}
use voix.Config.Yaml.{Yaml}
use voix.Config.Loading.{load}
use voix.Config.Validation.{validate}
use voix.Policy.{PolicyFinding, analyze}
use voix.Audit.{Event, reported, load_failed}
use voix.Child.{Machine}
use voix.Tickets.{PrivateFiles, ticket_dir}
use voix.Authenticator.{Pam, AuthState, clear_timestamp}
use voix.Security.Capabilities.{
  LibCap, Thrown, voix_error, exception, raise_capabilities, drop_capabilities,
}
use voix.Runtime.{Launch, Result, voix_execute}
use voix.Runtime.Listed.{list_commands}
use voix.Main.Options.{Opt, Settings, default_settings, parse_options, command_args}

-- What the process does and how it ends: its status, the findings and lines that it prints, the
-- command that it launches, and the state of the authenticator.
pub record Report (S : Type 0) : Type 0 where
  pub status : ℕ
  pub findings : List PolicyFinding
  pub printed : List Text
  pub launched : Option Launch
  pub auth : AuthState S

abbrev pub ends : {S : Type 0} → ℕ → AuthState S → Report S
ends status a = record { status = status; findings = []; printed = []; launched = none; auth = a }

-- A report in the log, and the end with its status.
abbrev pub fails : {S : Type 0} → List Event → ℕ → AuthState S → Report S
fails before status a = ends status (record a { log = a.log ++ (before ++ reported status ∷ []) })

-- The status of an exception.
abbrev pub status_of : Thrown → ℕ
status_of (voix_error code) = code
status_of exception = 70

-- The program's surroundings.
pub record World (N S : Type 0) : Type 0 where
  pub yaml : Yaml N
  pub accounts : Accounts
  pub machine : Machine
  pub regex_ok : Text → Bool  -- whether `std::regex` takes the pattern
  pub regex_search : Text → Text → Bool
  pub files : PrivateFiles S
  pub pam : Pam
  pub now : ℕ
  pub cap : LibCap

module _ {N S : Type 0} (w : World N S) where
  unfoldable pub load_config : Text → Bool × Config
  unfolding load
  load_config path =
      load w.yaml w.accounts w.machine.kernel w.machine.calls.seccomp w.regex_ok path true
        default_config

  unfoldable pub checked : AuthState S → Bool × Config → Report S
  unfolding validate analyze
  checked a (loaded, c) =
      if not loaded
      then fails (load_failed ∷ []) 78 a
      else let (valid, c') = validate w.machine.kernel w.machine.calls.seccomp c in
        if not valid then fails [] 78 a else record (ends 0 a) {
          findings = analyze c';
          printed = codes "Configuration is valid." ∷ [];
        }

  -- `--check-config`
  unfoldable pub check_config : Text → AuthState S → Report S
  unfolding load_config checked
  check_config path a = checked a (load_config path)

  -- The tickets where they are cleared.
  unfoldable pub cleared : Bool → Config → AuthState S → AuthState S
  unfolding clear_timestamp
  cleared clear c a =
      if clear then clear_timestamp w.files w.accounts w.pam (ticket_dir c.sanctuary) w.now a else a

  unfoldable pub with_config :
      Bool → AuthState S → Bool × Config → Expected Thrown (Config × AuthState S)
  unfolding cleared
  with_config clear a (loaded, c) =
      if not loaded then unexpected (voix_error 78) else value (c, cleared clear c a)

  -- What is logged of an exception: the failed load behind that of the constructor, or the text of an
  -- unexpected one, which the handler logs before its report.
  abbrev pub thrown_records : Bool → Thrown → List Event
  thrown_records loading (voix_error code) = if loading then load_failed ∷ [] else []
  thrown_records loading exception = reported 70 ∷ []

  -- `Voix::Voix`: the configuration, and the tickets where they are cleared; or the exception.
  unfoldable pub construct : Text → Bool → AuthState S → Expected Thrown (Config × AuthState S)
  unfolding load_config with_config
  construct path clear a = with_config clear a (load_config path)

  -- The capabilities are dropped at the end; where that fails, the process ends with its status.
  unfoldable pub dropping : Report S → Report S
  unfolding drop_capabilities
  dropping r = elim (drop_capabilities w.cap false) [
    | none ↦ r
    | some status ↦ record r { status = status }
  ]

  -- `execute` with the first of the arguments as the command.
  abbrev pub executed : Settings → Config → Text → List Text → AuthState S → Report S
  executed s c command args a =
      let r =
        voix_execute w.files w.accounts w.pam (ticket_dir c.sanctuary) w.now w.machine c
          w.regex_search s.nflag command args s.options s.target_user a in
      record {
        status = r.status;
        findings = [];
        printed = [];
        launched = r.launched;
        auth = r.auth;
      }

  abbrev pub command_of : List Text → Text
  command_of [] = []
  command_of (command ∷ args) = command

  abbrev pub args_of : List Text → List Text
  args_of [] = []
  args_of (command ∷ args) = args

  -- Behind the constructor.
  unfoldable pub dispatch : Settings → List Text → Config → AuthState S → Report S
  unfolding dropping voix_execute list_commands
  dispatch s words c a =
      if s.clear_timestamp && is_empty (command_of words)
      then ends 0 a
      else if s.options.list_commands
      then dropping (record (ends 0 a) { printed = list_commands w.machine.kernel w.accounts c })
      else dropping (executed s c (command_of words) (args_of words) a)

  abbrev pub constructed :
      Settings → List Text → AuthState S → Expected Thrown (Config × AuthState S) → Report S
  constructed s words a (unexpected thrown) =
      dropping (fails (thrown_records true thrown) (status_of thrown) a)
  constructed s words a (value (c, b)) = dispatch s words c b

  -- The inner `try` block.
  unfoldable pub run : Settings → List Text → AuthState S → Report S
  unfolding construct raise_capabilities dispatch dropping
  run s words a = elim (raise_capabilities w.cap) [
    | some thrown ↦ dropping (fails (thrown_records false thrown) (status_of thrown) a)
    | none ↦ constructed s words a (construct s.config_path s.clear_timestamp a)
  ]

  abbrev pub with_command : Settings → AuthState S → Expected ℕ (List Text) → Report S
  with_command s a (unexpected status) = fails [] status a
  with_command s a (value words) =
      if s.options.check_config then check_config s.config_path a else run s words a

  abbrev pub with_options : List Text → AuthState S → Expected ℕ Settings → Report S
  with_options operands a (unexpected status) = ends status a
  with_options operands a (value s) = with_command s a (command_args w.accounts s operands)

  -- `main` of a build without tests: whether there are arguments and whether the first is
  -- `--run-tests`, then what `getopt_long` gives: the options in order and the operands.
  unfoldable pub main : Bool → Bool → List Opt → List Text → AuthState S → Report S
  unfolding parse_options command_args check_config run
  main has_arguments run_tests opts operands a =
      if not has_arguments
      then ends 64 a
      else if run_tests
      then ends 70 a
      else with_options operands a (parse_options opts default_settings)
