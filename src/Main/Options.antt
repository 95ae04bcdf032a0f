-- ===== src/Main/Options.antt =====
-- src/main.cpp: the options of the command line and the command that is run.
use voix.Base.{
  ℕ, Bool, true, false, not, ◌&&◌, ◌||◌, List, [], ◌∷◌, Text, codes, is_empty, if◌then◌else◌,
}
use voix.Files.{Expected, value, unexpected}
use voix.Identity.{Accounts, resolve_login_shell}
use voix.Environment.{CommandOptions}

-- One result of `getopt_long`, which is a library's, by the case of the `switch` that takes it.
pub data Opt : Type 0 where
  opt_config opt_user : Text → Opt
  opt_preserve_env opt_home opt_login opt_list opt_non_interactive opt_shell opt_version opt_help
        opt_check_config opt_clear opt_unknown :
      Opt

-- The variables of `main` that the options set.
pub record Settings : Type 0 where
  pub target_user : Text
  pub config_path : Text
  pub nflag : Bool
  pub sflag : Bool
  pub clear_timestamp : Bool
  pub options : CommandOptions

abbrev pub no_command_options : CommandOptions
no_command_options = record {
  preserve_env = false;
  login_shell = false;
  set_home = false;
  list_commands = false;
  check_config = false;
}

abbrev pub default_settings : Settings
default_settings = record {
  target_user = codes "root";
  config_path = codes "/etc/voix.conf";
  nflag = false;
  sflag = false;
  clear_timestamp = false;
  options = no_command_options;
}

-- The `switch`: the variables afterwards, or the status that `main` returns with.
unfoldable pub apply_option : Opt → Settings → Expected ℕ Settings
apply_option (opt_config path) s = value (record s { config_path = path })
apply_option opt_preserve_env s =
    value (record s { options = record s.options { preserve_env = true } })
apply_option opt_home s = value (record s { options = record s.options { set_home = true } })
apply_option opt_login s = value (record s { options = record s.options { login_shell = true } })
apply_option opt_list s = value (record s { options = record s.options { list_commands = true } })
apply_option (opt_user name) s = value (record s { target_user = name })
apply_option opt_non_interactive s = value (record s { nflag = true })
apply_option opt_shell s = value (record s { sflag = true })
apply_option opt_version s = unexpected 0
apply_option opt_help s = unexpected 0
apply_option opt_check_config s =
    value (record s { options = record s.options { check_config = true } })
apply_option opt_clear s = value (record s { clear_timestamp = true })
apply_option opt_unknown s = unexpected 64

-- The loop over `getopt_long`.
unfoldable pub parse_options : List Opt → Settings → Expected ℕ Settings
unfolding apply_option
parse_options [] s = value s
parse_options (opt ∷ opts) s = elim (apply_option opt s) [
  | unexpected status ↦ unexpected status
  | value t ↦ parse_options opts t
]

-- `command_args`, or the status where no command is given.
unfoldable pub command_args : Accounts → Settings → List Text → Expected ℕ (List Text)
unfolding resolve_login_shell
command_args accounts s operands =
    let none_given = is_empty operands in
    if s.sflag || (s.options.login_shell && none_given)
    then value (resolve_login_shell accounts s.target_user ∷ [])
    else if none_given
        && (not s.options.list_commands
            && (not s.options.check_config && (not s.clear_timestamp && not s.options.login_shell)))
    then unexpected 64
    else value operands
