-- ===== src/Main/Described.antt =====
-- src/main.cpp: the option loop against a description of what the command line asks for.
use voix.Base.{
  ℕ, ◌≡◌, ◌∙◌, ap, refl, Bool, true, false, ◌||◌, Option, none, some, List, [], ◌∷◌, Text, any,
}
use voix.Files.{Expected, value, unexpected}
use voix.Main.Options.{
  Opt, Settings, default_settings, apply_option, parse_options, opt_config, opt_user,
  opt_preserve_env, opt_home, opt_login, opt_list, opt_non_interactive, opt_shell, opt_version,
  opt_help, opt_check_config, opt_clear, opt_unknown,
}

-- The status of the first option that ends the program, if there is one.
first_end : List Opt → Option ℕ
first_end [] = none
first_end (opt_version ∷ opts) = some 0
first_end (opt_help ∷ opts) = some 0
first_end (opt_unknown ∷ opts) = some 64
first_end (_ ∷ opts) = first_end opts

-- The last argument of `-u`, and that of `-C`.
last_user : Text → List Opt → Text
last_user user [] = user
last_user user (opt_user name ∷ opts) = last_user name opts
last_user user (_ ∷ opts) = last_user user opts

last_config : Text → List Opt → Text
last_config path [] = path
last_config path (opt_config given ∷ opts) = last_config given opts
last_config path (_ ∷ opts) = last_config path opts

-- The single options.
abbrev is_non_interactive : Opt → Bool
is_non_interactive opt_non_interactive = true
is_non_interactive _ = false

abbrev is_shell : Opt → Bool
is_shell opt_shell = true
is_shell _ = false

abbrev is_clear : Opt → Bool
is_clear opt_clear = true
is_clear _ = false

abbrev is_preserve_env : Opt → Bool
is_preserve_env opt_preserve_env = true
is_preserve_env _ = false

abbrev is_login : Opt → Bool
is_login opt_login = true
is_login _ = false

abbrev is_home : Opt → Bool
is_home opt_home = true
is_home _ = false

abbrev is_list : Opt → Bool
is_list opt_list = true
is_list _ = false

abbrev is_check_config : Opt → Bool
is_check_config opt_check_config = true
is_check_config _ = false

-- What a command line asks for, over given settings.
unfoldable pub described_over : Settings → List Opt → Settings
unfolding last_user last_config
described_over s opts = record {
  target_user = last_user s.target_user opts;
  config_path = last_config s.config_path opts;
  nflag = any is_non_interactive opts || s.nflag;
  sflag = any is_shell opts || s.sflag;
  clear_timestamp = any is_clear opts || s.clear_timestamp;
  options = record {
    preserve_env = any is_preserve_env opts || s.options.preserve_env;
    login_shell = any is_login opts || s.options.login_shell;
    set_home = any is_home opts || s.options.set_home;
    list_commands = any is_list opts || s.options.list_commands;
    check_config = any is_check_config opts || s.options.check_config;
  };
}

unfoldable pub described : Settings → List Opt → Expected ℕ Settings
unfolding first_end described_over
described s opts = elim (first_end opts) [
  | some status ↦ unexpected status
  | none ↦ value (described_over s opts)
]

or_true : (b : Bool) → b || true ≡ true
or_true true = refl
or_true false = refl

-- The description with other settings where no option ends the program.
ended : List Opt → Settings → Expected ℕ Settings
unfolding first_end
ended opts d = elim (first_end opts) [ some status ↦ unexpected status | none ↦ value d ]

parse_options_over : (opts : List Opt) (s : Settings) → parse_options opts s ≡ described s opts
unfolding parse_options apply_option described described_over first_end last_user last_config ended
parse_options_over [] s = refl
parse_options_over (opt_config path ∷ opts) s =
    parse_options_over opts (record s { config_path = path })
parse_options_over (opt_user name ∷ opts) s =
    parse_options_over opts (record s { target_user = name })
parse_options_over (opt_version ∷ opts) s = refl
parse_options_over (opt_help ∷ opts) s = refl
parse_options_over (opt_unknown ∷ opts) s = refl
parse_options_over (opt_preserve_env ∷ opts) s =
    let d = described_over s opts in
    parse_options_over opts (record s { options = record s.options { preserve_env = true } })
    ∙ ap (λ b. ended opts (record d { options = record d.options { preserve_env = b } }))
        (or_true (any is_preserve_env opts))
parse_options_over (opt_home ∷ opts) s =
    let d = described_over s opts in
    parse_options_over opts (record s { options = record s.options { set_home = true } })
    ∙ ap (λ b. ended opts (record d { options = record d.options { set_home = b } }))
        (or_true (any is_home opts))
parse_options_over (opt_login ∷ opts) s =
    let d = described_over s opts in
    parse_options_over opts (record s { options = record s.options { login_shell = true } })
    ∙ ap (λ b. ended opts (record d { options = record d.options { login_shell = b } }))
        (or_true (any is_login opts))
parse_options_over (opt_list ∷ opts) s =
    let d = described_over s opts in
    parse_options_over opts (record s { options = record s.options { list_commands = true } })
    ∙ ap (λ b. ended opts (record d { options = record d.options { list_commands = b } }))
        (or_true (any is_list opts))
parse_options_over (opt_non_interactive ∷ opts) s =
    let d = described_over s opts in
    parse_options_over opts (record s { nflag = true })
    ∙ ap (λ b. ended opts (record d { nflag = b })) (or_true (any is_non_interactive opts))
parse_options_over (opt_shell ∷ opts) s =
    let d = described_over s opts in
    parse_options_over opts (record s { sflag = true })
    ∙ ap (λ b. ended opts (record d { sflag = b })) (or_true (any is_shell opts))
parse_options_over (opt_check_config ∷ opts) s =
    let d = described_over s opts in
    parse_options_over opts (record s { options = record s.options { check_config = true } })
    ∙ ap (λ b. ended opts (record d { options = record d.options { check_config = b } }))
        (or_true (any is_check_config opts))
parse_options_over (opt_clear ∷ opts) s =
    let d = described_over s opts in
    parse_options_over opts (record s { clear_timestamp = true })
    ∙ ap (λ b. ended opts (record d { clear_timestamp = b })) (or_true (any is_clear opts))

-- The option loop ends with the status of the first `-v`, `-h` or unknown option, 0, 0 or 64; without
-- one of these the target is the argument of the last `-u`, the configuration's path that of the last
-- `-C`, and each flag is set if its option stands anywhere.
pub parse_options-described :
    (opts : List Opt) → parse_options opts default_settings ≡ described default_settings opts
parse_options-described opts = parse_options_over opts default_settings
