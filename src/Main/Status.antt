-- ===== src/Main/Status.antt =====
-- src/main.cpp and src/voix.cpp: the bounds of the process's status.
use voix.Base.{
  ℕ, ◌<◌, ◌≡◌, Bool, true, false, not, ◌&&◌, ◌||◌, some, List, [], ◌∷◌, Text, is_empty, arith, inl,
  inr, Bool-cases, Option-cases,
}
use voix.Files.{unexpected, Expected-cases}
use voix.Config.{Config}
use voix.Security.Capabilities.{
  Thrown, voix_error, exception, raise_capabilities, drop_capabilities,
}
use voix.Child.{Execution}
use voix.Child.Status.{IsByte}
use voix.Tickets.{ticket_dir}
use voix.Authenticator.{AuthState}
use voix.Runtime.Listed.{list_commands}
use voix.Runtime.Status.{voix_execute-bound}
use voix.Main.Options.{
  opt_version, opt_help, opt_unknown, Opt, Settings, default_settings, apply_option, parse_options,
  command_args,
}
use voix.Audit.{load_failed}
use voix.Main.{
  thrown_records, fails, World, Report, ends, status_of, load_config, checked, check_config,
  cleared, with_config, construct, dropping, executed, command_of, args_of, dispatch, constructed,
  run, main,
}

module _ {N S : Type 0} (w : World N S) where
  dropping-bound : (r : Report S) → r.status < 256 → (dropping w r).status < 256
  unfolding dropping drop_capabilities
  dropping-bound r h = ground arith

  apply_option-bound :
      (opt : Opt) (s : Settings) (status : ℕ)
      → apply_option opt s ≡ unexpected status
      → status < 256
  unfolding apply_option
  apply_option-bound opt_version s status e = ground arith
  apply_option-bound opt_help s status e = ground arith
  apply_option-bound opt_unknown s status e = ground arith
  apply_option-bound _ s status e = absurd (ground arith)

  parse_options-bound :
      (opts : List Opt) (s : Settings) (status : ℕ)
      → parse_options opts s ≡ unexpected status
      → status < 256
  unfolding parse_options
  parse_options-bound [] s status e = absurd (ground arith)
  parse_options-bound (opt ∷ opts) s status e = elim (Expected-cases (apply_option opt s)) [
    | inl (x, stops) ↦ let bound = apply_option-bound opt s x stops in ground arith
    | inr (t, goes_on) ↦ parse_options-bound opts t status (ground arith)
  ]

  command_args-bound :
      (s : Settings) (operands : List Text) (status : ℕ)
      → command_args w.accounts s operands ≡ unexpected status
      → status < 256
  unfolding command_args
  command_args-bound s operands status e = ground arith

  checked-bound : (a : AuthState S) (r : Bool × Config) → (checked w a r).status < 256
  unfolding checked
  checked-bound a (loaded, c) = ground arith

  module _ (programs : (e : Execution) → IsByte (w.machine.program e)) where
    executed-bound :
        (s : Settings) (c : Config) (command : Text) (args : List Text) (a : AuthState S)
        → (executed w s c command args a).status < 256
    executed-bound s c command args a =
        voix_execute-bound w.files w.accounts w.pam (ticket_dir c.sanctuary) w.now w.machine c
          w.regex_search s.nflag programs command args s.options s.target_user a

    dispatch-bound :
        (s : Settings) (words : List Text) (c : Config) (b : AuthState S)
        → (dispatch w s words c b).status < 256
    unfolding dispatch
    dispatch-bound s words c b =
        elim (Bool-cases (s.clear_timestamp && is_empty (command_of w words))) [
          | inl only_clear ↦ ground arith
          | inr _ ↦ elim (Bool-cases s.options.list_commands) [
            | inl lists ↦
                let bound =
                  dropping-bound
                    (record (ends 0 b) { printed = list_commands w.machine.kernel w.accounts c })
                    (omega arith) in
                ground arith
            | inr runs ↦
                let bound =
                  dropping-bound (executed w s c (command_of w words) (args_of w words) b)
                    (executed-bound s c (command_of w words) (args_of w words) b) in
                ground arith
          ]
        ]

    with_config-bound :
        (s : Settings) (words : List Text) (a : AuthState S) (r : Bool × Config)
        → (constructed w s words a (with_config w s.clear_timestamp a r)).status < 256
    unfolding with_config
    with_config-bound s words a (false, c) =
        dropping-bound (fails (load_failed ∷ []) 78 a) (omega arith)
    with_config-bound s words a (true, c) =
        dispatch-bound s words c (cleared w s.clear_timestamp c a)

    raised-bound :
        (thrown : Thrown) → raise_capabilities w.cap ≡ some thrown → status_of thrown < 256
    unfolding raise_capabilities
    raised-bound exception e = omega arith
    raised-bound (voix_error code) e = ground arith

    run-bound :
        (s : Settings) (words : List Text) (a : AuthState S) → (run w s words a).status < 256
    unfolding run construct
    run-bound s words a = elim (Option-cases (raise_capabilities w.cap)) [
      | inr (thrown, threw) ↦
          let bound =
            dropping-bound (fails (thrown_records w false thrown) (status_of thrown) a)
              (raised-bound thrown threw) in
          ground arith
      | inl raised ↦
          let bound = with_config-bound s words a (load_config w s.config_path) in ground arith
    ]

    -- Where every program that is executed ends with a byte, so does the process, whatever the options,
    -- the configuration and the answers of the system: its status is below 256.
    pub main-bound :
        (has_arguments run_tests : Bool) (opts : List Opt) (operands : List Text) (a : AuthState S)
        → (main w has_arguments run_tests opts operands a).status < 256
    unfolding main check_config
    main-bound has_arguments run_tests opts operands a =
        elim (Bool-cases (not has_arguments || run_tests)) [
          | inl ends_early ↦ ground arith
          | inr goes_on ↦ elim (Expected-cases (parse_options opts default_settings)) [
            | inl (status, stops) ↦
                let bound = parse_options-bound opts default_settings status stops in ground arith
            | inr (s, parsed) ↦ elim (Expected-cases (command_args w.accounts s operands)) [
              | inl (status, stops) ↦
                  let bound = command_args-bound s operands status stops in ground arith
              | inr (words, taken) ↦
                  let of_check = checked-bound a (load_config w s.config_path) in
                  let of_run = run-bound s words a in ground arith
            ]
          ]
        ]
