-- ===== src/Main/Launches.antt =====
-- src/main.cpp: what holds when the process launches a command.
use voix.Base.{
  ◌≡◌, refl, sym, ap, Bool, true, false, ◌&&◌, none, some, List, Text, is_empty, arith, inl, inr,
  Bool-cases, Option-cases,
}
use voix.Files.{value, Expected-cases}
use voix.Files.Trust.{is_trusted_path}
use voix.Config.{Config, default_config}
use voix.Config.Sections.{IsUsable}
use voix.Config.Usable.{load-IsUsable, load-verified}
use voix.Tickets.{ticket_dir}
use voix.Authenticator.{AuthState}
use voix.Security.Capabilities.{raise_capabilities, drop_capabilities}
use voix.Runtime.{Launch}
use voix.Runtime.Listed.{list_commands}
use voix.Config.Validation.{validate, validate_sanctuary_path}
use voix.Runtime.Gates.{Gated, voix_execute-gates}
use voix.Main.Options.{Opt, Settings, default_settings, parse_options, command_args}
use voix.Main.{
  World, Report, ends, status_of, load_config, checked, cleared, with_config, construct, dropping,
  executed, command_of, args_of, dispatch, run, main,
}

module _ {N S : Type 0} (w : World N S) where
  dropping-launched : (r : Report S) → (dropping w r).launched ≡ r.launched
  unfolding dropping
  dropping-launched r = elim (Option-cases (drop_capabilities w.cap false)) [
    | inl fine ↦ rw (dropping, fine) refl
    | inr (status, failed) ↦ rw (dropping, failed) refl
  ]

  checked-launched : (a : AuthState S) (r : Bool × Config) → (checked w a r).launched ≡ none
  unfolding checked
  checked-launched a (loaded, c) = elim (Bool-cases loaded) [
    | inr failed ↦ ground arith
    | inl ok ↦ elim (Bool-cases (validate w.machine.kernel w.machine.calls.seccomp c).0) [
      | inl valid ↦ ground arith
      | inr invalid ↦ ground arith
    ]
  ]

  -- The checks of `execute` on the first of the words as the command.
  abbrev pub GatedRun : Settings → List Text → Config → AuthState S → Launch → Type 0
  GatedRun s words c a l =
      Gated w.files w.accounts w.pam (ticket_dir c.sanctuary) w.now w.machine c w.regex_search
        s.nflag (command_of w words) (args_of w words) s.options s.target_user a l

  dispatch-launched :
      (s : Settings) (words : List Text) (c : Config) (b : AuthState S) (l : Launch)
      → (dispatch w s words c b).launched ≡ some l
      → (s.options.list_commands ≡ false) × GatedRun s words c b l
  unfolding dispatch
  dispatch-launched s words c b l e =
      elim (Bool-cases (s.clear_timestamp && is_empty (command_of w words))) [
        | inl only_clear ↦ absurd (ground arith)
        | inr _ ↦ elim (Bool-cases s.options.list_commands) [
          | inl lists ↦
              let listed = record (ends 0 b) {
                printed = list_commands w.machine.kernel w.accounts c;
              } in
              let same = dropping-launched listed in absurd (ground arith)
          | inr runs ↦
              let same =
                dropping-launched (executed w s c (command_of w words) (args_of w words) b) in
              let here : (executed w s c (command_of w words) (args_of w words) b).launched
                  ≡ some l =
                ground arith in
              (
                runs,
                voix_execute-gates w.files w.accounts w.pam (ticket_dir c.sanctuary) w.now w.machine
                    c w.regex_search s.nflag (command_of w words) (args_of w words) s.options
                    s.target_user b l here,
              )
        ]
      ]

  with_config-steps :
      (clear : Bool) (a b : AuthState S) (c : Config) (r : Bool × Config)
      → with_config w clear a r ≡ value (c, b)
      → (r ≡ (true, c)) × (b ≡ cleared w clear c a)
  unfolding with_config
  with_config-steps clear a b c (true, c0) e =
      let same : c0 ≡ c = ground arith in
      let there : cleared w clear c0 a ≡ b = ground arith in
      (ap (λ x. (true, x)) same, rw same at (sym there))
  with_config-steps clear a b c (false, c0) e = absurd (ground arith)

  run-launched :
      (s : Settings) (words : List Text) (a : AuthState S) (l : Launch)
      → (run w s words a).launched ≡ some l
      → (c : Config) × (load_config w s.config_path ≡ (true, c))
        × (s.options.list_commands ≡ false)
        × GatedRun s words c (cleared w s.clear_timestamp c a) l
  unfolding run construct
  run-launched s words a l e = elim (Option-cases (raise_capabilities w.cap)) [
    | inr (thrown, threw) ↦
        let same = dropping-launched (ends (status_of thrown) a) in absurd (ground arith)
    | inl raised ↦
        elim (Expected-cases (with_config w s.clear_timestamp a (load_config w s.config_path))) [
          | inl (thrown, threw) ↦
              let same = dropping-launched (ends (status_of thrown) a) in absurd (ground arith)
          | inr ((c, b), is) ↦
              let (loaded, same) =
                with_config-steps s.clear_timestamp a b c (load_config w s.config_path) is in
              let here : (dispatch w s words c b).launched ≡ some l = ground arith in
              let (runs, gated) = dispatch-launched s words c b l here in
              (c, loaded, runs, rw same at gated)
        ]
  ]

  -- The configuration is usable, and its file and sanctuary were verified.
  abbrev pub Accepted : Settings → Config → Type 0
  Accepted s c =
      IsUsable w.machine.calls.seccomp w.regex_ok c
      × (is_trusted_path w.machine.kernel s.config_path ≡ true)
      × (validate_sanctuary_path w.machine.kernel c.sanctuary ≡ none)

  load_config-Accepted :
      (s : Settings) (c : Config) → load_config w s.config_path ≡ (true, c) → Accepted s c
  unfolding load_config
  load_config-Accepted s c e =
      let usable =
        load-IsUsable w.machine.calls.seccomp w.regex_ok w.yaml w.accounts w.machine.kernel
          s.config_path true default_config c (tt, (tt, tt)) e in
      let verified =
        load-verified w.machine.calls.seccomp w.regex_ok w.yaml w.accounts w.machine.kernel
          s.config_path default_config c e in
      (usable.0, verified.1, verified.4)

  -- When the process launches a command, it was called with arguments that end in no mode of another
  -- kind: neither the configuration is checked nor the commands are listed. The configuration came
  -- from a trusted file, is usable and has a sanctuary that passes its checks; and the launch, of the
  -- first word as the command, has passed every gate of `execute` under that configuration.
  pub main-launched :
      (has_arguments run_tests : Bool) (opts : List Opt) (operands : List Text) (a : AuthState S)
      (l : Launch)
      → (main w has_arguments run_tests opts operands a).launched ≡ some l
      → (s : Settings) × (words : List Text) × (c : Config) × (parse_options opts default_settings
          ≡ value s)
        × (command_args w.accounts s operands ≡ value words)
        × (s.options.check_config ≡ false)
        × (s.options.list_commands ≡ false)
        × Accepted s c
        × GatedRun s words c (cleared w s.clear_timestamp c a) l
  unfolding main
  main-launched has_arguments run_tests opts operands a l e = elim (Bool-cases has_arguments) [
    | inr none_given ↦ absurd (ground arith)
    | inl given ↦ elim (Bool-cases run_tests) [
      | inl tests ↦ absurd (ground arith)
      | inr no_tests ↦ elim (Expected-cases (parse_options opts default_settings)) [
        | inl (status, stops) ↦ absurd (ground arith)
        | inr (s, parsed) ↦ elim (Expected-cases (command_args w.accounts s operands)) [
          | inl (status, stops) ↦ absurd (ground arith)
          | inr (words, taken) ↦ elim (Bool-cases s.options.check_config) [
            | inl checks ↦
                let nothing = checked-launched a (load_config w s.config_path) in
                absurd (ground arith)
            | inr goes_on ↦
                let here : (run w s words a).launched ≡ some l = ground arith in
                let (c, loaded, runs, gated) = run-launched s words a l here in
                (s, words, c, parsed, taken, goes_on, runs, load_config-Accepted s c loaded, gated)
          ]
        ]
      ]
    ]
  ]
