-- ===== src/Main/Checks.antt =====
-- src/main.cpp: the modes that launch nothing, `--check-config` and `-k` without a command.
use voix.Base.{
  ◌≡◌, ◌↔◌, refl, ◌∙◌, Bool, true, false, ◌&&◌, ◌||◌, none, List, [], ◌∷◌, Text, is_empty, arith,
  inl, inr, Bool-cases, if◌then◌else◌,
}
use voix.Files.{value}
use voix.Config.{Config}
use voix.Config.Valid.{IsValid, validate_iff}
use voix.Config.Validation.{validate}
use voix.Identity.{Accounts, resolve_login_shell}
use voix.Authenticator.{AuthState}
use voix.Main.Options.{Opt, Settings, default_settings, parse_options, command_args}
use voix.Main.{World, load_config, checked, check_config, run, main}

command_args-check_config :
    (accounts : Accounts) (s : Settings) (operands : List Text)
    → s.options.check_config ≡ true
    → (words : List Text) × (command_args accounts s operands ≡ value words)
unfolding command_args
command_args-check_config accounts s operands e =
    elim (Bool-cases (s.sflag || (s.options.login_shell && is_empty operands))) [
      | inl shell ↦ (resolve_login_shell accounts s.target_user ∷ [], ground arith)
      | inr other ↦ (operands, ground arith)
    ]

module _ {N S : Type 0} (w : World N S) where
  main-with_words :
      (opts : List Opt) (operands words : List Text) (s : Settings) (a : AuthState S)
      → parse_options opts default_settings ≡ value s
      → command_args w.accounts s operands ≡ value words
      → main w true false opts operands a
        ≡ (if s.options.check_config then check_config w s.config_path a else run w s words a)
  unfolding main
  main-with_words opts operands words s a parsed taken = rw (main, parsed, taken) refl

  -- What `checked` makes of a loaded configuration.
  checked-status :
      (a : AuthState S) (r : Bool × Config)
      → ((checked w a r).launched ≡ none)
        × (((checked w a r).auth.tickets ≡ a.tickets)
            × (((checked w a r).status ≡ 0) ↔ (
                (c : Config) × (r ≡ (true, c))
                × IsValid w.machine.kernel w.machine.calls.seccomp c)))
  unfolding checked
  checked-status a (false, c0) =
      (refl, (refl, (λ e. absurd (ground arith), λ (c, is, _). absurd (ground arith))))
  checked-status a (true, c0) =
      let accepts = validate_iff w.machine.kernel w.machine.calls.seccomp c0 in
      elim (Bool-cases (validate w.machine.kernel w.machine.calls.seccomp c0).0) [
        | inl good ↦
            (ground arith, (ground arith, (λ e. (c0, refl, accepts.0 good), λ h. ground arith)))
        | inr bad ↦ (
          ground arith,
          (
            ground arith,
            (
              λ e. absurd (ground arith),
              λ (c, is, fine).
                  let same : c ≡ c0 = ground arith in
                  let good = accepts.1 (rw same at fine) in absurd (ground arith),
            ),
          ),
        )
      ]

  -- Under `--check-config`, whatever the other options and the operands, nothing is launched, the
  -- tickets stay as they are, and the status is 0 exactly if the configuration loads under verification
  -- and is valid.
  pub main-check_config :
      (opts : List Opt) (operands : List Text) (s : Settings) (a : AuthState S)
      → parse_options opts default_settings ≡ value s
      → s.options.check_config ≡ true
      → ((main w true false opts operands a).launched ≡ none)
        × (((main w true false opts operands a).auth.tickets ≡ a.tickets)
            × (((main w true false opts operands a).status ≡ 0) ↔ (
                (c : Config) × (load_config w s.config_path ≡ (true, c))
                × IsValid w.machine.kernel w.machine.calls.seccomp c)))
  unfolding check_config
  main-check_config opts operands s a parsed checks =
      let (words, taken) = command_args-check_config w.accounts s operands checks in
      let is = main-with_words opts operands words s a parsed taken in
      let same : main w true false opts operands a ≡ checked w a (load_config w s.config_path) =
        is ∙ rw checks refl in
      rw same (checked-status a (load_config w s.config_path))
