-- ===== src/Tests/Settings.antt =====
-- The theorems of the configuration, the policy analyzer and the child under a loaded configuration at
-- concrete values.
use voix.Base.{
  ◌≡◌, ◌↔◌, refl, Bool, true, false, none, [], Text, codes, list_beq, starts_with, arith, nat_eq,
  list_eq,
}
use voix.Files.{value}
use voix.Files.Reading.{read_file_secure}
use voix.Files.Trust.{is_trusted_path}
use voix.Config.{Config, default_config}
use voix.Config.Loading.{load, links}
use voix.Config.Sections.{IsUsable}
use voix.Config.Usable.{load-IsUsable, load-verified}
use voix.Config.Valid.{IsValid, validate_iff}
use voix.Config.Profiles.{parse_profile}
use voix.Config.Validation.{profile_error, validate, validate_sanctuary_path}
use voix.Policy.{analyze}
use voix.Policy.Clean.{IsClean, analyze-IsClean}
use voix.Security.Seccomp.{validate_syscall_names, k_allowlist_baseline}
use voix.Child.{Execution, run_child}
use voix.Child.Reaches.{run_child-reaches}
use voix.Tests.Values.{accounts, root_identity, permit_ls, tree}
use voix.Tests.Documents.{yaml}
use voix.Tests.Invocation.{lib, calls, options, process}

abbrev pub any_regex : Text → Bool
any_regex pattern = true

abbrev pub loaded_config : Config
loaded_config =
    (load yaml accounts tree lib any_regex (codes "/etc/voix.conf") true default_config).1

pub accepted :
    load yaml accounts tree lib any_regex (codes "/etc/voix.conf") true default_config
    ≡ (true, loaded_config)
unfolding load codes is_trusted_path list_beq parse_profile profile_error validate_syscall_names
    starts_with validate_sanctuary_path
accepted = refl

load-IsUsable_example : IsUsable lib any_regex loaded_config × (loaded_config.last_error ≡ none)
load-IsUsable_example =
    load-IsUsable lib any_regex yaml accounts tree (codes "/etc/voix.conf") true default_config
      loaded_config (tt, (tt, tt)) accepted

load-verified_example :
    (tree.exists_file (codes "/etc/voix.conf") ≡ true)
    × (is_trusted_path tree (codes "/etc/voix.conf") ≡ true)
    × (links tree (codes "/etc/voix.conf") ≡ false)
    × ((content : Text) × (read_file_secure tree (codes "/etc/voix.conf") ≡ value content))
    × (validate_sanctuary_path tree loaded_config.sanctuary ≡ none)
load-verified_example =
    load-verified lib any_regex yaml accounts tree (codes "/etc/voix.conf") default_config
      loaded_config accepted

validate_iff_example : ((validate tree lib loaded_config).0 ≡ true) ↔ IsValid tree lib loaded_config
validate_iff_example = validate_iff tree lib loaded_config

analyze-IsClean_example : (analyze loaded_config ≡ []) ↔ IsClean loaded_config
analyze-IsClean_example = analyze-IsClean loaded_config

-- The baseline is known to the library.
known : validate_syscall_names lib k_allowlist_baseline ≡ none
unfolding validate_syscall_names codes
known = refl

usable : IsUsable lib any_regex loaded_config
usable =
    (load-IsUsable lib any_regex yaml accounts tree (codes "/etc/voix.conf") true default_config
      loaded_config (tt, (tt, tt)) accepted).0

run_child-reaches_example :
    (e : Execution) × (run_child calls loaded_config options permit_ls root_identity []
        (codes "/bin/ls")
        []
        7
        process
      ≡ value e)
run_child-reaches_example =
    run_child-reaches calls
      (
        (refl, refl, refl, refl),
        (refl, λ resource. refl, refl),
        (refl, refl, (refl, refl, λ sc e. ground arith, known)),
      )
      any_regex loaded_config usable options permit_ls root_identity [] (codes "/bin/ls") [] 7
      process
