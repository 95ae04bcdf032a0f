-- ===== src/Tests/Surroundings.antt =====
-- The theorems of the environment, the shell, the log and the tickets at concrete values.
use voix.Base.{
  ◌-◌, arith, ◌≡◌, refl, not, ◌&&◌, true, false, none, some, List, [], ◌∷◌, Text, codes, All,
  list_beq, leb, ltb, nat_eq, list_eq,
}
use voix.Numbers.{to_string}
use voix.Config.{default_profile, default_config, get_path}
use voix.Environment.{CommandOptions, sanitize_environment, is_dangerous, apply_environment}
use voix.Environment.Table.{Env, get_env}
use voix.Environment.Sanitizing.{sanitize_environment-harmless}
use voix.Environment.Overrides.{apply_environment-identity}
use voix.Environment.Repeated.{two_paths, path_of_two_paths}
use voix.Shell.{full_cmd}
use voix.Shell.Quoting.{shell_words, blank, shell_words-full_cmd}
use voix.Logger.Sanitized.{is_control}
use voix.Tickets.{valid, record_ticket, path_for}
use voix.Tickets.Memory.{memory}
use voix.Tickets.Validity.{valid-record_ticket, valid-record_ticket_other}
use voix.Tests.Values.{permit_ls, root_identity}

abbrev options : CommandOptions
options = record {
  preserve_env = false;
  login_shell = false;
  set_home = true;
  list_commands = false;
  check_config = false;
}

abbrev raw : List Text
raw = codes "TERM=xterm" ∷ codes "LD_PRELOAD=/tmp/x.so" ∷ []

sanitize_environment-harmless_example :
    All (λ e. is_dangerous e.0 ≡ false) (sanitize_environment default_profile options raw)
sanitize_environment-harmless_example =
    sanitize_environment-harmless default_profile options refl raw

abbrev saved : Env
saved = (codes "TERM", codes "xterm") ∷ (codes "HOME", codes "/tmp") ∷ []

saved_nodup :
    (get_env (codes "TERM") ((codes "HOME", codes "/tmp") ∷ []) ≡ none)
    × (get_env (codes "HOME") [] ≡ none)
unfolding get_env codes list_beq
saved_nodup = (refl, refl)

apply_environment-identity_example :
    let env =
      apply_environment default_profile default_config options permit_ls root_identity saved in
    (get_env (codes "USER") env ≡ some (codes "root"))
    × (get_env (codes "LOGNAME") env ≡ some (codes "root"))
    × (get_env (codes "HOME") env ≡ some (codes "/root"))
    × (get_env (codes "SHELL") env ≡ get_env (codes "SHELL") saved)
    × (get_env (codes "PATH") env ≡ some (get_path default_config))
apply_environment-identity_example =
    apply_environment-identity default_profile default_config options permit_ls root_identity saved
      (saved_nodup.0, (saved_nodup.1, tt)) (tt, (tt, (tt, (tt, (tt, tt)))))

path_of_two_paths_example :
    get_env (codes "PATH") (
      apply_environment default_profile default_config options permit_ls root_identity (
        sanitize_environment default_profile options
          (two_paths (codes "/bin") (codes "/tmp/evil"))))
    ≡ some (codes "/tmp/evil")
path_of_two_paths_example =
    path_of_two_paths default_profile default_config options permit_ls root_identity (codes "/bin")
      (codes "/tmp/evil") refl refl refl tt

shell_words-full_cmd_example :
    shell_words blank [] [] (full_cmd (codes "/bin/echo") (codes "it's; rm" ∷ []))
    ≡ some (codes "/bin/echo" ∷ codes "it's; rm" ∷ [])
shell_words-full_cmd_example = shell_words-full_cmd (codes "/bin/echo") (codes "it's; rm" ∷ [])

plain_message : All (λ c. is_control c ≡ false) (codes "command blocked")
unfolding codes
plain_message = ground arith

abbrev written : List (Text × Text)
written = (path_for (codes "/t") 1000 0, to_string 5000) ∷ []

recorded : record_ticket memory (codes "/t") 5000 1000 0 [] ≡ (true, written)
unfolding record_ticket memory
recorded = refl

valid-record_ticket_example :
    valid memory written (codes "/t") 5600 900 1000 0 ≡ not (ltb 5600 5000) && leb (5600 - 5000) 900
valid-record_ticket_example =
    valid-record_ticket memory (codes "/t") [] written 1000 0 5000 5600 900 (omega arith) recorded

valid-record_ticket_other_example :
    valid memory (record_ticket memory (codes "/t") 5000 1000 0 []).1 (codes "/t") 5600 900 1000 33
    ≡ valid memory [] (codes "/t") 5600 900 1000 33
valid-record_ticket_other_example =
    valid-record_ticket_other memory (codes "/t") [] 1000 0 1000 33 5000 5600 900
      (λ both. absurd (omega (arith, both.1)))
