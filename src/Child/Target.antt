-- ===== src/Child/Target.antt =====
-- `Command::execute` of src/command.cpp: whose identity the command has when the child executes it.
use voix.Base.{
  ℕ, ◌≡◌, ap, ◌∙◌, ◌||◌, some, List, [], ◌∷◌, Text, codes, is_empty, All, if◌then◌else◌,
}
use voix.Rule.{Rule}
use voix.Identity.{UserIdentity}
use voix.Files.{value}
use voix.Config.{Config}
use voix.Environment.{CommandOptions, shell_or_default, sanitize_environment}
use voix.Environment.Table.{Env, get_env, NodupKeys}
use voix.Environment.Overrides.{LeavesAlone, apply_environment-identity}
use voix.Child.{Calls, Process, Execution, run_child}
use voix.Child.Confined.{profile, final_environment, run_child-Reached}

module _ (calls : Calls) (config : Config) (options : CommandOptions) (rule : Rule)
    (target : UserIdentity) (raw_env : List Text) (policy_path : Text) (args : List Text)
    (executable_fd : ℕ) (p : Process) where
  -- The sanitized environment of the caller.
  abbrev pub saved_environment : Env
  saved_environment =
      sanitize_environment
        (profile calls config options rule target raw_env policy_path args executable_fd p) options
        raw_env

  -- When the child gets to execute the command, it runs as the target, where the caller passes no name
  -- twice and the rule's own entries set none of the five variables of the identity: with the target's
  -- user and group; with the target's supplementary groups if there are any, but with those that the
  -- child had before if the target's list is empty; with the target's name as USER and LOGNAME, for a
  -- login shell and under -H with the target's home as HOME, and for a login shell with the target's
  -- shell, or /bin/sh, as SHELL.
  pub run_child-as_target :
      (e : Execution)
      → NodupKeys saved_environment
      → All
          (λ j. LeavesAlone j rule.envlist)
          (codes "USER" ∷ codes "LOGNAME" ∷ codes "HOME" ∷ codes "SHELL" ∷ codes "PATH" ∷ [])
      → run_child calls config options rule target raw_env policy_path args executable_fd p
        ≡ value e
      → (e.process.uid ≡ target.uid)
        × (e.process.gid ≡ target.gid)
        × (e.process.groups ≡ (if is_empty target.groups then p.groups else target.groups))
        × (get_env (codes "USER") e.process.environment ≡ some target.username)
        × (get_env (codes "LOGNAME") e.process.environment ≡ some target.username)
        × (get_env (codes "HOME") e.process.environment ≡ (
            if options.set_home || options.login_shell
            then some target.home_dir
            else get_env (codes "HOME") saved_environment))
        × (get_env (codes "SHELL") e.process.environment ≡ (
            if options.login_shell
            then some (shell_or_default target)
            else get_env (codes "SHELL") saved_environment))
  run_child-as_target e nodup alone h =
      let reached =
        run_child-Reached calls config options rule target raw_env policy_path args executable_fd p
          e h in
      let own =
        apply_environment-identity
          (profile calls config options rule target raw_env policy_path args executable_fd p) config
          options rule target saved_environment nodup alone in
      let value_of : (j : Text)
          → get_env j e.process.environment
            ≡ get_env j (
                final_environment calls config options rule target raw_env policy_path args
                  executable_fd p) =
        λ j. ap (get_env j) reached.3 in
      (
        reached.0,
        reached.1,
        reached.2,
        value_of (codes "USER") ∙ own.0,
        value_of (codes "LOGNAME") ∙ own.1,
        value_of (codes "HOME") ∙ own.2,
        value_of (codes "SHELL") ∙ own.3,
      )
