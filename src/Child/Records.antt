-- ===== src/Child/Records.antt =====
-- `Command::execute` of src/command.cpp: the records that it leaves in the log, by the way it takes. The
-- warning about the parent's signal mask is left out.
use voix.Base.{not, none, some, List, [], ◌∷◌, ◌++◌, Text, ℕ, if◌then◌else◌}
use voix.Rule.{Rule}
use voix.Identity.{UserIdentity}
use voix.Files.{value, unexpected, ExecutableInfo}
use voix.Files.Executables.{open_executable}
use voix.Config.{Config}
use voix.Environment.{CommandOptions}
use voix.Audit.{Event, started, reported, reported_command}
use voix.Child.{
  Outcome, fork_failed, wait_failed, other_status, exited, signaled, Machine, run_child,
  executable_to_open, child_outcome,
}

-- A message about the command, or about the target's shell where that is what is executed.
abbrev pub told_of : CommandOptions → Text → Event
told_of options text = if options.login_shell then reported 126 else reported_command 126 text

-- What the parent reports of the child.
abbrev pub parent_records : Outcome → List Event
parent_records fork_failed = reported 70 ∷ []
parent_records wait_failed = reported 70 ∷ []
parent_records other_status = reported 70 ∷ []
parent_records (exited status) = []
parent_records (signaled signum) = []

-- The announcement, unless the rule has nolog.
abbrev pub announcement : ExecutableInfo → Rule → List Event
announcement command rule =
    if rule.options.nolog then [] else started command.policy_path rule.profile ∷ []

module _ (m : Machine) (config : Config) (command : ExecutableInfo) (args : List Text)
    (options : CommandOptions) (rule : Rule) (target : UserIdentity) where
  -- Behind the first stage of the child.
  unfoldable pub stage_records : ℕ → List Event
  unfolding run_child
  stage_records executable_fd =
      elim (run_child m.calls config options rule target m.raw_env command.policy_path args
        executable_fd m.process) [
          | unexpected status ↦ reported status ∷ []
          | value execution ↦
              if m.fexecve_ok execution then [] else told_of options command.policy_path ∷ []
        ]

  unfoldable pub child_records : ℕ → List Event
  unfolding stage_records
  child_records executable_fd =
      if not m.fork_ok
      then []
      else if not m.calls.sigmask_ok
      then reported 70 ∷ []
      else announcement command rule ++ stage_records executable_fd

  unfoldable pub execute_records : List Event
  unfolding child_records child_outcome executable_to_open open_executable
  execute_records = elim (executable_to_open m.kernel 0 command options target) [
    | none ↦ reported 126 ∷ []
    | some executable ↦ elim (open_executable m.kernel 0 executable) [
      | unexpected e ↦ told_of options executable.path ∷ []
      | value fd ↦
          if not m.block_ok
          then reported 70 ∷ []
          else child_records fd
            ++ parent_records (child_outcome m config command args options rule target fd)
    ]
  ]
