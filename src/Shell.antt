-- ===== src/Shell.antt =====
-- The argument vectors of `Command::do_exec` (src/command.cpp): a login shell gets the command as
-- one quoted text behind `-c`, any other command gets its arguments as they are.
pub mod Quoting
use voix.Base.{
  ℕ, Bool, true, false, List, [], ◌∷◌, ◌++◌, Text, codes, ◌==◌, nat_eq, if◌then◌else◌, is_empty,
}
use voix.Paths.{filename}
use voix.Identity.{UserIdentity}

-- The loop of `escape`, from the text written so far.
unfoldable pub escape_from : Text → Text → Text
escape_from escaped [] = escaped ++ 39 ∷ []
escape_from escaped (c ∷ s) =
    escape_from (escaped ++ (if c == 39 then 39 ∷ 92 ∷ 39 ∷ 39 ∷ [] else c ∷ [])) s

unfoldable pub escape : Text → Text
unfolding escape_from
escape s = escape_from (39 ∷ []) s

unfoldable pub full_cmd_from : Text → List Text → Text
full_cmd_from full_cmd [] = full_cmd
full_cmd_from full_cmd (arg ∷ args) = full_cmd_from (full_cmd ++ 32 ∷ escape arg) args

unfoldable pub full_cmd : Text → List Text → Text
unfolding full_cmd_from escape
full_cmd cmd_str args = full_cmd_from (escape cmd_str) args

-- `argv` of the call of `fexecve`.
unfoldable pub exec_args : Bool → Text → List Text → UserIdentity → List Text
unfolding full_cmd filename codes
exec_args login_shell cmd_str args target =
    let shell = if is_empty target.shell then codes "/bin/sh" else target.shell in
    if login_shell
    then (b'-' ∷ filename shell) ∷ codes "-c" ∷ full_cmd cmd_str args ∷ []
    else cmd_str ∷ args
