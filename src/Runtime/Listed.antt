-- ===== src/Runtime/Listed.antt =====
-- `Voix::list_commands` of src/voix.cpp: the lines that it prints.
use voix.Base.{Bool, List, [], ◌∷◌, ◌++◌, Text, codes, drop, is_empty, map, if◌then◌else◌}
use voix.Rule.{Options}
use voix.Files.{Kernel}
use voix.Identity.{Accounts, get_current_username}
use voix.Config.{Config}
use voix.Permission.{Entry, list_permitted_entries}

-- The loop over `cmdargs`.
unfoldable pub append_args : Text → List Text → Text
append_args entry [] = entry
append_args entry (arg ∷ args) = append_args (entry ++ (codes " " ++ arg)) args

abbrev flag : Bool → Text → Text
flag b name = if b then codes " " ++ name else []

-- `opts`
abbrev pub option_names : Options → Text
option_names o =
    flag o.nopass (codes "nopass")
    ++ (flag o.keepenv (codes "keepenv")
        ++ (flag o.persist (codes "persist")
            ++ (flag o.nolog (codes "nolog") ++ flag o.pattern_args (codes "pattern"))))

abbrev bracketed : Text → Text
bracketed opts = if is_empty opts then [] else codes " [" ++ (drop 1 opts ++ codes "]")

-- The text of one entry.
unfoldable pub entry_text : Entry → Text
unfolding append_args codes
entry_text permitted =
    let rule = permitted.rule in
    (if is_empty rule.cmd then codes "(all commands)" else append_args rule.cmd rule.cmdargs)
    ++ ((if is_empty rule.target then [] else codes " as " ++ rule.target)
        ++ (bracketed (option_names rule.options)
            ++ (if permitted.conditional
                then codes " (partially restricted by an earlier deny)"
                else [])))

abbrev print_entries : Accounts → List Entry → List Text
print_entries accounts [] = codes "No permitted commands for the current user." ∷ []
print_entries accounts (first ∷ more) =
    (codes "Permitted commands for user '" ++ (get_current_username accounts ++ codes "':"))
    ∷ map (λ entry. codes "  " ++ entry_text entry) (first ∷ more)

-- `list_commands`, whose status is 0.
unfoldable pub list_commands : Kernel → Accounts → Config → List Text
unfolding list_permitted_entries entry_text
list_commands k accounts config = print_entries accounts (list_permitted_entries k accounts config)
