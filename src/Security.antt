-- ===== src/Security.antt =====
-- src/security.cpp: which user names and which commands are refused outright.
pub mod Catastrophic
pub mod Blocklist
pub mod Capabilities
pub mod Seccomp
use voix.Base.{
  ℕ, ◌≤◌, Bool, true, false, not, ◌&&◌, ◌||◌, Option, none, some, List, [], ◌∷◌, ◌++◌, Text, codes,
  contains, starts_with, contains_text, find_char, take, drop, length, is_empty, is_alnum, any, all,
  leb, ltb, ◌==◌, nat_eq, list_eq, if◌then◌else◌,
}
use voix.Paths.{filename, parent_path, append_path, absolute, lexically_normal}
use voix.Files.{Kernel}
use voix.Identity.{Accounts, get_user_by_name}
use voix.Config.{Config}

-- `validateUser`
unfoldable pub validate_user : Accounts → Text → Bool
unfolding is_alnum get_user_by_name
validate_user accounts username =
    if is_empty username || ltb 32 (length username)
    then false
    else if not (all (λ c. is_alnum c || (c == b'_' || c == b'-')) username)
    then false
    else elim (get_user_by_name accounts username) [ none ↦ false | some identity ↦ true ]

-- `short_flag_has`
unfoldable pub short_flag_has : Text → ℕ → Bool
unfolding contains
short_flag_has [] flag = false
short_flag_has (a ∷ []) flag = false
short_flag_has (a ∷ b ∷ arg) flag =
    if not (a == b'-') || b == b'-' then false else contains (a ∷ b ∷ arg) flag

abbrev up_to : Option ℕ → Text → Text
up_to none s = s
up_to (some n) s = take n s

-- `long_flag_is`
unfoldable pub long_flag_is : Text → Text → Bool
unfolding starts_with find_char
long_flag_is arg name =
    if not (starts_with arg (b'-' ∷ b'-' ∷ []))
    then false
    else up_to (find_char (drop 2 arg) b'=') (drop 2 arg) == name

unfoldable pub canonicalize_arg : Kernel → Text → Option Text
unfolding absolute
canonicalize_arg k raw = elim (absolute k.cwd raw) [
  | none ↦ none
  | some full ↦ k.weakly_canonical full
]

abbrev or_raw : Option Text → Text → Text
or_raw none raw = raw
or_raw (some canonical) raw = canonical

unfoldable pub canonicalize_blocklist_path : Kernel → Text → Text
unfolding canonicalize_arg
canonicalize_blocklist_path k raw = or_raw (canonicalize_arg k raw) raw

-- The policy identity of a path: its directory resolved, its last name kept.
policy_of_absolute : Kernel → Text → Text → Text
unfolding filename parent_path append_path
policy_of_absolute k raw full =
    if is_empty (filename full) then full else elim (k.weakly_canonical (parent_path full)) [
      | none ↦ raw
      | some parent ↦ append_path parent (filename full)
    ]

unfoldable pub canonicalize_policy_path : Kernel → Text → Text
unfolding policy_of_absolute absolute lexically_normal
canonicalize_policy_path k raw = elim (absolute k.cwd raw) [
  | none ↦ raw
  | some full ↦ policy_of_absolute k raw (lexically_normal full)
]

-- A pattern of slashes and stars that begins with a slash and has a star.
abbrev is_root_glob : Text → Bool
is_root_glob raw =
    starts_with raw (b'/' ∷ []) && (all (λ c. c == b'/' || c == b'*') raw && contains raw b'*')

abbrev is_root : Option Text → Bool
is_root none = false
is_root (some canonical) = canonical == b'/' ∷ []

unfoldable pub rm_targets_root : Kernel → Text → Bool
unfolding canonicalize_arg starts_with contains
rm_targets_root k raw =
    if is_empty raw
    then false
    else if raw == b'/' ∷ [] || raw == b'/' ∷ b'/' ∷ []
    then true
    else if is_root_glob raw
    then true
    else is_root (canonicalize_arg k raw)

-- The flags that one argument of `rm` sets.
unfoldable pub is_recursive_flag : Text → Bool
unfolding short_flag_has long_flag_is codes
is_recursive_flag arg =
    arg == codes "-r"
    || (arg == codes "-R"
        || (short_flag_has arg b'r'
            || (short_flag_has arg b'R' || long_flag_is arg (codes "recursive"))))

unfoldable pub is_force_flag : Text → Bool
unfolding short_flag_has long_flag_is codes
is_force_flag arg =
    arg == codes "-f" || (short_flag_has arg b'f' || long_flag_is arg (codes "force"))

abbrev pub begins_with_dash : Text → Bool
begins_with_dash [] = false
begins_with_dash (c ∷ arg) = c == b'-'

-- The loop over the arguments of `rm`, with its three flags.
unfoldable pub rm_loop : Kernel → Bool → Bool → Bool → List Text → Bool
rm_loop k recursive force target_root [] = recursive && (force && target_root)
rm_loop k recursive force target_root (arg ∷ args) =
    rm_loop k (if begins_with_dash arg then recursive || is_recursive_flag arg else recursive)
      (if begins_with_dash arg then force || is_force_flag arg else force)
      (if begins_with_dash arg then target_root else target_root || rm_targets_root k arg) args

-- What `find(" - ")` finds: the text before it and the text behind it.
cut_at : Text → Text → Option (Text × Text)
unfolding starts_with
cut_at mark [] = none
cut_at mark (c ∷ s) =
    let later = cut_at mark s in
    if starts_with (c ∷ s) mark
    then some ([], drop (length mark) (c ∷ s))
    else elim later [ none ↦ none | some (before, behind) ↦ some (c ∷ before, behind) ]

abbrev is_blank : ℕ → Bool
is_blank c = c == 32 || (leb 9 c && leb c 13)

abbrev close_token : Text → List Text → List Text
close_token [] tokens = tokens
close_token (c ∷ cur) tokens = (c ∷ cur) ∷ tokens

-- `stream >> token`, until the end.
tokens_from : Text → Text → List Text
tokens_from cur [] = close_token cur []
tokens_from cur (c ∷ s) =
    let next = tokens_from [] s in
    let longer = tokens_from (cur ++ c ∷ []) s in
    if is_blank c then close_token cur next else longer

abbrev mount_point : List Text → Option Text
mount_point (id ∷ parent ∷ device ∷ root ∷ mountpoint ∷ more) = some mountpoint
mount_point _ = none

abbrev mount_source : List Text → Option Text
mount_source (fstype ∷ source ∷ more) = some source
mount_source _ = none

-- The device of one line, if it mounts a device on the root.
device_of_line : Text → Option Text
unfolding cut_at tokens_from starts_with codes
device_of_line line = elim (cut_at (codes " - ") line) [
  | none ↦ none
  | some (fields_part, after_sep) ↦ elim (mount_point (tokens_from [] fields_part)) [
    | none ↦ none
    | some mountpoint ↦
        if not (mountpoint == codes "/")
        then none
        else elim (mount_source (tokens_from [] after_sep)) [
          | none ↦ none
          | some source ↦ if starts_with source (codes "/dev/") then some source else none
        ]
  ]
]

root_device_of : List Text → Text
unfolding device_of_line
root_device_of [] = []
root_device_of (line ∷ lines) =
    let rest = root_device_of lines in
    elim (device_of_line line) [ some source ↦ source | none ↦ rest ]

unfoldable pub get_root_device : Kernel → Text
unfolding root_device_of
get_root_device k = elim k.mountinfo [ none ↦ [] | some lines ↦ root_device_of lines ]

abbrev pub k_destructive_basenames : List Text
k_destructive_basenames =
    codes "fdisk"
    ∷ codes "sfdisk"
    ∷ codes "cfdisk"
    ∷ codes "parted"
    ∷ codes "wipe"
    ∷ codes "wipefs"
    ∷ codes "shred"
    ∷ codes "mkswap"
    ∷ []

abbrev k_block_device_prefixes : List Text
k_block_device_prefixes =
    codes "/dev/sd"
    ∷ codes "/dev/hd"
    ∷ codes "/dev/vd"
    ∷ codes "/dev/nvme"
    ∷ codes "/dev/mmcblk"
    ∷ codes "/dev/mapper"
    ∷ codes "/dev/disk/"
    ∷ codes "/dev/dm-"
    ∷ codes "/dev/root"
    ∷ []

unfoldable pub dd_targets_device : Kernel → List Text → Bool
unfolding get_root_device contains_text codes
dd_targets_device k args =
    let root_dev = get_root_device k in
    any
      (λ arg.
        not (is_empty root_dev) && contains_text arg root_dev
        || any (λ dev. contains_text arg dev) k_block_device_prefixes)
      args

-- The checks that are built in, by the names of the command.
unfoldable pub is_builtin_catastrophic : Kernel → Text → Text → List Text → Bool
unfolding rm_loop dd_targets_device starts_with
is_builtin_catastrophic k base resolved_base args =
    if base == codes "rm" || resolved_base == codes "rm"
    then rm_loop k false false false args
    else if base == codes "dd" || resolved_base == codes "dd"
    then dd_targets_device k args
    else contains k_destructive_basenames base
      || contains k_destructive_basenames resolved_base
      || (starts_with base (codes "mkfs") || starts_with resolved_base (codes "mkfs"))

abbrev is_trimmed : ℕ → Bool
is_trimmed c = c == 32 || (c == 9 || (c == 13 || c == 10))

unfoldable pub trim_left : Text → Text
trim_left [] = []
trim_left (c ∷ s) = let rest = trim_left s in if is_trimmed c then rest else c ∷ s

unfoldable pub trim_right : Text → Text
trim_right [] = []
trim_right (c ∷ s) =
    let rest = trim_right s in if is_empty rest && is_trimmed c then [] else c ∷ rest

full_command_from : Kernel → Text → List Text → Text
unfolding canonicalize_arg
full_command_from k full_command [] = full_command
full_command_from k full_command (arg ∷ args) =
    full_command_from k (full_command ++ 32 ∷ or_raw (canonicalize_arg k arg) arg) args

-- One entry of the administrator's list against the command.
unfoldable pub is_blocked_by : Kernel → Text → Text → Bool
is_blocked_by k cmd forbidden_cmd =
    cmd == forbidden_cmd
    || (canonicalize_policy_path k cmd == forbidden_cmd
        || (canonicalize_policy_path k cmd == canonicalize_policy_path k forbidden_cmd
            || canonicalize_blocklist_path k cmd == forbidden_cmd))

-- `isCatastrophicCommand`; `regex_search` is `std::regex_search` by the pattern's text.
unfoldable pub is_catastrophic_command :
    Kernel → (Text → Text → Bool) → Config → Text → List Text → Bool
unfolding full_command_from
is_catastrophic_command k regex_search config command args =
    let cmd = trim_right (trim_left command) in
    if is_empty cmd
    then false
    else is_builtin_catastrophic k (filename cmd) (filename (canonicalize_blocklist_path k cmd))
        args
      || (any (is_blocked_by k cmd) config.blocklist
          || any (λ pattern_text. regex_search pattern_text (full_command_from k cmd args))
              config.regex_blocklist)
