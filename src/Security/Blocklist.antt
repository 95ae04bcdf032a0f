-- ===== src/Security/Blocklist.antt =====
-- `isCatastrophicCommand` of src/security.cpp: the administrator's list of blocked commands.
use voix.Base.{◌≡◌, true, false, some, Text, is_empty, nat_eq, list_eq, ◌⊎◌}
use voix.Paths.{filename, parent_path, is_absolute, lexically_normal}
use voix.Files.{Kernel}
use voix.Config.{Config}

module _ (k : Kernel) where
  -- The kernel finds the normalized path's last name in a directory.
  abbrev pub LiesIn : Text → Text → Text → Type 0
  LiesIn resolved name path =
      (filename (lexically_normal path) ≡ name)
      × (k.weakly_canonical (parent_path (lexically_normal path)) ≡ some resolved)

  -- The command and the entry have one name in one directory, by whatever links the two paths get
  -- there; or the command's path leads to the entry.
  abbrev pub SameCommand : Text → Text → Type 0
  SameCommand cmd entry =
      ((resolved : Text) × (name : Text) × (is_empty name ≡ false)
        × (is_absolute entry ≡ true)
        × LiesIn resolved name cmd
        × LiesIn resolved name entry)
      ⊎ (k.weakly_canonical cmd ≡ some entry)
