-- ===== src/Tests/System.antt =====
-- The theorems of the command checks, the confinement, the authentication and the whole invocation
-- at concrete values.
use voix.Base.{
  ◌≡◌, refl, some, ◌||◌, if◌then◌else◌, not, ◌&&◌, Bool, true, false, List, [], ◌∷◌, ◌++◌, Text,
  codes, inl, inr, list_beq, is_digit, ◌==◌, list_eq, nat_eq,
}
use voix.Numbers.Laws.{NoDigit}
use voix.Paths.{filename, filename_from}
use voix.Files.{Kernel}
use voix.Config.{Config, default_config}
use voix.Security.{
  canonicalize_blocklist_path, is_catastrophic_command, begins_with_dash, is_recursive_flag,
  is_force_flag, rm_targets_root,
}
use voix.Security.Catastrophic.{is_catastrophic_command-rm}
use voix.Tests.Values.{kernel}

abbrev no_regex : Text → Text → Bool
no_regex s pattern = false

newline : NoDigit (codes "\n")
unfolding codes is_digit
newline = refl

plain_fdisk :
    ((filename (canonicalize_blocklist_path kernel (b'/' ∷ codes "sbin" ++ b'/' ∷ codes "fdisk"))
        == codes "rm")
      ≡ false)
    × ((filename (canonicalize_blocklist_path kernel (b'/' ∷ codes "sbin" ++ b'/' ∷ codes "fdisk"))
          == codes "dd")
        ≡ false)
unfolding canonicalize_blocklist_path filename codes list_beq filename_from
plain_fdisk = (refl, refl)

abbrev rm_args : List Text
rm_args = codes "-r" ∷ codes "--force" ∷ codes "/" ∷ []

rm_flags :
    (begins_with_dash (codes "-r") && is_recursive_flag (codes "-r") ≡ true)
    × (begins_with_dash (codes "--force") && is_force_flag (codes "--force") ≡ true)
    × (not (begins_with_dash (codes "/")) && rm_targets_root kernel (codes "/") ≡ true)
unfolding codes is_recursive_flag is_force_flag rm_targets_root list_beq
rm_flags = (refl, refl, refl)

is_catastrophic_command-rm_example :
    is_catastrophic_command kernel no_regex default_config
      (b'/' ∷ codes "bin" ++ b'/' ∷ codes "rm")
      rm_args
    ≡ true
is_catastrophic_command-rm_example =
    is_catastrophic_command-rm kernel no_regex default_config (codes "bin") rm_args (codes "-r")
      (codes "--force") (codes "/") (inl refl) (inr (inl refl)) (inr (inr (inl refl))) rm_flags.0
      rm_flags.1 rm_flags.2

-- Where /bin is a link to /usr/bin.
abbrev merged : Kernel
merged = record kernel {
  weakly_canonical = λ path.
      some (if path == codes "/bin" || path == codes "/usr/bin" then codes "/usr/bin" else path);
}

abbrev blocking : Config
blocking = record default_config { blocklist = codes "/usr/bin/sh" ∷ [] }
