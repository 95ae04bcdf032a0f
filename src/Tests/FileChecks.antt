-- ===== src/Tests/FileChecks.antt =====
-- The theorems of the file checks at concrete values.
use voix.Base.{◌≡◌, refl, true, [], ◌∷◌, codes, All, list_beq, take}
use voix.Paths.{is_absolute, lexically_normal, relative_names}
use voix.Files.{Stat, Opened, value, ExecutableInfo}
use voix.Files.Reading.{read_file_secure}
use voix.Files.Executables.{resolve_executable, open_executable}
use voix.Files.Received.{received}
use voix.Files.Trust.{is_trusted_path}
use voix.Files.Checked.{IsSafe, Checked, open_executable-resolve_executable}
use voix.Files.Trusted.{
  visited, IsTrusted, IsOwnFile, is_trusted_path-IsTrusted, read_file_secure-safe,
}
use voix.Tests.Values.{kernel, tree}

trusted : is_trusted_path tree (codes "/etc/./voix") ≡ true
unfolding is_trusted_path codes list_beq
trusted = refl

is_trusted_path-IsTrusted_example :
    (is_absolute (codes "/etc/./voix") ≡ true)
    × All
        (IsTrusted tree (lexically_normal (codes "/etc/./voix")))
        (visited (b'/' ∷ []) (relative_names (lexically_normal (codes "/etc/./voix"))))
is_trusted_path-IsTrusted_example = is_trusted_path-IsTrusted tree (codes "/etc/./voix") trusted

read : read_file_secure tree (codes "/etc/voix.conf") ≡ value (1 ∷ 2 ∷ 3 ∷ [])
unfolding read_file_secure
read = refl

read_file_secure-safe_example :
    (file : Opened) × (tree.open_no_follow (codes "/etc/voix.conf") ≡ value file)
    × IsOwnFile tree file
    × (file.size ≡ value 3)
    × (1 ∷ 2 ∷ 3 ∷ [] ≡ take 3 (received file.reads))
read_file_secure-safe_example =
    read_file_secure-safe tree (codes "/etc/voix.conf") (1 ∷ 2 ∷ 3 ∷ []) read

abbrev ls_info : ExecutableInfo
ls_info = record { path = codes "/bin/ls"; policy_path = codes "/bin/ls"; device = 1; inode = 2 }

ls_resolved : resolve_executable kernel 0 (codes "ls") (codes "/bin") ≡ value ls_info
unfolding resolve_executable codes
ls_resolved = refl

ls_opened : open_executable tree 0 ls_info ≡ value 7
unfolding open_executable
ls_opened = refl

open_executable-resolve_executable_example :
    Checked kernel 0 ls_info
    × ((file : Opened) × (st : Stat) × (tree.open_no_follow (codes "/bin/ls") ≡ value file)
        × (file.fstat ≡ value st)
        × (file.fd ≡ 7)
        × IsSafe 0 st
        × (st.device ≡ 1)
        × (st.inode ≡ 2))
open_executable-resolve_executable_example =
    open_executable-resolve_executable kernel tree 0 (codes "ls") (codes "/bin") ls_info 7
      ls_resolved ls_opened
