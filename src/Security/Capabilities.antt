-- ===== src/Security/Capabilities.antt =====
-- `raiseCapabilities` and `dropCapabilities` of src/security.cpp, over libcap's answers.
use voix.Base.{ℕ, Bool, not, ◌&&◌, Option, none, some, if◌then◌else◌}

-- What leaves a function by an exception: a `VoixError` with its exit code, or another one.
pub data Thrown : Type 0 where
  voix_error : ℕ → Thrown
  exception : Thrown

-- Whether each call of libcap succeeds, for raising and for dropping.
pub record LibCap : Type 0 where
  pub raise_get_proc : Bool
  pub raise_set_flag : Bool
  pub raise_set_proc : Bool
  pub drop_get_proc : Bool
  pub drop_clear : Bool
  pub drop_set_flag : Bool
  pub drop_set_proc : Bool

-- `raiseCapabilities`: what it throws.
unfoldable pub raise_capabilities : LibCap → Option Thrown
raise_capabilities cap =
    if not cap.raise_get_proc
    then some exception
    else if not cap.raise_set_flag
    then some exception
    else if not cap.raise_set_proc
    then some (voix_error 78)
    else none

-- `dropCapabilities`, which ends the process with status 1 where it fails; `keep` is whether some
-- capabilities are kept.
unfoldable pub drop_capabilities : LibCap → Bool → Option ℕ
drop_capabilities cap keep =
    if not cap.drop_get_proc
    then some 1
    else if not cap.drop_clear
    then some 1
    else if keep && not cap.drop_set_flag
    then some 1
    else if not cap.drop_set_proc
    then some 1
    else none
