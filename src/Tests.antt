-- ===== src/Tests.antt =====
-- The values on which the theorems are tried: a file system of root's executables, two accounts and
-- a small policy.
pub mod Values
pub mod Policy
pub mod Surroundings
pub mod System
pub mod Invocation
pub mod Documents
pub mod Settings
pub mod CommandLine
pub mod FileChecks
pub mod Terminal
