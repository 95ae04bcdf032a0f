-- ===== src/Lib.antt =====
-- Voix, a privilege policy runtime: a setuid program that runs one command as another user, where a
-- policy permits it.
--
-- One invocation goes through src/voix.cpp: the command's name is resolved to an executable of root's
-- (src/file_utils.cpp), destructive commands are blocked (src/security.cpp), the policy decides by its
-- first matching rule (src/permission_checker.cpp), PAM or a stored ticket authenticates the caller
-- (src/authenticator.cpp, src/ticket_store.cpp), and a child takes the target's identity, gives up its
-- privileges, builds its environment and executes the command (src/command.cpp). Every step leaves
-- records in the log (src/logger.cpp). The command line (src/main.cpp) comes first: it selects the mode,
-- and src/config.cpp loads the configuration that all of this reads.
--
-- The modules, with the code that each models:
--   Base            equality tests, lists over native numbers, texts as lists of bytes
--   Rule            include/rule.hpp
--   Numbers         the C library's decimal conversions as the code calls them (Laws: reading back)
--   Patterns        match_pattern of src/permission_checker.cpp: the regular expression that it builds,
--                   and what std::regex makes of expressions of that form (Laws)
--   Paths           std::filesystem::path as the code calls it
--   Conversation    src/pam_utils.cpp on a record Console of standard input, the echo and the output;
--                   Reads and Lines say which lines answer which prompts
--   Files           src/file_utils.cpp: Reading, Writing, Executables and Trust, with their theorems in Checked and
--                   Trusted, and Received for what the reading collects; a record Kernel holds the answers of
--                   the system calls at the time of one operation
--   Config          include/config.hpp and the accessors of src/config.cpp; Loading is Config::load over a
--                   record Yaml of yaml-cpp's answers, in a monad Load of the configuration and its
--                   errors, with Rules and Profiles for the parts of the document and Validation for the
--                   checks; Keeps, WellFormed, Sections, Usable and Valid hold the proofs
--   Identity        src/system_identity.cpp and part of src/system_utils.cpp, over a record Accounts of
--                   the user database's answers; Lookup holds the loops that grow a buffer
--   Permission      src/permission_checker.cpp; FirstMatch, Variables, Overlap, Denials
--                   and Listing hold the proofs
--   Environment     resolve_profile, sanitize_environment, build_environment and apply_environment of
--                   src/command.cpp; Table is the environment as a list, with setenv
--   Shell           the command line that do_exec of src/command.cpp gives to a login shell
--   Policy          src/policy_analyzer.cpp
--   Child           the stages of the child in Command::execute, and the parent's exit status; a record
--                   Calls says which of the child's system calls succeed; Records is what reaches the log on
--                   each way, Confined and Target are about the child that executes the command
--   Security        src/security.cpp; Catastrophic and Blocklist are about isCatastrophicCommand, Seccomp about the filters,
--                   over a record Libseccomp of that library's answers, Capabilities about libcap
--   Logger, Audit   src/logger.cpp (Sinks: the log file, syslog and standard error) and include/audit.hpp
--   Tickets         src/ticket_store.cpp, over the interface PrivateFiles, which Tickets/Memory implements
--   Authenticator   src/authenticator.cpp, over a record Pam of PAM's answers
--   Runtime         Voix::execute of src/voix.cpp; Listed is list_commands; Mentions and Nolog are about
--                   the records of the log that name the command
--   Main            src/main.cpp over the options that getopt_long gives (Options), with the constructor of
--                   Voix; a record World holds the surroundings of one run
--   Tests           concrete values, and the theorems applied to them
--
-- Texts are lists of bytes. User ids, descriptors and times are natural numbers; where the code narrows
-- or overflows (strtol into a uid_t, strtoull, a time beyond 2^63) the wrap-around is written out. Loops
-- are structural recursion but for three with fuel: the substitution of %u, which has one round for each
-- byte of the text, the printing of a number, which has one round more than the number, and the lookups
-- of Identity/Lookup, for which as many rounds as the size of a buffer that suffices are enough.
--
-- The log holds, in order, the audit events, the reports of errors with the command where a report names
-- it, the child's announcement of the command, and the failure of Config::load. Left out of it are the
-- informational records and warnings of src/authenticator.cpp and src/security.cpp, and the errors that
-- the rules of a configuration leave while it loads; none of them names a command.
--
-- Not modelled: the usage and version texts, the text of exceptions, and messages on standard error
-- outside the logger and the conversation. The build is the one with libcap and libseccomp and without
-- tests.
pub mod Base
pub mod Rule
pub mod Numbers
pub mod Patterns
pub mod Paths
pub mod Files
pub mod Config
pub mod Conversation
pub mod Identity
pub mod Permission
pub mod Policy
pub mod Environment
pub mod Shell
pub mod Logger
pub mod Main
pub mod Security
pub mod Child
pub mod Tickets
pub mod Audit
pub mod Authenticator
pub mod Runtime
pub mod Tests
