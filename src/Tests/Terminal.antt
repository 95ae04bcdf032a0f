-- ===== src/Tests/Terminal.antt =====
-- The theorems of the log's sinks, of secure writing and of the PAM conversation at concrete values.
use voix.Base.{◌≡◌, ◌++◌, refl, true, false, none, some, List, [], ◌∷◌, Text, codes, All, arith}
use voix.Files.{FileError, Expected, value, unexpected, eintr, Created}
use voix.Files.Reading.{is_file_safe}
use voix.Files.Writing.{write_file_secure, write_file_secure-held}
use voix.Logger.{security}
use voix.Logger.Sinks.{System, log}
use voix.Logger.Lines.{IsClean, log-one_line}
use voix.Conversation.{
  Message, Console, Calls, prompt_echo_off, text_info, answered, pam_conversation,
}
use voix.Conversation.Reads.{IsLine, unlines, Ready}
use voix.Conversation.Lines.{info, hidden, no_more, pam_conversation-Answers}
use voix.Tests.Values.{tree}

abbrev sys : System
sys = record {
  log_file = some (value 5 ∷ unexpected eintr ∷ []);
  socket_ok = true;
  connect_ok = true;
  timestamp = codes "2026-01-01 00:00:00";
  pid = 42;
  suppress_stderr = false;
}

timestamp-IsClean : IsClean (codes "2026-01-01 00:00:00")
unfolding codes
timestamp-IsClean = ground arith

log-one_line_example :
    ((line : Text) × IsClean line
      × ((left : Text) × ((log sys security (10 ∷ codes "root") true).file ++ left
            ≡ line ++ codes "\n")))
    × (All IsClean (log sys security (10 ∷ codes "root") true).sent
        × All IsClean (log sys security (10 ∷ codes "root") true).stderr)
log-one_line_example = log-one_line sys security (10 ∷ codes "root") true timestamp-IsClean

abbrev content : Text
content = 1 ∷ 2 ∷ 3 ∷ []

saved : write_file_secure tree (codes "/t/1000-0") content ≡ (value tt, some content)
unfolding write_file_secure
saved = refl

write_file_secure-held_example :
    ((left : Text) × (content ++ left ≡ content))
    × (◌≡◌ {A = Expected FileError (Unit {0})} (value tt) (value tt)
        → (content ≡ content)
          × ((created : Created) × (tree.create_no_follow (codes "/t/1000-0") ≡ value created)
              × (is_file_safe tree created.file ≡ true)))
write_file_secure-held_example =
    write_file_secure-held tree (codes "/t/1000-0") content content (value tt) saved

abbrev terminal : Calls
terminal = record {
  calloc_ok = true;
  strdup_ok = λ i. true;
  tcgetattr_ok = true;
  echo_off_ok = true;
  restore_ok = true;
}

abbrev console : Console
console = record { input = codes "secret" ++ 10 ∷ []; bad = false; echo = true; out = []; err = [] }

abbrev messages : List Message
messages =
    record { style = text_info; text = codes "Hello" }
    ∷ record { style = prompt_echo_off; text = codes "Password: " }
    ∷ []

secret : All IsLine (codes "secret" ∷ []) × Ready (unlines (codes "secret" ∷ []) ++ []) console
unfolding codes unlines
secret = ground arith

pam_conversation-Answers_example :
    ((pam_conversation terminal messages console).0 ≡ answered (none ∷ some (codes "secret") ∷ []))
    × ((pam_conversation terminal messages console).1.input ≡ [])
    × ((pam_conversation terminal messages console).1.echo ≡ true)
pam_conversation-Answers_example =
    pam_conversation-Answers terminal (λ i. refl) [] console (info (hidden no_more)) (secret.0)
      (secret.1) refl refl
