-- ===== src/Files/Writing.antt =====
-- `write_file_secure` of src/file_utils.cpp.
use mathlib.Core.List.{append_assoc}
use voix.Base.{
  ℕ, ◌≡◌, ◌∙◌, refl, sym, ap, Bool, true, false, not, Option, none, some, zero, suc, List, [], ◌∷◌,
  ◌++◌, Text, take, drop, append_nil, arith, inl, inr, Bool-cases, if◌then◌else◌,
}
use voix.Files.{
  FileError, permission_denied, write_error, Expected, value, unexpected, Errno, eintr, Created,
  Kernel, errno_to_file_error, Expected-cases,
}
use voix.Files.Reading.{is_file_safe}

-- The loop over `write`: whether it gets to the end, and what was written.
unfoldable pub write_loop : List (Expected Errno ℕ) → Text → Text → Bool × Text
write_loop answers written [] = (true, written)
write_loop [] written (c ∷ rest) = (true, written ++ c ∷ rest)
write_loop (value n ∷ answers) written (c ∷ rest) =
    write_loop answers (written ++ take n (c ∷ rest)) (drop n (c ∷ rest))
write_loop (unexpected eintr ∷ answers) written (c ∷ rest) = write_loop answers written (c ∷ rest)
write_loop (unexpected _ ∷ answers) written (c ∷ rest) = (false, written)

abbrev written_result : Bool × Text → Expected FileError (Unit {0}) × Text
written_result (true, held) = (value tt, held)
written_result (false, held) = (unexpected write_error, held)

-- `write_file_secure` on an open file: the result, and what the file holds afterwards.
unfoldable pub write_opened : Kernel → Created → Text → Expected FileError (Unit {0}) × Text
unfolding is_file_safe write_loop
write_opened k created content =
    if not (is_file_safe k created.file)
    then (unexpected permission_denied, [])
    else written_result (write_loop created.writes [] content)

abbrev opened_result :
    Expected FileError (Unit {0}) × Text → Expected FileError (Unit {0}) × Option Text
opened_result (r, held) = (r, some held)

-- `write_file_secure`: the result, and what the file holds afterwards where it could be opened.
unfoldable pub write_file_secure :
    Kernel → Text → Text → Expected FileError (Unit {0}) × Option Text
unfolding write_opened
write_file_secure k path content = elim (k.create_no_follow path) [
  | unexpected e ↦ (unexpected (errno_to_file_error e write_error), none)
  | value created ↦ opened_result (write_opened k created content)
]

take-drop : (n : ℕ) (xs : Text) → take n xs ++ drop n xs ≡ xs
take-drop zero xs = refl
take-drop (suc n) [] = refl
take-drop (suc n) (x ∷ xs) = ap (λ ys. x ∷ ys) (take-drop n xs)

-- What is left to write when the loop ends, nothing if it gets to the end.
abbrev pub Rest : Bool × Text → Text → Type 0
Rest r all_text = (left : Text) × (r.1 ++ left ≡ all_text) × (r.0 ≡ true → left ≡ [])

pub write_loop-Rest :
    (answers : List (Expected Errno ℕ)) (written rest : Text)
    → Rest (write_loop answers written rest) (written ++ rest)
unfolding write_loop
write_loop-Rest [] written [] = ([], refl, λ e. refl)
write_loop-Rest (answer ∷ answers) written [] = ([], refl, λ e. refl)
write_loop-Rest [] written (c ∷ rest) = ([], append_nil (written ++ c ∷ rest), λ e. refl)
write_loop-Rest (value n ∷ answers) written (c ∷ rest) =
    let (left, all_text, ended) =
      write_loop-Rest answers (written ++ take n (c ∷ rest)) (drop n (c ∷ rest)) in
    (
      left,
      all_text
          ∙ append_assoc written (take n (c ∷ rest)) (drop n (c ∷ rest))
          ∙ ap (λ t. written ++ t) (take-drop n (c ∷ rest)),
      ended,
    )
write_loop-Rest (unexpected eintr ∷ answers) written (c ∷ rest) =
    write_loop-Rest answers written (c ∷ rest)
write_loop-Rest (unexpected _ ∷ answers) written (c ∷ rest) =
    (c ∷ rest, refl, λ e. absurd (ground arith))

written_result-steps :
    (r : Bool × Text) (result : Expected FileError (Unit {0})) (held content : Text)
    → Rest r content
    → written_result r ≡ (result, held)
    → ((left : Text) × (held ++ left ≡ content)) × (result ≡ value tt → held ≡ content)
written_result-steps (true, out) result held content (left, all_text, ended) e =
    let same : out ≡ held = ground arith in
    (
      (left, cc (all_text, same)),
      λ _. sym same ∙ sym (append_nil out) ∙ ap (λ t. out ++ t) (sym (ended refl)) ∙ all_text,
    )
written_result-steps (false, out) result held content (left, all_text, ended) e =
    let same : out ≡ held = ground arith in
    ((left, cc (all_text, same)), λ ok. absurd (ground arith))

-- Where the file could be opened, what it holds afterwards is a beginning of the content, whatever
-- `write` answers; if the call succeeds it holds all of the content, and the file is safe: a regular
-- file of the process's own user that nobody else may write to.
pub write_file_secure-held :
    (k : Kernel) (path content held : Text) (result : Expected FileError (Unit {0}))
    → write_file_secure k path content ≡ (result, some held)
    → ((left : Text) × (held ++ left ≡ content))
      × (result ≡ value tt
          → (held ≡ content)
            × ((created : Created) × (k.create_no_follow path ≡ value created)
                × (is_file_safe k created.file ≡ true)))
unfolding write_file_secure write_opened
write_file_secure-held k path content held result e =
    elim (Expected-cases (k.create_no_follow path)) [
      | inl (x, refused) ↦ absurd (ground arith)
      | inr (created, opened) ↦ elim (Bool-cases (is_file_safe k created.file)) [
        | inr unsafe ↦
            let same : [] ≡ held = ground arith in ((content, cc same), λ ok. absurd (ground arith))
        | inl safe ↦
            let (beginning, complete) =
              written_result-steps (write_loop created.writes [] content) result held content
                (write_loop-Rest created.writes [] content) (ground arith) in
            (beginning, λ ok. (complete ok, (created, opened, safe)))
      ]
    ]
