-- ===== src/Files/Received.antt =====
-- The loop of `read_file_secure` of src/file_utils.cpp: the bytes that it collects.
use mathlib.Core.List.{append_assoc}
use voix.Base.{
  zero, suc, ℕ, ◌-◌, ◌≡◌, refl, sym, ap, ◌∙◌, List, [], ◌∷◌, ◌++◌, Text, length, take, is_empty,
  ltb, nat_eq, arith, Bool-cases, inl, inr, append_nil, length-append,
}
use voix.Files.{
  Expected, value, unexpected, Errno, eintr, enoent, enotdir, eacces, eperm, eloop, other_errno,
}
use voix.Files.Reading.{read_loop}

-- The bytes that the calls of `read` gave, in their order.
pub received : List (Expected Errno Text) → Text
received [] = []
received (value chunk ∷ answers) = chunk ++ received answers
received (unexpected e ∷ answers) = received answers

take_both :
    (n : ℕ) (xs ys : Text) → take n xs ++ take (n - length (take n xs)) ys ≡ take n (xs ++ ys)
take_both zero xs ys = refl
take_both (suc n) [] ys = let same : suc n - 0 ≡ suc n = omega arith in ap (λ m. take m ys) same
take_both (suc n) (x ∷ xs) ys =
    let same : suc n - length (x ∷ take n xs) ≡ n - length (take n xs) = omega arith in
    ap (λ m. x ∷ (take n xs ++ take m ys)) same ∙ ap (λ zs. x ∷ zs) (take_both n xs ys)

-- Content that is complete takes nothing more.
take_none :
    (size : ℕ) (content r more : Text)
    → content ≡ r
    → length r ≡ size
    → r ≡ content ++ take (size - length content) more
take_none size content r more is done =
    let nothing : size - length content ≡ 0 = rw is (omega (arith, done)) in
    rw nothing (sym is ∙ sym (append_nil content))

-- A chunk, cut to what is missing, and what comes behind it.
take_chunk :
    (size : ℕ) (content chunk more : Text)
    → (content ++ take (size - length content) chunk)
        ++ take (size - length (content ++ take (size - length content) chunk)) more
      ≡ content ++ take (size - length content) (chunk ++ more)
take_chunk size content chunk more =
    let n = take (size - length content) chunk in
    let left : size - length (content ++ n) ≡ (size - length content) - length n =
      omega (arith, length-append content n) in
    ap (λ m. (content ++ n) ++ take m more) left
    ∙ append_assoc content n (take ((size - length content) - length n) more)
    ∙ ap (λ xs. content ++ xs) (take_both (size - length content) chunk more)

pub read_loop-received :
    (size : ℕ) (content : Text) (answers : List (Expected Errno Text)) (r : Text)
    → read_loop size content answers ≡ value r
    → length r ≡ size
    → r ≡ content ++ take (size - length content) (received answers)
unfolding read_loop received
read_loop-received size content [] r e done = take_none size content r [] (ground arith) done
read_loop-received size content (value chunk ∷ answers) r e done =
    let n = take (size - length content) chunk in
    elim (Bool-cases (ltb (length content) size)) [
      | inr full ↦ take_none size content r (chunk ++ received answers) (ground arith) done
      | inl short ↦ elim (Bool-cases (is_empty n)) [
        | inl ended ↦ take_none size content r (chunk ++ received answers) (ground arith) done
        | inr more ↦
            read_loop-received size (content ++ n) answers r (ground arith) done
            ∙ take_chunk size content chunk (received answers)
      ]
    ]
read_loop-received size content (unexpected eintr ∷ answers) r e done =
    elim (Bool-cases (ltb (length content) size)) [
      | inr full ↦ take_none size content r (received answers) (ground arith) done
      | inl short ↦ read_loop-received size content answers r (ground arith) done
    ]
read_loop-received size content (unexpected enoent ∷ answers) r e done =
    take_none size content r (received answers) (ground arith) done
read_loop-received size content (unexpected enotdir ∷ answers) r e done =
    take_none size content r (received answers) (ground arith) done
read_loop-received size content (unexpected eacces ∷ answers) r e done =
    take_none size content r (received answers) (ground arith) done
read_loop-received size content (unexpected eperm ∷ answers) r e done =
    take_none size content r (received answers) (ground arith) done
read_loop-received size content (unexpected eloop ∷ answers) r e done =
    take_none size content r (received answers) (ground arith) done
read_loop-received size content (unexpected other_errno ∷ answers) r e done =
    take_none size content r (received answers) (ground arith) done
