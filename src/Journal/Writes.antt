-- ===== src/Journal/Writes.antt =====
-- The file that a list of writes leaves: kernel/journal.c hands each write with its offset to the file
-- system.
use axiome_os.Prelude.{
  ℕ, zero, suc, ◌+◌, ◌-◌, ◌%◌, ◌^◌, ◌≤◌, ◌<◌, ◌≡◌, refl, sym, ap, ◌∙◌, List, [], ◌∷◌, ◌++◌, length,
  length-append, take_all, take, drop, replicate, arith,
}
use mathlib.Core.List.{append-nil}
use axiome_os.Journal.{Journal, write_call}

-- A write at an offset into a file: zeros up to the offset if the file is shorter, and the old bytes
-- behind the new ones if it is longer.
pub write_at : List ℕ → ℕ → List ℕ → List ℕ
write_at file off bytes =
    take off (file ++ replicate (off - length file) 0) ++ (bytes ++ drop (off + length bytes) file)

-- The file that writes at their offsets make of a file, in their order.
unfoldable pub applied : List ℕ → List (ℕ × List ℕ) → List ℕ
applied file [] = file
applied file ((off, bytes) ∷ calls) = applied (write_at file off bytes) calls

-- A file system that takes all the bytes of a write.
unfoldable pub all_taken : ℕ → List ℕ → ℕ
all_taken off bytes = length bytes

pub drop-all : (n : ℕ) (xs : List ℕ) → length xs ≤ n → drop n xs ≡ []
drop-all zero [] h = refl
drop-all zero (x ∷ xs) h = absurd (omega arith)
drop-all (suc n) [] h = refl
drop-all (suc n) (x ∷ xs) h = drop-all n xs (omega arith)

write_at-end : (file bytes : List ℕ) → write_at file (length file) bytes ≡ file ++ bytes
unfolding write_at
write_at-end file bytes =
    let none_missing : length file - length file ≡ 0 = omega arith in
    let whole : take (length file) (file ++ replicate (length file - length file) 0) ≡ file =
      ap (λ n. take (length file) (file ++ replicate n 0)) none_missing
      ∙ ap (take (length file)) (append-nil file)
      ∙ take_all (length file) file (omega arith) in
    ap (λ l. l ++ (bytes ++ drop (length file + length bytes) file)) whole
    ∙ ap (λ l. file ++ (bytes ++ l)) (drop-all (length file + length bytes) file (omega arith))
    ∙ ap (λ l. file ++ l) (append-nil bytes)

applied-snoc :
    (file : List ℕ) (calls : List (ℕ × List ℕ)) (off : ℕ) (bytes : List ℕ)
    → applied file (calls ++ (off, bytes) ∷ []) ≡ write_at (applied file calls) off bytes
unfolding applied
applied-snoc file [] off bytes = refl
applied-snoc file ((o, b) ∷ calls) off bytes = applied-snoc (write_at file o b) calls off bytes

-- The journal's offset is the end of the file that its writes make of `file`.
unfoldable pub IsAtEnd : List ℕ → Journal → Type 0
IsAtEnd file j = j.off ≡ length (applied file j.calls)

-- A write at the end appends to the file, and the offset is its end again.
pub applied-write_call :
    (file : List ℕ) (j : Journal) (bytes : List ℕ)
    → IsAtEnd file j
    → length (applied file j.calls) + length bytes < 2 ^ 64
    → (applied file (write_call all_taken j bytes).calls ≡ applied file j.calls ++ bytes)
      × IsAtEnd file (write_call all_taken j bytes)
unfolding IsAtEnd write_call all_taken
applied-write_call file j bytes at room =
    let e : applied file (j.calls ++ (j.off, bytes) ∷ []) ≡ applied file j.calls ++ bytes =
      applied-snoc file j.calls j.off bytes
      ∙ ap (λ o. write_at (applied file j.calls) o bytes) at
      ∙ write_at-end (applied file j.calls) bytes in
    let n = length-append (applied file j.calls) bytes in
    let sum : (j.off + length bytes) % 2 ^ 64 ≡ length (applied file j.calls ++ bytes) =
      omega (arith, at, n) in
    (e, sum ∙ sym (ap length e))
