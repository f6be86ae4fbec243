-- ===== src/Programs/Echo.antt =====
-- globalmem/test.c: a program that writes what is typed to the device, and reads it back.
use lkm_practice.Base.{
  ℕ, zero, suc, ◌+◌, ◌-◌, ◌^◌, ◌≤◌, ◌<◌, ◌≡◌, refl, ap, ◌∙◌, true, Option, none, some, List, [],
  ◌∷◌, ◌++◌, arith, leb, if◌then◌else◌, length, take, drop, take_all, append_assoc, blit, window,
  zeroes,
}
use lkm_practice.Kernel.{Ret, ok}
use lkm_practice.Programs.Driver.{Opened, MemDriver}
use lkm_practice.Programs.Text.{until_zero, IsText, until_zero-append}

-- What main has printed in the end: the string that was typed, the result of write, and the string
-- that was read.
pub data Outcome : Type 0 where
  shows : (str : List ℕ) (ret : Ret) (str2 : List ℕ) → Outcome
  no_device : Outcome
  overrun : Outcome

-- main, by the file that open gives, if any, the string that is typed, and what lies in str2 before.
pub main : MemDriver → Option Opened → (str str2 : List ℕ) → Outcome
main d none str str2 = no_device
main d (some file) str str2 =
    let (file1, r1) = d.clear file in
    let (file2, ret) = d.write str file1 in
    let (file3, r3) = d.rewind file2 in
    let (file4, r4, bytes) = d.read 100 file3 in
    if leb 1024 (length str)
    then overrun
    else elim (until_zero (blit str2 0 bytes)) [ none ↦ overrun | some s ↦ shows str ret s ]

drop-zeroes : (k m : ℕ) → drop k (zeroes m) ≡ zeroes (m - k)
unfolding zeroes
drop-zeroes zero m = ap zeroes (omega arith)
drop-zeroes (suc k) zero = ap zeroes {x = 0} (omega arith)
drop-zeroes (suc k) (suc m) = drop-zeroes k m ∙ ap zeroes (omega arith)

take-append_right : (n : ℕ) (xs ys : List ℕ) → take (length xs + n) (xs ++ ys) ≡ xs ++ take n ys
take-append_right n [] ys = ap (λ m. take m ys) (omega arith)
take-append_right n (x ∷ xs) ys =
    let next : suc (length xs) + n ≡ suc (length xs + n) = omega arith in
    rw next (ap (λ r. x ∷ r) (take-append_right n xs ys))

take-zeroes : (n m : ℕ) → 0 < n → 0 < m → (rest : List ℕ) × (take n (zeroes m) ≡ 0 ∷ rest)
unfolding zeroes
take-zeroes zero m hn hm = absurd (omega arith)
take-zeroes (suc n) zero hn hm = absurd (omega arith)
take-zeroes (suc n) (suc m) hn hm = (take n (zeroes m), refl)

blit_start : (buf bytes : List ℕ) → blit buf 0 bytes ≡ bytes ++ drop (0 + length bytes) buf
unfolding blit
blit_start buf bytes = refl

-- A text that is stored at the start of a cleared memory, with what follows it.
read_back :
    (size : ℕ) (str : List ℕ)
    → length str < 100
    → 100 ≤ size
    → (rest : List ℕ) × (window 0 100 (blit (zeroes size) 0 str) ≡ str ++ 0 ∷ rest)
read_back size str short large =
    let k = length str in
    let sum : 100 ≡ k + (100 - k) = omega arith in
    let from_start : 0 + k ≡ k = omega arith in
    let (rest, first) = take-zeroes (100 - k) (size - k) (omega arith) (omega arith) in
    (
      rest,
      ap (take 100) (blit_start (zeroes size) str)
          ∙ ap (λ n. take 100 (str ++ drop n (zeroes size))) from_start
          ∙ ap (λ z. take 100 (str ++ z)) (drop-zeroes k size)
          ∙ ap (λ n. take n (str ++ zeroes (size - k))) sum
          ∙ take-append_right (100 - k) str (zeroes (size - k))
          ∙ ap (λ r. str ++ r) first,
    )

-- A text with its end that is stored at the start of a buffer is the string of the buffer.
stored_text :
    (buf str rest : List ℕ) → IsText str → until_zero (blit buf 0 (str ++ 0 ∷ rest)) ≡ some str
stored_text buf str rest text =
    let back = drop (0 + length (str ++ 0 ∷ rest)) buf in
    ap until_zero (blit_start buf (str ++ 0 ∷ rest) ∙ append_assoc str (0 ∷ rest) back)
    ∙ until_zero-append (rest ++ back) text

module _ (d : MemDriver) (clears : d.clears ≡ true) (large : 100 ≤ d.size)
    (small : d.size < 2 ^ 32) where
  -- A text of less than 100 bytes is shown as it was typed, if the device has at least 100 bytes
  -- and less than 2 ^ 32, is opened at position 0 and is cleared by the ioctl, whatever the device
  -- and the buffer held before.
  pub main-shows :
      (file : Opened) (str str2 : List ℕ)
      → file.pos ≡ 0
      → length str < 100
      → IsText str
      → main d (some file) str str2 ≡ shows str (ok (length str)) str
  unfolding main
  main-shows file str str2 fresh short text =
      let (rest, back) = read_back d.size str short large in
      let cleared : d.clear file ≡ (record { mem = zeroes d.size; pos = 0 }, ok 0) =
        ground (arith, d.clear_lem file) in
      let stored : d.write str (record { mem = zeroes d.size; pos = 0 })
          ≡ (record { mem = blit (zeroes d.size) 0 str; pos = length str }, ok (length str)) =
        ground (
          arith,
          d.write_lem str (record { mem = zeroes d.size; pos = 0 }),
          take_all (length str) str,
        ) in
      let file2 : Opened = record { mem = blit (zeroes d.size) 0 str; pos = length str } in
      let file3 : Opened = record { mem = blit (zeroes d.size) 0 str; pos = 0 } in
      let got : d.read 100 file3 ≡ (record file3 { pos = 100 }, ok 100, window 0 100 file3.mem) =
        ground (arith, d.read_lem 100 file3) in
      rw (main, cleared, stored, d.rewind_lem file2, got, back)
        (ground (arith, stored_text str2 str rest text))
