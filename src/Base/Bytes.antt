-- ===== src/Base/Bytes.antt =====
-- Ranges of bytes in a buffer: what memcpy and memset write.
use Prim.Native.Nat.{ℕ, zero, suc, ◌+◌, ◌≤◌}
use mathlib.Core.Path.{◌≡◌, refl, ap, ap₂, sym, ◌∙◌}
use mathlib.Core.List.{List, [], ◌∷◌, ◌++◌, append_assoc, append-nil}
use native.Mathlib.Nat.{zero-add, suc-add, add-zero}
use native.Mathlib.Omega.{arith}
use lkm_practice.Base.Lists.{
  length, replicate, length-replicate, take, drop, length-append, length-take, length-drop,
  take-append_length, drop-append_length, take-append-drop, drop-add, drop_all, take-add,
}

-- memset(mem, 0, n) on an array of n bytes
unfoldable pub zeroes : ℕ → List ℕ
zeroes n = replicate n 0

pub length-zeroes : (n : ℕ) → length (zeroes n) ≡ n
unfolding zeroes
length-zeroes n = length-replicate n 0

module _ {ℓ} {A : Type ℓ} where
  -- The `n` bytes from `off` on.
  abbrev pub window : ℕ → ℕ → List A → List A
  window off n mem = take n (drop off mem)

  -- memcpy(mem + off, bs, length of bs)
  unfoldable pub blit : List A → ℕ → List A → List A
  blit mem off bs = take off mem ++ (bs ++ drop (off + length bs) mem)

  pub length-window :
      (off n : ℕ) (mem : List A) → off + n ≤ length mem → length (window off n mem) ≡ n
  length-window off n mem h = omega (arith, length-take n (drop off mem), length-drop off mem)

  -- A write within the buffer keeps its length.
  pub length-blit :
      (mem : List A) (off : ℕ) (bs : List A)
      → off + length bs ≤ length mem
      → length (blit mem off bs) ≡ length mem
  unfolding blit
  length-blit mem off bs h = omega (
    arith,
    length-append (take off mem) (bs ++ drop (off + length bs) mem),
    length-append bs (drop (off + length bs) mem),
    length-take off mem,
    length-drop (off + length bs) mem,
  )

  -- What is read up to the end of a write.
  pub take-blit_end :
      (mem : List A) (off : ℕ) (bs : List A)
      → off ≤ length mem
      → take (off + length bs) (blit mem off bs) ≡ take off mem ++ bs
  unfolding blit
  take-blit_end mem zero bs h = rw zero-add (take-append_length bs _)
  take-blit_end [] (suc off) bs h = absurd (omega arith)
  take-blit_end (x ∷ mem) (suc off) bs h =
      rw suc-add (ap (λ t. x ∷ t) (take-blit_end mem off bs (omega arith)))

  -- What is read before a write.
  pub take-blit_before :
      (mem : List A) (off : ℕ) (bs : List A)
      → off ≤ length mem
      → take off (blit mem off bs) ≡ take off mem
  unfolding blit
  take-blit_before mem zero bs h = refl
  take-blit_before [] (suc off) bs h = absurd (omega arith)
  take-blit_before (x ∷ mem) (suc off) bs h =
      rw suc-add (ap (λ t. x ∷ t) (take-blit_before mem off bs (omega arith)))

  -- What is read after a write.
  pub drop-blit_after :
      (mem : List A) (off : ℕ) (bs : List A)
      → off ≤ length mem
      → drop (off + length bs) (blit mem off bs) ≡ drop (off + length bs) mem
  unfolding blit
  drop-blit_after mem zero bs h = rw zero-add (drop-append_length bs _)
  drop-blit_after [] (suc off) bs h = absurd (omega arith)
  drop-blit_after (x ∷ mem) (suc off) bs h = rw suc-add (drop-blit_after mem off bs (omega arith))

  -- What was written is read back.
  pub window-blit :
      (mem : List A) (off : ℕ) (bs : List A)
      → off ≤ length mem
      → window off (length bs) (blit mem off bs) ≡ bs
  unfolding blit
  window-blit mem zero bs h = take-append_length bs _
  window-blit [] (suc off) bs h = absurd (omega arith)
  window-blit (x ∷ mem) (suc off) bs h = rw suc-add (window-blit mem off bs (omega arith))

  pub blit-nil : (mem : List A) (off : ℕ) → blit mem off [] ≡ mem
  unfolding blit
  blit-nil mem off = rw add-zero (take-append-drop off mem)

  blit_lem :
      (mem : List A) (off : ℕ) (bs : List A)
      → blit mem off bs ≡ take off mem ++ (bs ++ drop (off + length bs) mem)
  unfolding blit
  blit_lem mem off bs = refl

  -- Two writes side by side are one.
  pub blit-blit :
      (mem : List A) (off : ℕ) (xs ys : List A)
      → off + length xs ≤ length mem
      → blit (blit mem off xs) (off + length xs) ys ≡ blit mem off (xs ++ ys)
  blit-blit mem off xs ys h =
      let front : take (off + length xs) (blit mem off xs) ≡ take off mem ++ xs =
        take-blit_end mem off xs (omega arith) in
      let back : drop (off + length xs + length ys) (blit mem off xs)
          ≡ drop (off + length (xs ++ ys)) mem =
        drop-add (off + length xs) (length ys) (blit mem off xs)
        ∙ ap (drop (length ys)) (drop-blit_after mem off xs (omega arith))
        ∙ sym (drop-add (off + length xs) (length ys) mem)
        ∙ ap (λ n. drop n mem) (omega (arith, length-append xs ys)) in
      blit_lem (blit mem off xs) (off + length xs) ys
      ∙ ap₂ (λ t d. t ++ (ys ++ d)) front back
      ∙ append_assoc (take off mem) xs (ys ++ drop (off + length (xs ++ ys)) mem)
      ∙ ap (λ t. take off mem ++ t) (sym (append_assoc xs ys _))
      ∙ sym (blit_lem mem off (xs ++ ys))

  -- Two pieces that follow one another are one.
  pub blit-pieces :
      (mem bs : List A) (off j c : ℕ)
      → j + c ≤ length bs
      → off + length bs ≤ length mem
      → blit (blit mem off (take j bs)) (off + j) (window j c bs) ≡ blit mem off (take (j + c) bs)
  blit-pieces mem bs off j c h room =
      let part : length (take j bs) ≡ j = omega (arith, length-take j bs) in
      ap (λ n. blit (blit mem off (take j bs)) (off + n) (window j c bs)) (sym part)
      ∙ blit-blit mem off (take j bs) (window j c bs) (omega arith)
      ∙ ap (blit mem off) (sym (take-add j c bs))

  -- Bytes that cover the whole array.
  pub blit_whole : (mem bs : List A) → length mem ≤ length bs → blit mem 0 bs ≡ bs
  unfolding blit
  blit_whole mem bs h =
      ap (λ t. bs ++ t) (drop_all (0 + length bs) mem (omega arith)) ∙ append-nil bs
