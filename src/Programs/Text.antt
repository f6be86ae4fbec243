-- ===== src/Programs/Text.antt =====
-- Strings in a buffer, as the programs print them.
use lkm_practice.Base.{
  ℕ, zero, suc, ◌+◌, ◌-◌, ◌≤◌, ◌<◌, ◌≡◌, refl, sym, ap, ◌∙◌, false, Option, none, some, List, [],
  ◌∷◌, ◌++◌, arith, ◌==◌, if◌then◌else◌, length, drop, blit, Bool-cases, inl, inr, Option-cases,
  drop-add, drop-blit_after,
}

-- What printf("%s") prints of a buffer: up to the first zero, `none` where there is none.
pub until_zero : List ℕ → Option (List ℕ)
until_zero [] = none
until_zero (x ∷ xs) = elim (until_zero xs) [
  | none ↦ if x == 0 then some [] else none
  | some s ↦ if x == 0 then some [] else some (x ∷ s)
]

-- A string as scanf("%s") stores it, less its end.
pub data IsText : List ℕ → Type 0 where
  empty : IsText []
  longer : {x : ℕ} {xs : List ℕ} → 0 < x → IsText xs → IsText (x ∷ xs)

pub until_zero-append :
    {s : List ℕ} (rest : List ℕ) → IsText s → until_zero (s ++ 0 ∷ rest) ≡ some s
unfolding until_zero
until_zero-append rest empty = elim (Option-cases (until_zero rest)) [
  | inl e ↦ rw e refl
  | inr (t, e) ↦ rw e refl
]
until_zero-append rest (longer {x} {xs} positive text) =
    let nonzero : (x == 0) ≡ false = ground arith in rw (until_zero-append rest text, nonzero) refl

-- A buffer with a zero behind its first `n` bytes has a string.
pub until_zero-drop :
    (n : ℕ) (buf s : List ℕ)
    → until_zero (drop n buf) ≡ some s
    → (t : List ℕ) × (until_zero buf ≡ some t)
unfolding until_zero
until_zero-drop zero buf s h = (s, h)
until_zero-drop (suc n) [] s h = absurd (ground (arith, h))
until_zero-drop (suc n) (x ∷ buf) s h =
    let (t, found) = until_zero-drop n buf s h in
    elim (Bool-cases (x == 0)) [
      | inl end ↦ ([], rw (until_zero, found, end) refl)
      | inr more ↦ (x ∷ t, rw (until_zero, found, more) refl)
    ]

-- Bytes that are stored at the start of a buffer leave what is behind them.
pub drop-blit_start :
    (n : ℕ) (buf bytes : List ℕ) → length bytes ≤ n → drop n (blit buf 0 bytes) ≡ drop n buf
drop-blit_start n buf bytes h =
    let sum : n ≡ 0 + length bytes + (n - length bytes) = omega arith in
    ap (λ m. drop m (blit buf 0 bytes)) sum
    ∙ drop-add (0 + length bytes) (n - length bytes) (blit buf 0 bytes)
    ∙ ap (drop (n - length bytes)) (drop-blit_after buf 0 bytes (omega arith))
    ∙ sym (drop-add (0 + length bytes) (n - length bytes) buf)
    ∙ ap (λ m. drop m buf) (sym sum)
