-- ===== src/AddSub/Inverse.antt =====
-- add_sub.c: subtraction undoes addition.
use lkm_practice.Base.{
  ℕ, ◌+◌, ◌%◌, ◌^◌, ◌<◌, ◌≡◌, ℤ, pos, negsuc, pos_part, neg_part, sub_ℕ, pattern64, signed64, add64,
  ap, ◌∙◌, ◌+ℤ◌, IsLoff, arith,
}
use lkm_practice.AddSub.{add_integer, sub_integer}

-- The pattern of a difference, as a word.
pattern64-sub_ℕ :
    (x y : ℕ)
    → ((pattern64 (sub_ℕ x y) + y) % 2 ^ 64 ≡ x % 2 ^ 64) × (pattern64 (sub_ℕ x y) < 2 ^ 64)
pattern64-sub_ℕ x y = ground arith

pattern64_parts :
    (a : ℤ) → ((pattern64 a + neg_part a) % 2 ^ 64 ≡ pos_part a % 2 ^ 64) × (pattern64 a < 2 ^ 64)
pattern64_parts (pos n) = (omega arith, omega arith)
pattern64_parts (negsuc n) = (omega arith, omega arith)

signed64_parts :
    (w : ℕ) → w < 2 ^ 64 → (w + neg_part (signed64 w)) % 2 ^ 64 ≡ pos_part (signed64 w) % 2 ^ 64
signed64_parts w h = ground arith

signed64-pattern64 : (a : ℤ) → IsLoff a → signed64 (pattern64 a) ≡ a
signed64-pattern64 (pos n) h = ground (arith, h)
signed64-pattern64 (negsuc n) h = ground (arith, h)

-- For words P, Q and A: if P is a + b, and Q is P, as an integer r, less b, and A is a, then Q is A.
-- An integer stands by its two parts.
same_word :
    (P Q A pr nr pa na pb nb : ℕ)
    → P < 2 ^ 64
    → Q < 2 ^ 64
    → A < 2 ^ 64
    → (P + (na + nb)) % 2 ^ 64 ≡ (pa + pb) % 2 ^ 64
    → (P + nr) % 2 ^ 64 ≡ pr % 2 ^ 64
    → (Q + (nr + pb)) % 2 ^ 64 ≡ (pr + nb) % 2 ^ 64
    → (A + na) % 2 ^ 64 ≡ pa % 2 ^ 64
    → Q ≡ A
same_word P Q A pr nr pa na pb nb hP hQ hA sum result difference whole = omega arith

-- Wrapping addition of `a` and an integer of parts `pb` and `nb`, and then of its opposite.
there_and_back :
    (a : ℤ) (pb nb : ℕ)
    → IsLoff a
    → let r = signed64 (pattern64 (sub_ℕ (pos_part a + pb) (neg_part a + nb))) in
      signed64 (pattern64 (sub_ℕ (pos_part r + nb) (neg_part r + pb))) ≡ a
there_and_back a pb nb ha =
    let P = pattern64 (sub_ℕ (pos_part a + pb) (neg_part a + nb)) in
    let r = signed64 P in
    let Q = pattern64 (sub_ℕ (pos_part r + nb) (neg_part r + pb)) in
    let (sum, hP) = pattern64-sub_ℕ (pos_part a + pb) (neg_part a + nb) in
    let (difference, hQ) = pattern64-sub_ℕ (pos_part r + nb) (neg_part r + pb) in
    let (whole, hA) = pattern64_parts a in
    ap signed64 (
      same_word P Q (pattern64 a) (pos_part r) (neg_part r) (pos_part a) (neg_part a) pb nb hP hQ hA
        sum (signed64_parts P hP) difference whole)
    ∙ signed64-pattern64 a ha

-- Each of the exported functions undoes the other on a long `a`, for any `b`, also where the sum or the difference wraps.
pub sub_integer-add_integer :
    (a b : ℤ)
    → IsLoff a
    → (sub_integer (add_integer a b) b ≡ a) × (add_integer (sub_integer a b) b ≡ a)
unfolding add_integer sub_integer add64 ◌+ℤ◌
sub_integer-add_integer a b ha =
    (there_and_back a (pos_part b) (neg_part b) ha, there_and_back a (neg_part b) (pos_part b) ha)
