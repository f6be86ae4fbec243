-- ===== src/AddSub.antt =====
-- add_sub.c, which exports two functions on integers, and test.c, which has the same functions and
-- calls one of them while it is loaded.
pub mod Inverse
mod Tests
use lkm_practice.Base.{
  ℕ, ◌+◌, ◌≡◌, Bool, ℤ, pos, pos_part, neg_part, sub_ℕ, pattern64, signed64, add64, leb, ◌&&◌, ◌==◌,
  if◌then◌else◌,
}
use lkm_practice.Kernel.{Ret, ok}

-- add_integer, on longs: a sum that does not fit wraps.
pub add_integer : ℤ → ℤ → ℤ
add_integer a b = add64 a b

-- sub_integer
pub sub_integer : ℤ → ℤ → ℤ
sub_integer a b = signed64 (pattern64 (sub_ℕ (pos_part a + neg_part b) (neg_part a + pos_part b)))

-- What test_init prints last, and returns.
pub data Word : Type 0 where
  add sub : Word

pub record Printed : Type 0 where
  pub word : Word
  pub result : ℤ
  pub ret : Ret

-- Whether an int is 1.
abbrev pub is_one : ℤ → Bool
is_one a = (pos_part a == 1) && (neg_part a == 0)

-- test_init, for the module parameters a, b and AddOrSub.
pub test_init : ℤ → ℤ → ℤ → Printed
test_init a b add_or_sub = record {
  word = if is_one add_or_sub then add else sub;
  result = if is_one add_or_sub then add_integer a b else sub_integer a b;
  ret = ok 0;
}
