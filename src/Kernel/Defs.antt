-- ===== src/Kernel/Defs.antt =====
-- Error numbers, results, the functions that move bytes, and the comparison of strings.
use lkm_practice.Base.{
  Bool, true, false, ◌&&◌, ◌==◌, [], ◌∷◌, ℕ, ◌+◌, ◌≤◌, ◌≡◌, ◌⊎◌, List, length, window, blit,
}

-- `errno` is any other number that a kernel function hands back.
pub data Errno : Type 0 where
  eagain erestartsys efault einval enxio enomem ebusy enotty enotempty enotdir : Errno
  errno : ℕ → Errno

-- An int, long, ssize_t or loff_t result: a value from 0 on, or minus an error number.
pub data Ret : Type 0 where
  ok : ℕ → Ret
  err : Errno → Ret

-- The functions that move bytes. An address in user space is a number.
-- * `to_user buf bytes`: copy_to_user(buf, bytes, their count), the number of bytes not copied;
-- * `from_user buf n`: copy_from_user(to, buf, n), the number of bytes not copied, and the bytes
--   that the destination holds afterwards;
-- * `memcpy mem dst src n`: the array mem after memcpy(mem + dst, mem + src, n).
pub record Uaccess : Type 0 where
  pub to_user : ℕ → List ℕ → ℕ
  pub from_user : ℕ → ℕ → ℕ × List ℕ
  pub memcpy : List ℕ → ℕ → ℕ → ℕ → List ℕ

-- copy_from_user pads what it could not copy with zero bytes, so n bytes arrive in any case; an
-- array keeps its size.
pub record IsFilling (k : Uaccess) : Type 0 where
  pub fills : (buf n : ℕ) → length (k.from_user buf n).1 ≡ n
  pub keeps : (mem : List ℕ) (dst src n : ℕ) → length (k.memcpy mem dst src n) ≡ length mem

-- memcpy, as the C standard and the kernel document it: defined for ranges that do not overlap.
abbrev pub CopiesDisjoint : Uaccess → Type 0
CopiesDisjoint k =
    (mem : List ℕ) (dst src n : ℕ)
    → (dst + n ≤ src) ⊎ (src + n ≤ dst)
    → src + n ≤ length mem
    → dst + n ≤ length mem
    → k.memcpy mem dst src n ≡ blit mem dst (window src n mem)

-- strcmp(a, b) == 0
abbrev pub strcmp_eq : List ℕ → List ℕ → Bool
strcmp_eq [] [] = true
strcmp_eq [] (b ∷ bs) = false
strcmp_eq (a ∷ rest) [] = false
strcmp_eq (a ∷ rest) (b ∷ bs) = (a == b) && strcmp_eq rest bs
