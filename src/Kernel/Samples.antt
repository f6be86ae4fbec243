-- ===== src/Kernel/Samples.antt =====
-- Concrete kernels, for the drivers' tests: they show that the assumptions can hold.
use lkm_practice.Base.{
  Bool, false, ℕ, zero, suc, ◌+◌, ◌≡◌, refl, ap, ◌&&◌, List, [], ◌∷◌, arith, leb, length,
  if◌then◌else◌, window, blit, replicate, length-window, length-blit,
}
use lkm_practice.Kernel.Chrdev.{Answers}
use lkm_practice.Kernel.Defs.{ok, Uaccess, IsFilling, CopiesDisjoint}

-- The user's memory holds at each address that address.
abbrev pub user_bytes : ℕ → ℕ → List ℕ
user_bytes buf zero = []
user_bytes buf (suc n) = buf ∷ user_bytes (buf + 1) n

length-user_bytes : (n buf : ℕ) → length (user_bytes buf n) ≡ n
length-user_bytes zero buf = refl
length-user_bytes (suc n) buf = ap suc (length-user_bytes n (buf + 1))

-- An array copy that goes upwards, and does nothing out of range.
abbrev pub move : List ℕ → ℕ → ℕ → ℕ → List ℕ
move mem dst src n =
    if leb (src + n) (length mem) && leb (dst + n) (length mem)
    then blit mem dst (window src n mem)
    else mem

-- Every address of the user is mapped.
abbrev pub mapped : Uaccess
mapped = record {
  to_user = λ buf bytes. 0;
  from_user = λ buf n. (0, user_bytes buf n);
  memcpy = move;
}

-- No address of the user is: copy_from_user leaves zero bytes.
abbrev pub unmapped : Uaccess
unmapped = record {
  to_user = λ buf bytes. length bytes;
  from_user = λ buf n. (n, replicate n 0);
  memcpy = move;
}

length-move : (mem : List ℕ) (dst src n : ℕ) → length (move mem dst src n) ≡ length mem
length-move mem dst src n =
    ground (arith, length-window src n mem, length-blit mem dst (window src n mem))

pub mapped-IsFilling : IsFilling mapped
mapped-IsFilling = record { fills = λ buf n. length-user_bytes n buf; keeps = length-move }

pub mapped-CopiesDisjoint : CopiesDisjoint mapped
mapped-CopiesDisjoint mem dst src n apart h h' = ground arith

-- The device number is granted, and memory is or is not.
abbrev pub granted : Bool → Answers
granted memory = record { region = ok 0; major = 240; memory = memory; cdev_fails = λ i. false }
