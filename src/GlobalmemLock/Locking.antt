-- ===== src/GlobalmemLock/Locking.antt =====
-- globalmem_lock.c: its handlers hold the mutex around each access to the memory, and do to the
-- memory and the position what those of globalmem.c do.
use lkm_practice.Base.{
  ℕ, ◌≡◌, Bool, true, false, not, ◌&&◌, List, [], ◌∷◌, arith, ◌==◌, leb, ℤ, length, refl,
}
use lkm_practice.Kernel.{Uaccess}
use lkm_practice.Globalmem
use lkm_practice.GlobalmemLock.{
  Done, MutexCall, lock, unlock, size, mem_clear, unlocked_ioctl, read, write, llseek,
}

-- The calls take the mutex only when it is not held, release it only when it is, and leave it free.
abbrev pub balanced : Bool → List MutexCall → Bool
balanced held [] = not held
balanced held (lock ∷ l) = not held && balanced true l
balanced held (unlock ∷ l) = held && balanced false l

-- A result without the calls on the mutex.
abbrev pub without_log : Done → Globalmem.Done
without_log d = record { mem = d.mem; f_pos = d.f_pos; ret = d.ret; sent = d.sent }

module _ (k : Uaccess) (buf asked cmd : ℕ) (mem : List ℕ) (p : ℕ) where
  -- On every path of read, write and ioctl the mutex is taken and released alternately and is free
  -- at the end. A read or a write takes it exactly when the position lies before the end of the
  -- memory, also where the copy fails, and an ioctl exactly when it clears the memory.
  pub mutex_balanced :
      (balanced false (read k buf asked mem p).log ≡ true)
      × (balanced false (write k buf asked mem p).log ≡ true)
      × (balanced false (unlocked_ioctl cmd mem p).log ≡ true)
      × ((length (read k buf asked mem p).log == 0) ≡ leb size p)
      × ((length (write k buf asked mem p).log == 0) ≡ leb size p)
      × ((length (unlocked_ioctl cmd mem p).log == 0) ≡ not (cmd == mem_clear))
  unfolding read write unlocked_ioctl
  mutex_balanced =
      (ground arith, ground arith, ground arith, ground arith, ground arith, ground arith)

  -- Without the mutex, read, write, ioctl and llseek are those of globalmem.c on a memory of 4096
  -- bytes: the same result, memory, position and delivered bytes for all arguments.
  pub same_as_globalmem :
      (offset : ℤ) (orig : ℕ)
      → (without_log (read k buf asked mem p) ≡ Globalmem.read size k buf asked mem p)
        × (without_log (write k buf asked mem p) ≡ Globalmem.write size k buf asked mem p)
        × (without_log (unlocked_ioctl cmd mem p) ≡ Globalmem.compat_ioctl size cmd mem p)
        × (llseek offset orig p ≡ Globalmem.llseek size offset orig p)
  unfolding read write unlocked_ioctl llseek Globalmem.read Globalmem.write Globalmem.compat_ioctl
      Globalmem.llseek
  same_as_globalmem offset orig = (ground arith, ground arith, ground arith, refl)
