-- ===== src/Globalmem.antt =====
-- globalmem/globalmem.c, the memory character device: its file operations.
-- A handler takes the device's memory and the file's position and returns them with its result and
-- with the bytes that a successful copy_to_user delivered. The size of the memory, the constant
-- GLOBALMEM_SIZE, is a parameter, because globalmem_lock.c has the same handlers with another.
-- A position is a loff_t that is never negative, and so a number; printing is left out.
pub mod Access
pub mod Seek
pub mod Calls
pub mod Load
mod Tests
use lkm_practice.Base.{
  ℕ, ◌+◌, ◌-◌, ◌%◌, ◌^◌, Bool, true, false, List, [], ltb, leb, ◌==◌, if◌then◌else◌, zeroes, blit,
  window, ℤ, pos, negsuc, pos_part, pattern64, add64, is_negative, ltb_ℤ,
}
use lkm_practice.Kernel.{efault, einval, enxio, Ret, ok, err, Uaccess}

-- GLOBALMEM_SIZE
abbrev pub globalmem_size : ℕ
globalmem_size = 0x10000

-- MEM_CLEAR
abbrev pub mem_clear : ℕ
mem_clear = 0x1

-- The result of a handler: `sent` are the bytes handed to a copy_to_user that copied them all.
pub record Done : Type 0 where
  pub mem : List ℕ
  pub f_pos : ℕ
  pub ret : Ret
  pub sent : List ℕ

abbrev pub refuse : List ℕ → ℕ → Ret → Done
refuse mem f_pos r = record { mem = mem; f_pos = f_pos; ret = r; sent = [] }

-- struct file: the device that it is open on, by its index.
pub record File : Type 0 where
  pub private_data : ℕ
  pub f_pos : ℕ

-- `index` is the device whose cdev the inode names, which container_of recovers.
pub open_file : ℕ → File → File × Ret
open_file index filp = (record filp { private_data = index }, ok 0)

pub release : File → Ret
release filp = ok 0

module _ (size : ℕ) where
  unfoldable pub compat_ioctl : ℕ → List ℕ → ℕ → Done
  compat_ioctl cmd mem f_pos =
      if cmd == mem_clear then refuse (zeroes size) f_pos (ok 0) else refuse mem f_pos (err einval)

  -- `unsigned int count = size;` cuts the length that the caller asks for to 32 bits.
  unfoldable pub read : Uaccess → (buf asked : ℕ) → List ℕ → ℕ → Done
  read k buf asked mem p =
      let count = asked % 2 ^ 32 in
      let n = if ltb (size - p) count then size - p else count in
      if leb size p
      then refuse mem p (if count == 0 then ok 0 else err enxio)
      else (if k.to_user buf (window p n mem) == 0
          then record { mem = mem; f_pos = p + n; ret = ok n; sent = window p n mem }
          else refuse mem p (err efault))

  -- A copy_from_user that fails has written its part of the memory too.
  unfoldable pub write : Uaccess → (buf asked : ℕ) → List ℕ → ℕ → Done
  write k buf asked mem p =
      let count = asked % 2 ^ 32 in
      let n = if ltb (size - p) count then size - p else count in
      let (missed, bytes) = k.from_user buf n in
      if leb size p
      then refuse mem p (if count == 0 then ok 0 else err enxio)
      else (if missed == 0
          then record { mem = blit mem p bytes; f_pos = p + n; ret = ok n; sent = [] }
          else refuse (blit mem p bytes) p (err efault))

  -- The position afterwards and the result; `(unsigned int)offset` cuts it to 32 bits.
  unfoldable pub llseek : ℤ → ℕ → ℕ → ℕ × Ret
  llseek offset orig f_pos =
      let low = pattern64 offset % 2 ^ 32 in
      let sum = add64 (pos f_pos) offset in
      if orig == 0
      then (if is_negative offset
          then (f_pos, err einval)
          else if ltb size low
          then (f_pos, err einval)
          else (low, ok low))
      else (if orig == 1
          then (if ltb_ℤ (pos size) sum
              then (f_pos, err einval)
              else if is_negative sum
              then (f_pos, err einval)
              else (pos_part sum, ok (pos_part sum)))
          else (f_pos, err einval))
