-- ===== src/GlobalmemLock.antt =====
-- globalmem_lock/globalmem_lock.c, the memory character device behind a mutex: its file operations.
-- As in globalmem.c, a handler takes the device's memory and the file's position; its result has
-- also the calls on the device's mutex, in order. The semaphore of the file is compiled only when
-- init_MUTEX is not defined, which line 35 does.
pub mod Locking
pub mod Timer
pub mod Load
mod Tests
use lkm_practice.Base.{
  ℕ, ◌+◌, ◌-◌, ◌%◌, ◌^◌, List, [], ◌∷◌, ltb, leb, ◌==◌, if◌then◌else◌, zeroes, blit, window, ℤ, pos,
  negsuc, pos_part, pattern64, add64, is_negative, ltb_ℤ,
}
use lkm_practice.Kernel.{efault, einval, enxio, Ret, ok, err, Uaccess}

-- GLOBALMEM_SIZE
abbrev pub size : ℕ
size = 0x1000

-- MEM_CLEAR
abbrev pub mem_clear : ℕ
mem_clear = 0x1

pub data MutexCall : Type 0 where
  lock unlock : MutexCall

pub record Done : Type 0 where
  pub mem : List ℕ
  pub f_pos : ℕ
  pub ret : Ret
  pub sent : List ℕ
  pub log : List MutexCall

abbrev pub refuse : List ℕ → ℕ → Ret → List MutexCall → Done
refuse mem f_pos r log = record { mem = mem; f_pos = f_pos; ret = r; sent = []; log = log }

-- struct file: the address of the device, which is the one of globalmem_devp.
pub record File : Type 0 where
  pub private_data : ℕ
  pub f_pos : ℕ

pub open_file : ℕ → File → File × Ret
open_file devp filp = (record filp { private_data = devp }, ok 0)

pub release : File → Ret
release filp = ok 0

pub unlocked_ioctl : ℕ → List ℕ → ℕ → Done
unlocked_ioctl cmd mem f_pos =
    if cmd == mem_clear
    then refuse (zeroes size) f_pos (ok 0) (lock ∷ unlock ∷ [])
    else refuse mem f_pos (err einval) []

-- Both timers only feed a message (Timer).
pub read : Uaccess → (buf asked : ℕ) → List ℕ → ℕ → Done
read k buf asked mem p =
    let count = asked % 2 ^ 32 in
    let n = if ltb (size - p) count then size - p else count in
    if leb size p
    then refuse mem p (if count == 0 then ok 0 else err enxio) []
    else (if k.to_user buf (window p n mem) == 0
        then record {
          mem = mem;
          f_pos = p + n;
          ret = ok n;
          sent = window p n mem;
          log = lock ∷ unlock ∷ [];
        }
        else refuse mem p (err efault) (lock ∷ unlock ∷ []))

-- A copy_from_user that fails has written its part of the memory too.
pub write : Uaccess → (buf asked : ℕ) → List ℕ → ℕ → Done
write k buf asked mem p =
    let count = asked % 2 ^ 32 in
    let n = if ltb (size - p) count then size - p else count in
    let (missed, bytes) = k.from_user buf n in
    if leb size p
    then refuse mem p (if count == 0 then ok 0 else err enxio) []
    else (if missed == 0
        then record {
          mem = blit mem p bytes;
          f_pos = p + n;
          ret = ok n;
          sent = [];
          log = lock ∷ unlock ∷ [];
        }
        else refuse (blit mem p bytes) p (err efault) (lock ∷ unlock ∷ []))

-- The position afterwards and the result; `(unsigned int)offset` cuts it to 32 bits.
pub llseek : ℤ → ℕ → ℕ → ℕ × Ret
llseek offset orig f_pos =
    let low = pattern64 offset % 2 ^ 32 in
    let sum = add64 (pos f_pos) offset in
    if orig == 0
    then (if is_negative offset
        then (f_pos, err einval)
        else if ltb size low
        then (f_pos, err einval)
        else (low, ok low))
    else (if orig == 1
        then (if ltb_ℤ (pos size) sum
            then (f_pos, err einval)
            else if is_negative sum
            then (f_pos, err einval)
            else (pos_part sum, ok (pos_part sum)))
        else (f_pos, err einval))
