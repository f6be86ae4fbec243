-- ===== src/Programs/Drivers.antt =====
-- globalmem.c and globalmem_lock.c, as the programs call them.
use lkm_practice.Base.{
  ℕ, ◌^◌, ◌<◌, ◌≡◌, refl, ap, ◌∙◌, Bool, true, false, List, [], arith, if◌then◌else◌, take, length,
  pos, zeroes,
}
use lkm_practice.Kernel.{Ret, ok, err, enotty, Uaccess}
use lkm_practice.Globalmem
use lkm_practice.Globalmem.{globalmem_size, mem_clear}
use lkm_practice.GlobalmemLock
use lkm_practice.GlobalmemLock.Locking.{without_log, same_as_globalmem}
use lkm_practice.Programs.Driver.{Opened, MemDriver, written, fetched}

-- A program whose buffers are mapped, and which hands `bytes` to write.
abbrev pub program : List ℕ → Uaccess
program bytes = record {
  to_user = λ buf sent. 0;
  from_user = λ buf n. (0, take n bytes);
  memcpy = λ mem dst src n. mem;
}

abbrev file_of : Globalmem.Done → Opened
file_of d = record { mem = d.mem; pos = d.f_pos }

module _ (size : ℕ) where
  pub write_by : List ℕ → Opened → Opened × Ret
  write_by bytes s =
      let d = Globalmem.write size (program bytes) 0 (length bytes) s.mem s.pos in
      (file_of d, d.ret)

  pub read_by : ℕ → Opened → Opened × Ret × List ℕ
  read_by n s =
      let d = Globalmem.read size (program []) 0 n s.mem s.pos in (file_of d, d.ret, d.sent)

  pub rewind_by : Opened → Opened × Ret
  rewind_by s = let (p, r) = Globalmem.llseek size (pos 0) 0 s.pos in (record s { pos = p }, r)

  pub write_by_lem :
      (bytes : List ℕ) (s : Opened)
      → length bytes < 2 ^ 32
      → write_by bytes s ≡ written size bytes s
  unfolding write_by Globalmem.write
  write_by_lem bytes s small = ground arith

  pub read_by_lem : (n : ℕ) (s : Opened) → n < 2 ^ 32 → read_by n s ≡ fetched size n s
  unfolding read_by Globalmem.read
  read_by_lem n s small = ground arith

  pub rewind_by_lem : (s : Opened) → rewind_by s ≡ (record s { pos = 0 }, ok 0)
  unfolding rewind_by Globalmem.llseek
  rewind_by_lem s = ground arith

  pub clear_by : Opened → Opened × Ret
  clear_by s = let d = Globalmem.compat_ioctl size mem_clear s.mem s.pos in (file_of d, d.ret)

  pub clear_by_lem : (s : Opened) → clear_by s ≡ (record s { mem = zeroes size }, ok 0)
  unfolding clear_by Globalmem.compat_ioctl
  clear_by_lem s = refl

pub globalmem_clears :
    (compat : Bool) (s : Opened)
    → (if compat then clear_by globalmem_size s else (s, err enotty))
      ≡ (if compat then (record s { mem = zeroes globalmem_size }, ok 0) else (s, err enotty))
globalmem_clears true s = clear_by_lem globalmem_size s
globalmem_clears false s = refl

-- globalmem.c has only compat_ioctl, which a 32-bit program reaches and a 64-bit program does not.
abbrev pub globalmem_driver : Bool → MemDriver
globalmem_driver compat = record {
  size = globalmem_size;
  clears = compat;
  write = write_by globalmem_size;
  read = read_by globalmem_size;
  rewind = rewind_by globalmem_size;
  clear = λ s. if compat then clear_by globalmem_size s else (s, err enotty);
  write_lem = write_by_lem globalmem_size;
  read_lem = read_by_lem globalmem_size;
  rewind_lem = rewind_by_lem globalmem_size;
  clear_lem = globalmem_clears compat;
}

pub lock_write : List ℕ → Opened → Opened × Ret
lock_write bytes s =
    let d = GlobalmemLock.write (program bytes) 0 (length bytes) s.mem s.pos in
    (file_of (without_log d), d.ret)

pub lock_read : ℕ → Opened → Opened × Ret × List ℕ
lock_read n s =
    let d = GlobalmemLock.read (program []) 0 n s.mem s.pos in
    (file_of (without_log d), d.ret, d.sent)

pub lock_rewind : Opened → Opened × Ret
lock_rewind s = let (p, r) = GlobalmemLock.llseek (pos 0) 0 s.pos in (record s { pos = p }, r)

pub lock_clear : Opened → Opened × Ret
lock_clear s =
    let d = GlobalmemLock.unlocked_ioctl GlobalmemLock.mem_clear s.mem s.pos in
    (file_of (without_log d), d.ret)

module _ (bytes : List ℕ) (n : ℕ) (s : Opened) where
  -- The handlers with the mutex are those without.
  pub lock_handlers :
      (lock_write bytes s ≡ write_by GlobalmemLock.size bytes s)
      × (lock_read n s ≡ read_by GlobalmemLock.size n s)
      × (lock_rewind s ≡ rewind_by GlobalmemLock.size s)
      × (lock_clear s ≡ clear_by GlobalmemLock.size s)
  unfolding lock_write lock_read lock_rewind lock_clear write_by read_by rewind_by clear_by
  lock_handlers =
      let w = same_as_globalmem (program bytes) 0 (length bytes) 0 s.mem s.pos (pos 0) 0 in
      let r = same_as_globalmem (program []) 0 n mem_clear s.mem s.pos (pos 0) 0 in
      (
        ap (λ d. (file_of d, d.ret)) w.1,
        ap (λ d. (file_of d, d.ret, d.sent)) r.0,
        ap (λ (x : ℕ × Ret). (record s { pos = x.0 }, x.1)) r.3,
        ap (λ d. (file_of d, d.ret)) r.2,
      )

abbrev pub lock_driver : MemDriver
lock_driver = record {
  size = GlobalmemLock.size;
  clears = true;
  write = lock_write;
  read = lock_read;
  rewind = lock_rewind;
  clear = lock_clear;
  write_lem =
      λ bytes s small. (lock_handlers bytes 0 s).0 ∙ write_by_lem GlobalmemLock.size bytes s small;
  read_lem = λ n s small. (lock_handlers [] n s).1 ∙ read_by_lem GlobalmemLock.size n s small;
  rewind_lem = λ s. (lock_handlers [] 0 s).2 ∙ rewind_by_lem GlobalmemLock.size s;
  clear_lem = λ s. (lock_handlers [] 0 s).3 ∙ clear_by_lem GlobalmemLock.size s;
}
