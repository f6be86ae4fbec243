-- ===== src/Globalfifo/Files.antt =====
-- globalfifo.c: open, fasync and release, which tie an open file to the device.
use lkm_practice.Base.{ℕ, ◌≡◌, Bool, false, ◌||◌, List, [], ◌∷◌, arith, ◌==◌, ℤ, negsuc}
use lkm_practice.Kernel.{Uaccess, Ret, ok}
use lkm_practice.Globalfifo.{
  Fifo, KernelCall, sigio, enqueued, down, w_wait, Schedule, write, write_copy, write_enter,
  write_wake,
}

-- struct file: who it is in the list of files that want SIGIO, and its private data; 0 is NULL.
pub record File : Type 0 where
  pub id : ℕ
  pub private_data : ℕ

-- `devp` is the address that globalfifo_devp holds.
pub open_file : ℕ → File → File × Ret
open_file devp filp = (record filp { private_data = devp }, ok 0)

-- fasync_helper(fd, filp, mode, &queue): its result and the new queue.
abbrev pub FasyncHelper : Type 0
FasyncHelper = ℤ → ℕ → ℕ → List ℕ → Ret × List ℕ

unfoldable pub fasync : FasyncHelper → ℤ → File → ℕ → Fifo → Ret × Fifo
fasync helper fd filp mode dev =
    let (ret, queue) = helper fd filp.id mode dev.async_queue in
    (ret, record dev { async_queue = queue })

pub release : FasyncHelper → File → Fifo → Ret × Fifo
unfolding fasync
release helper filp dev = let (ret, dev') = fasync helper (negsuc 0) filp 0 dev in (ok 0, dev')

abbrev pub contains : ℕ → List ℕ → Bool
contains x [] = false
contains x (y ∷ ys) = x == y || contains x ys

-- fasync_helper with mode 0 takes the file off the list.
abbrev pub Removes : FasyncHelper → Type 0
Removes helper = (fd : ℤ) (id : ℕ) (queue : List ℕ) → contains id (helper fd id 0 queue).1 ≡ false

-- Whether some call of the list signals the file.
abbrev pub signals : ℕ → List KernelCall → Bool
signals id [] = false
signals id (sigio fs ∷ l) = contains id fs || signals id l
signals id (c ∷ l) = signals id l

-- A write signals nobody but the files on the list, for which it looks when it copies.
write_copy-signals :
    (k : Uaccess) (id buf count : ℕ) (dev : Fifo)
    → contains id dev.async_queue ≡ false
    → (signals id (write_copy k (enqueued w_wait) buf count dev).log ≡ false)
      × (signals id (write_copy k (down ∷ []) buf count dev).log ≡ false)
unfolding write_copy
write_copy-signals k id buf count dev out = (ground arith, ground arith)

-- After a file was released, a write sends it no SIGIO on any path, a sleep included, if nothing
-- put the file back on the list while the writer slept.
pub release_stops_sigio :
    (helper : FasyncHelper) (k : Uaccess) (sched : Schedule) (filp : File) (nonblock : Bool)
    (buf count : ℕ) (dev : Fifo)
    → Removes helper
    → ((d : Fifo)
        → contains filp.id d.async_queue ≡ false
        → contains filp.id (sched d).0.async_queue ≡ false)
    → let dev' = (release helper filp dev).1 in
      signals filp.id (write k sched nonblock buf count dev').log ≡ false
unfolding release write write_enter write_wake
release_stops_sigio helper k sched filp nonblock buf count dev removes others =
    let dev' = (release helper filp dev).1 in
    let off : contains filp.id dev'.async_queue ≡ false =
      removes (negsuc 0) filp.id dev.async_queue in
    ground (
      arith,
      off,
      write_copy-signals k filp.id buf count dev' off,
      write_copy-signals k filp.id buf count (sched dev').0 (others dev' off),
    )
