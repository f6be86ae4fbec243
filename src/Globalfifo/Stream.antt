-- ===== src/Globalfifo/Stream.antt =====
-- globalfifo.c under any number of processes. Each stretch of a handler between two sleeps holds
-- the semaphore throughout (Semaphore), so one step of the system is one such stretch; the steps
-- of different processes interleave in any order. A process sleeps in a read or in a write, and may
-- be woken at any time, with or without a signal.
pub use lkm_practice.Base.{update}
use lkm_practice.Base.{ℕ, ◌≡◌, Bool, false, List, [], ◌++◌, zeroes}
use lkm_practice.Kernel.{Uaccess, Ret, ok, err}
use lkm_practice.Globalfifo.{
  Fifo, Done, done, sleeps, KernelCall, size, read_enter, read_wake, write_enter, write_wake,
  unlocked_ioctl, fifo_clear,
}

-- Where a process stands; a sleeper keeps its arguments.
pub data Process : Type 0 where
  idle : Process
  reading writing : (buf count : ℕ) → Process

-- The device, the processes, and what has passed through the device since it was last cleared: the
-- bytes that writes took in, and the bytes that reads handed out, both in order.
pub record System : Type 0 where
  pub dev : Fifo
  pub process : ℕ → Process
  pub written : List ℕ
  pub taken : List ℕ

-- The bytes that a write of the buffer at `buf` took in, by its return value.
abbrev pub accepted : Uaccess → ℕ → Ret → List ℕ
accepted k buf (ok n) = (k.from_user buf n).1
accepted k buf (err e) = []

abbrev pub finish_read : ℕ → Done → System → System
finish_read i d s = record s {
  dev = d.dev;
  process = update s.process i idle;
  taken = s.taken ++ d.sent;
}

abbrev pub finish_write : Uaccess → ℕ → ℕ → Done → System → System
finish_write k buf i d s = record s {
  dev = d.dev;
  process = update s.process i idle;
  written = s.written ++ accepted k buf d.ret;
}

pub data Step (k : Uaccess) (s : System) : System → Type 0 where
  call_read :
      (i : ℕ) (nonblock : Bool) (buf count : ℕ) {d : Done}
      → s.process i ≡ idle
      → read_enter k nonblock buf count s.dev ≡ done d
      → Step k s (finish_read i d s)
  sleep_read :
      (i buf count : ℕ) {pre : List KernelCall}
      → s.process i ≡ idle
      → read_enter k false buf count s.dev ≡ sleeps pre
      → Step k s (record s { process = update s.process i (reading buf count) })
  wake_read :
      (i : ℕ) (signal : Bool) {buf count : ℕ}
      → s.process i ≡ reading buf count
      → Step k s (finish_read i (read_wake k signal buf count s.dev) s)
  call_write :
      (i : ℕ) (nonblock : Bool) (buf count : ℕ) {d : Done}
      → s.process i ≡ idle
      → write_enter k nonblock buf count s.dev ≡ done d
      → Step k s (finish_write k buf i d s)
  sleep_write :
      (i buf count : ℕ) {pre : List KernelCall}
      → s.process i ≡ idle
      → write_enter k false buf count s.dev ≡ sleeps pre
      → Step k s (record s { process = update s.process i (writing buf count) })
  wake_write :
      (i : ℕ) (signal : Bool) {buf count : ℕ}
      → s.process i ≡ writing buf count
      → Step k s (finish_write k buf i (write_wake k signal buf count s.dev) s)
  clear :
      (i : ℕ)
      → s.process i ≡ idle
      → Step k s
          (record s { dev = (unlocked_ioctl fifo_clear s.dev).dev; written = []; taken = [] })

-- The device as globalfifo_init leaves it: zeroed by memset.
unfoldable pub fresh_dev : Fifo
fresh_dev = record { current_len = 0; mem = zeroes size; async_queue = [] }

unfoldable pub fresh : System
fresh = record { dev = fresh_dev; process = λ i. idle; written = []; taken = [] }

pub data Reach (k : Uaccess) : System → Type 0 where
  start : Reach k fresh
  next : {s t : System} → Reach k s → Step k s t → Reach k t
