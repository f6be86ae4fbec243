-- ===== src/Globalfifo/Sleepers.antt =====
-- globalfifo.c under any number of processes, as in Stream, where a sleeper gets up only when it was
-- woken or has a signal.
pub mod Keeps
pub mod Awake
pub mod Served
mod Tests
pub use lkm_practice.Base.{update}
use lkm_practice.Base.{
  ℕ, ◌-◌, ◌%◌, ◌^◌, ◌+◌, ◌≤◌, ◌≡◌, refl, sym, ap, ◌∙◌, Bool, true, false, not, ◌||◌, ◌&&◌, List, [],
  ◌∷◌, ◌++◌, ◌==◌, if◌then◌else◌, arith, ◌⊎◌, inl, inr, Bool-cases, zeroes, take,
}
use std.Path.{transport}
use lkm_practice.Kernel.{Uaccess, IsFilling}
use lkm_practice.Globalfifo.{
  Fifo, Done, done, sleeps, KernelCall, wake_up, r_wait, w_wait, down, enqueued, size, read_copy,
  read_enter, read_wake, write_copy, write_enter, write_wake, unlocked_ioctl, fifo_clear, Entered,
  up, remove_wait, set_state, running, clamp, sub32,
}
use lkm_practice.Globalfifo.Stream.{fresh_dev}
use lkm_practice.Globalfifo.Invariant.{IsValid, read_copy-IsValid, write_copy-IsValid}
use lkm_practice.Globalfifo.Queue.{clear_lem}

-- Where a process stands; of a sleeper, whether wake_up has reached it, and its arguments.
pub data Process : Type 0 where
  idle : Process
  reading writing : (woken : Bool) (buf count : ℕ) → Process

-- Which queues a list of calls wakes.
abbrev pub wakes_readers : List KernelCall → Bool
wakes_readers [] = false
wakes_readers (wake_up r_wait ∷ l) = true
wakes_readers (c ∷ l) = wakes_readers l

abbrev pub wakes_writers : List KernelCall → Bool
wakes_writers [] = false
wakes_writers (wake_up w_wait ∷ l) = true
wakes_writers (c ∷ l) = wakes_writers l

abbrev pub rouse : List KernelCall → Process → Process
rouse l idle = idle
rouse l (reading woken buf count) = reading (woken || wakes_readers l) buf count
rouse l (writing woken buf count) = writing (woken || wakes_writers l) buf count

-- The device and the processes; `cleared` is whether the device was cleared since the writers were
-- last woken.
pub record System : Type 0 where
  pub dev : Fifo
  pub process : ℕ → Process
  pub cleared : Bool

-- A process has come to the end of its call.
abbrev pub after : ℕ → Done → System → System
after i d s = record {
  dev = d.dev;
  process = update (λ j. rouse d.log (s.process j)) i idle;
  cleared = s.cleared && not (wakes_writers d.log);
}

pub data Step (k : Uaccess) (s : System) : System → Type 0 where
  call_read :
      (i : ℕ) (nonblock : Bool) (buf count : ℕ) {d : Done}
      → s.process i ≡ idle
      → read_enter k nonblock buf count s.dev ≡ done d
      → Step k s (after i d s)
  sleep_read :
      (i buf count : ℕ) {pre : List KernelCall}
      → s.process i ≡ idle
      → read_enter k false buf count s.dev ≡ sleeps pre
      → Step k s (record s { process = update s.process i (reading false buf count) })
  wake_read :
      (i : ℕ) (signal woken : Bool) {buf count : ℕ}
      → s.process i ≡ reading woken buf count
      → (woken || signal) ≡ true
      → Step k s (after i (read_wake k signal buf count s.dev) s)
  call_write :
      (i : ℕ) (nonblock : Bool) (buf count : ℕ) {d : Done}
      → s.process i ≡ idle
      → write_enter k nonblock buf count s.dev ≡ done d
      → Step k s (after i d s)
  sleep_write :
      (i buf count : ℕ) {pre : List KernelCall}
      → s.process i ≡ idle
      → write_enter k false buf count s.dev ≡ sleeps pre
      → Step k s (record s { process = update s.process i (writing false buf count) })
  wake_write :
      (i : ℕ) (signal woken : Bool) {buf count : ℕ}
      → s.process i ≡ writing woken buf count
      → (woken || signal) ≡ true
      → Step k s (after i (write_wake k signal buf count s.dev) s)
  clear :
      (i : ℕ)
      → s.process i ≡ idle
      → Step k s (record (after i (unlocked_ioctl fifo_clear s.dev) s) { cleared = true })

unfoldable pub fresh : System
fresh = record { dev = fresh_dev; process = λ i. idle; cleared = false }

pub data Run (k : Uaccess) (s : System) : System → Type 0 where
  stay : Run k s s
  next : {t u : System} → Run k s t → Step k t u → Run k s u
