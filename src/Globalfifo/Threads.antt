-- ===== src/Globalfifo/Threads.antt =====
-- globalfifo.c under any number of processes, in steps that are finer than in Stream: a process waits
-- for the semaphore, and what it does while it holds it is cut into pieces of the copies, of any
-- length, and the stores between them, so that other processes run in between.
pub mod Sections
pub mod Steps
pub mod Atomic
pub mod Finish
pub mod Progress
mod Tests
pub use lkm_practice.Base.{update}
use lkm_practice.Base.{
  ℕ, ◌+◌, ◌-◌, ◌≤◌, ◌≡◌, ◌≢◌, Bool, true, false, Option, none, some, List, [], ◌∷◌, ◌++◌, ◌==◌,
  if◌then◌else◌, blit, window, zeroes,
}
use lkm_practice.Kernel.{eagain, efault, erestartsys, Ret, ok, err, Uaccess}
use lkm_practice.Globalfifo.{
  Fifo, Entered, done, size, clamp, sub32, add32, fifo_clear, read_enter, read_wake, write_enter,
  write_wake, unlocked_ioctl,
}
use lkm_practice.Globalfifo.Stream.{accepted, fresh_dev}

-- What a process does from one down() to the next up(): a read or a write, from its entry or from its
-- wake-up on, or FIFO_CLEAR.
pub data Section : Type 0 where
  reads writes : (entry nonblock : Bool) (buf count : ℕ) → Section
  clears : Section

-- The section as one function of the device.
abbrev pub whole : Uaccess → Section → Fifo → Entered
whole k (reads true nonblock buf count) dev = read_enter k nonblock buf count dev
whole k (reads false nonblock buf count) dev = done (read_wake k false buf count dev)
whole k (writes true nonblock buf count) dev = write_enter k nonblock buf count dev
whole k (writes false nonblock buf count) dev = done (write_wake k false buf count dev)
whole k clears dev = done (unlocked_ioctl fifo_clear dev)

-- How far a process is in its section: `j` of `n` bytes are copied, the bytes have been moved to the
-- front, or it is at its up().
pub data Stage : Type 0 where
  start sleeping : Stage
  copying_out : (buf n j : ℕ) (got : List ℕ) → Stage
  moved : (n : ℕ) (got : List ℕ) → Stage
  copying_in : (buf n j : ℕ) → Stage
  clearing : (j : ℕ) → Stage
  returning : Ret → List ℕ → Stage

-- Whether the section begins with the test of the device.
abbrev pub tests : (entry : Bool) (limit : ℕ) → Fifo → Bool
tests entry limit dev = if entry then dev.current_len == limit else false

-- A piece of a section, of a device.
pub data Work (k : Uaccess) (dev : Fifo) : Section → Stage → Fifo → Stage → Type 0 where
  read_again :
      (entry nonblock : Bool) (buf count : ℕ)
      → tests entry 0 dev ≡ true
      → Work k dev
          (reads entry nonblock buf count)
          start
          dev
          (if nonblock then returning (err eagain) [] else sleeping)
  read_begins :
      (entry nonblock : Bool) (buf count : ℕ)
      → tests entry 0 dev ≡ false
      → Work k dev
          (reads entry nonblock buf count)
          start
          dev
          (copying_out buf (clamp count dev.current_len) 0 [])
  copies_out :
      (sec : Section) (buf n j c : ℕ) (got : List ℕ)
      → j + c ≤ n
      → Work k dev sec
          (copying_out buf n j got)
          dev
          (copying_out buf n (j + c) (got ++ window j c dev.mem))
  copy_faults :
      (sec : Section) (buf n j : ℕ) (got : List ℕ)
      → j ≡ n
      → (k.to_user buf got == 0) ≡ false
      → Work k dev sec (copying_out buf n j got) dev (returning (err efault) [])
  moves :
      (sec : Section) (buf n j : ℕ) (got : List ℕ)
      → j ≡ n
      → (k.to_user buf got == 0) ≡ true
      → Work k dev sec
          (copying_out buf n j got)
          (record dev { mem = k.memcpy dev.mem 0 n (dev.current_len - n) })
          (moved n got)
  shortens :
      (sec : Section) (n : ℕ) (got : List ℕ)
      → Work k dev sec
          (moved n got)
          (record dev { current_len = dev.current_len - n })
          (returning (ok n) got)
  write_again :
      (entry nonblock : Bool) (buf count : ℕ)
      → tests entry size dev ≡ true
      → Work k dev
          (writes entry nonblock buf count)
          start
          dev
          (if nonblock then returning (err eagain) [] else sleeping)
  write_begins :
      (entry nonblock : Bool) (buf count : ℕ)
      → tests entry size dev ≡ false
      → Work k dev
          (writes entry nonblock buf count)
          start
          dev
          (copying_in buf (clamp count (sub32 size dev.current_len)) 0)
  copies_in :
      (sec : Section) (buf n j c : ℕ)
      → j + c ≤ n
      → Work k dev sec
          (copying_in buf n j)
          (record dev {
            mem = blit dev.mem (dev.current_len + j) (window j c (k.from_user buf n).1);
          })
          (copying_in buf n (j + c))
  write_faults :
      (sec : Section) (buf n j : ℕ)
      → j ≡ n
      → ((k.from_user buf n).0 == 0) ≡ false
      → Work k dev sec (copying_in buf n j) dev (returning (err efault) [])
  lengthens :
      (sec : Section) (buf n j : ℕ)
      → j ≡ n
      → ((k.from_user buf n).0 == 0) ≡ true
      → Work k dev sec
          (copying_in buf n j)
          (record dev { current_len = add32 dev.current_len n })
          (returning (ok n) [])
  empties : Work k dev clears start (record dev { current_len = 0 }) (clearing 0)
  zeroes_out :
      (sec : Section) (j c : ℕ)
      → j + c ≤ size
      → Work k dev sec
          (clearing j)
          (record dev { mem = blit dev.mem j (window j c (zeroes size)) })
          (clearing (j + c))
  cleared :
      (sec : Section) (j : ℕ) → j ≡ size → Work k dev sec (clearing j) dev (returning (ok 0) [])

-- Where a process is: outside, in down(), in its section, or in schedule(), with the section that
-- comes after it.
pub data Process : Type 0 where
  idle : Process
  waiting : Section → Process
  inside : Section → Stage → Process
  asleep : Section → Process

-- The section after the sleep.
abbrev pub after_sleep : Section → Section
after_sleep (reads entry nonblock buf count) = reads false nonblock buf count
after_sleep (writes entry nonblock buf count) = writes false nonblock buf count
after_sleep clears = clears

abbrev pub is_entry : Section → Bool
is_entry (reads entry nonblock buf count) = entry
is_entry (writes entry nonblock buf count) = entry
is_entry clears = true

-- The device, who holds the semaphore, the processes, and the bytes taken in and handed out since the
-- last clear (Stream).
pub record System : Type 0 where
  pub dev : Fifo
  pub owner : Option ℕ
  pub process : ℕ → Process
  pub written : List ℕ
  pub taken : List ℕ

-- What has passed through the device once a section returns.
abbrev pub written_by : Uaccess → Section → Ret → List ℕ → List ℕ
written_by k (reads entry nonblock buf count) ret l = l
written_by k (writes entry nonblock buf count) ret l = l ++ accepted k buf ret
written_by k clears ret l = []

abbrev pub taken_by : Section → List ℕ → List ℕ → List ℕ
taken_by (reads entry nonblock buf count) sent l = l ++ sent
taken_by (writes entry nonblock buf count) sent l = l
taken_by clears sent l = []

pub data Step (k : Uaccess) (s : System) : System → Type 0 where
  calls :
      (i : ℕ) (sec : Section)
      → s.process i ≡ idle
      → is_entry sec ≡ true
      → Step k s (record s { process = update s.process i (waiting sec) })
  downs :
      (i : ℕ) (sec : Section)
      → s.process i ≡ waiting sec
      → s.owner ≡ none
      → Step k s (record s { owner = some i; process = update s.process i (inside sec start) })
  works :
      (i : ℕ) (sec : Section) (st st' : Stage) (dev' : Fifo)
      → s.process i ≡ inside sec st
      → Work k s.dev sec st dev' st'
      → Step k s (record s { dev = dev'; process = update s.process i (inside sec st') })
  ups :
      (i : ℕ) (sec : Section) (ret : Ret) (sent : List ℕ)
      → s.process i ≡ inside sec (returning ret sent)
      → Step k s (record s {
        owner = none;
        process = update s.process i idle;
        written = written_by k sec ret s.written;
        taken = taken_by sec sent s.taken;
      })
  falls_asleep :
      (i : ℕ) (sec : Section)
      → s.process i ≡ inside sec sleeping
      → Step k s
          (record s { owner = none; process = update s.process i (asleep (after_sleep sec)) })
  wakes :
      (i : ℕ) (sec : Section)
      → s.process i ≡ asleep sec
      → Step k s (record s { process = update s.process i (waiting sec) })
  signalled :
      (i : ℕ) (sec : Section)
      → s.process i ≡ asleep sec
      → Step k s (record s { process = update s.process i idle })

unfoldable pub fresh : System
fresh = record { dev = fresh_dev; owner = none; process = λ i. idle; written = []; taken = [] }

pub data Reach (k : Uaccess) : System → Type 0 where
  begin : Reach k fresh
  next : {s t : System} → Reach k s → Step k s t → Reach k t
