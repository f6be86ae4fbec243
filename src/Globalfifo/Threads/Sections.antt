-- ===== src/Globalfifo/Threads/Sections.antt =====
-- globalfifo.c: a section in pieces, and what it does as a whole.
pub mod Starts
pub mod Ends
pub mod Pieces
use lkm_practice.Base.{
  blit-pieces, blit_whole, ℕ, ◌+◌, ◌-◌, ◌≤◌, ◌≡◌, refl, sym, ap, ap₂, ◌∙◌, Bool, true, false, List,
  [], ◌∷◌, ◌++◌, ◌==◌, if◌then◌else◌, arith, blit, window, zeroes, length, take, take-add, take_all,
  blit-nil, length-zeroes,
}
use mathlib.Core.Path.{subst, subst₂}
use lkm_practice.Kernel.{eagain, efault, Ret, ok, err, Uaccess, IsFilling}
use lkm_practice.Globalfifo.{
  Fifo, Done, done, sleeps, KernelCall, size, clamp, sub32, add32, down, enqueued, r_wait, w_wait,
  read_copy, write_copy, out, set_state, interruptible, up, schedule, read_enter, read_wake,
  write_enter, write_wake, unlocked_ioctl, fifo_clear,
}
use lkm_practice.Globalfifo.Invariant.{IsValid}
use lkm_practice.Globalfifo.Threads.{
  Section, reads, writes, whole, Stage, start, sleeping, copying_out, moved, copying_in, clearing,
  returning, tests, Work, read_again, read_begins, copies_out, copy_faults, moves, shortens,
  write_again, write_begins, copies_in, write_faults, lengthens, empties, zeroes_out, cleared,
}

-- The section returns `ret` and delivers `sent`, and leaves the device `dev`.
pub record Returns (k : Uaccess) (sec : Section) (dev0 dev : Fifo) (ret : Ret) (sent : List ℕ)
    : Type 0 where
  pub result : Done
  pub by_whole : whole k sec dev0 ≡ done result
  pub same_ret : result.ret ≡ ret
  pub same_sent : result.sent ≡ sent
  pub same_dev : result.dev ≡ dev

-- A section that comes to its copy.
pub record Reading (k : Uaccess) (sec : Section) (buf n : ℕ) (dev0 : Fifo) : Type 0 where
  pub pre : List KernelCall
  pub count : ℕ
  pub by_whole : whole k sec dev0 ≡ done (read_copy k pre buf count dev0)
  pub amount : n ≡ clamp count dev0.current_len

pub record Writing (k : Uaccess) (sec : Section) (buf n : ℕ) (dev0 : Fifo) : Type 0 where
  pub pre : List KernelCall
  pub count : ℕ
  pub by_whole : whole k sec dev0 ≡ done (write_copy k pre buf count dev0)
  pub amount : n ≡ clamp count (sub32 size dev0.current_len)

-- The device once `j` bytes of a write are stored, and once `j` bytes are cleared.
abbrev pub stored : Uaccess → (buf n j : ℕ) → Fifo → Fifo
stored k buf n j dev0 = record dev0 {
  mem = blit dev0.mem dev0.current_len (take j (k.from_user buf n).1);
}

abbrev pub zeroed : ℕ → Fifo → Fifo
zeroed j dev0 = record dev0 { current_len = 0; mem = blit dev0.mem 0 (take j (zeroes size)) }

-- What is known of the device at a stage of a section that found `dev0`.
abbrev pub At : Uaccess → Section → Fifo → Fifo → Stage → Type 0
At k sec dev0 dev start = dev ≡ dev0
At k sec dev0 dev sleeping =
    (pre : List KernelCall) × (whole k sec dev0 ≡ sleeps pre) × (dev ≡ dev0)
At k sec dev0 dev (copying_out buf n j got) =
    Reading k sec buf n dev0 × (j ≤ n) × (dev ≡ dev0) × (got ≡ take j dev0.mem)
At k sec dev0 dev (moved n got) =
    Returns k sec dev0 (record dev { current_len = dev.current_len - n }) (ok n) got
At k sec dev0 dev (copying_in buf n j) =
    Writing k sec buf n dev0 × (j ≤ n) × (dev ≡ stored k buf n j dev0)
At k sec dev0 dev (clearing j) =
    (whole k sec dev0 ≡ done (unlocked_ioctl fifo_clear dev0)) × (j ≤ size) × (dev ≡ zeroed j dev0)
At k sec dev0 dev (returning ret sent) = Returns k sec dev0 dev ret sent
