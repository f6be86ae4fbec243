-- ===== src/Globalfifo/Invariant.antt =====
-- globalfifo.c: the well-formedness of the device, and the discipline of its semaphore.
use lkm_practice.Base.{
  ℕ, ◌-◌, ◌≤◌, ◌≡◌, Bool, List, [], ◌∷◌, arith, length, length-blit, length-zeroes,
}
use lkm_practice.Kernel.{Uaccess, IsFilling}
use lkm_practice.Globalfifo.{
  Fifo, down, enqueued, Entered, done, sleeps, KernelCall, r_wait, w_wait, size, clamp, sub32,
  read_copy, read_enter, read_wake, write_copy, write_enter, write_wake, Schedule, read, write,
  unlocked_ioctl,
}

pub record IsValid (dev : Fifo) : Type 0 where
  pub full_array : length dev.mem ≡ size
  pub within : dev.current_len ≤ size

-- Of a handler that sleeps nothing is asked: it has not touched the device.
abbrev pub EnteredValid : Entered → Type 0
EnteredValid (done d) = IsValid d.dev
EnteredValid (sleeps pre) = Unit

module _ (k : Uaccess) (filling : IsFilling k) where
  pub read_copy-IsValid :
      (pre : List KernelCall) (buf count : ℕ) {dev : Fifo}
      → IsValid dev
      → IsValid (read_copy k pre buf count dev).dev
  unfolding read_copy
  read_copy-IsValid pre buf count {dev} v =
      let n = clamp count dev.current_len in
      ground (arith, filling.keeps dev.mem 0 n (dev.current_len - n))

  pub write_copy-IsValid :
      (pre : List KernelCall) (buf count : ℕ) {dev : Fifo}
      → IsValid dev
      → IsValid (write_copy k pre buf count dev).dev
  unfolding write_copy
  write_copy-IsValid pre buf count {dev} v =
      let n = clamp count (sub32 size dev.current_len) in
      ground (arith, filling.fills buf n, length-blit dev.mem dev.current_len (k.from_user buf n).1)

  pub read_enter-IsValid :
      (nonblock : Bool) (buf count : ℕ) {dev : Fifo}
      → IsValid dev
      → EnteredValid (read_enter k nonblock buf count dev)
  unfolding read_enter
  read_enter-IsValid nonblock buf count v =
      ground (arith, read_copy-IsValid (enqueued r_wait) buf count v)

  pub read_wake-IsValid :
      (signal : Bool) (buf count : ℕ) {dev : Fifo}
      → IsValid dev
      → IsValid (read_wake k signal buf count dev).dev
  unfolding read_wake
  read_wake-IsValid signal buf count v = ground (arith, read_copy-IsValid (down ∷ []) buf count v)

  pub write_enter-IsValid :
      (nonblock : Bool) (buf count : ℕ) {dev : Fifo}
      → IsValid dev
      → EnteredValid (write_enter k nonblock buf count dev)
  unfolding write_enter
  write_enter-IsValid nonblock buf count v =
      ground (arith, write_copy-IsValid (enqueued w_wait) buf count v)

  pub write_wake-IsValid :
      (signal : Bool) (buf count : ℕ) {dev : Fifo}
      → IsValid dev
      → IsValid (write_wake k signal buf count dev).dev
  unfolding write_wake
  write_wake-IsValid signal buf count v = ground (arith, write_copy-IsValid (down ∷ []) buf count v)

  -- With other processes that keep the device well formed while the caller sleeps, read, write and
  -- ioctl keep it well formed: its array keeps 4096 bytes and holds at most as many, on every
  -- branch and whatever copy_to_user and copy_from_user answer.
  pub handlers-IsValid :
      (sched : Schedule) (nonblock : Bool) (buf count cmd : ℕ) {dev : Fifo}
      → ((d : Fifo) → IsValid d → IsValid (sched d).0)
      → IsValid dev
      → IsValid (read k sched nonblock buf count dev).dev
        × IsValid (write k sched nonblock buf count dev).dev
        × IsValid (unlocked_ioctl cmd dev).dev
  unfolding read write unlocked_ioctl
  handlers-IsValid sched nonblock buf count cmd {dev} others v = (
    ground (
      arith,
      read_enter-IsValid nonblock buf count v,
      others dev v,
      read_wake-IsValid (sched dev).1 buf count (others dev v),
    ),
    ground (
      arith,
      write_enter-IsValid nonblock buf count v,
      others dev v,
      write_wake-IsValid (sched dev).1 buf count (others dev v),
    ),
    ground (arith, length-zeroes size),
  )
