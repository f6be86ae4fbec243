-- ===== src/Globalfifo/Semaphore.antt =====
-- globalfifo.c: the discipline of the semaphore and of the wait queues, read off the calls that a
-- handler makes.
use lkm_practice.Base.{
  ℕ, ◌+◌, ◌≡◌, Bool, true, false, not, ◌&&◌, List, [], ◌∷◌, arith, if◌then◌else◌,
}
use lkm_practice.Kernel.{Uaccess, Ret, ok, err}
use lkm_practice.Globalfifo.{
  Fifo, KernelCall, down, up, schedule, add_wait, remove_wait, wake_up, sigio, WaitQueue, r_wait,
  w_wait, read_copy, read_enter, read_wake, is_nil, write_copy, write_enter, write_wake, Schedule,
  read, write, unlocked_ioctl, poll,
}

-- The calls take the semaphore only when they do not hold it, release it only when they do, never
-- sleep with it, and end without it. `held` tells whether they begin with it.
abbrev pub balanced : Bool → List KernelCall → Bool
balanced held [] = not held
balanced held (down ∷ l) = not held && balanced true l
balanced held (up ∷ l) = held && balanced false l
balanced held (schedule ∷ l) = not held && balanced held l
balanced held (c ∷ l) = balanced held l

-- The wake-ups of a queue, and the additions to it less the removals, as two counts.
abbrev pub wakes : WaitQueue → List KernelCall → ℕ
wakes q [] = 0
wakes r_wait (wake_up r_wait ∷ l) = 1 + wakes r_wait l
wakes w_wait (wake_up w_wait ∷ l) = 1 + wakes w_wait l
wakes q (c ∷ l) = wakes q l

abbrev pub adds : WaitQueue → List KernelCall → ℕ
adds q [] = 0
adds r_wait (add_wait r_wait ∷ l) = 1 + adds r_wait l
adds w_wait (add_wait w_wait ∷ l) = 1 + adds w_wait l
adds q (c ∷ l) = adds q l

abbrev pub removes : WaitQueue → List KernelCall → ℕ
removes q [] = 0
removes r_wait (remove_wait r_wait ∷ l) = 1 + removes r_wait l
removes w_wait (remove_wait w_wait ∷ l) = 1 + removes w_wait l
removes q (c ∷ l) = removes q l

abbrev pub sigios : List KernelCall → ℕ
sigios [] = 0
sigios (sigio fs ∷ l) = 1 + sigios l
sigios (c ∷ l) = sigios l

abbrev pub is_ok : Ret → Bool
is_ok (ok n) = true
is_ok (err e) = false

abbrev pub once_if : Bool → ℕ
once_if b = if b then 1 else 0

module _ (k : Uaccess) (sched : Schedule) (nonblock : Bool) (buf count : ℕ) (dev : Fifo) where
  -- On every path of read, write, ioctl and poll, errors and the sleep included, the semaphore is
  -- taken and released alternately, is not held across schedule(), and is free at the end.
  pub handlers-balanced :
      (cmd : ℕ)
      → (balanced false (read k sched nonblock buf count dev).log ≡ true)
        × (balanced false (write k sched nonblock buf count dev).log ≡ true)
        × (balanced false (unlocked_ioctl cmd dev).log ≡ true)
        × (balanced false (poll dev).1 ≡ true)
  unfolding read write read_enter read_wake write_enter write_wake read_copy write_copy
      unlocked_ioctl poll
  handlers-balanced cmd = (ground arith, ground arith, ground arith, ground arith)

  -- On every path a read joins the readers' wait queue once and a write the writers', and each is
  -- taken off once; but the removal names the writers' queue in both, so that no call ever takes a
  -- reader off the readers' queue by its name.
  pub wait_queues :
      let r = (read k sched nonblock buf count dev).log in
      let w = (write k sched nonblock buf count dev).log in
      (adds r_wait r ≡ 1)
      × (adds w_wait r ≡ 0)
      × (removes r_wait r ≡ 0)
      × (removes w_wait r ≡ 1)
      × (adds w_wait w ≡ 1)
      × (adds r_wait w ≡ 0)
      × (removes w_wait w ≡ 1)
      × (removes r_wait w ≡ 0)
  unfolding read read_enter read_wake read_copy write write_enter write_wake write_copy
  wait_queues = (
    ground arith,
    ground arith,
    ground arith,
    ground arith,
    ground arith,
    ground arith,
    ground arith,
    ground arith,
  )

  -- A read wakes the writers once if it succeeds and not otherwise, and never the readers. A write
  -- wakes the readers once if it succeeds and not otherwise, never the writers, and sends SIGIO
  -- once if it succeeds and some file asked for it, and not otherwise.
  pub wake_ups :
      let r = read k sched nonblock buf count dev in
      let w = write k sched nonblock buf count dev in
      (wakes w_wait r.log ≡ once_if (is_ok r.ret))
      × (wakes r_wait r.log ≡ 0)
      × (sigios r.log ≡ 0)
      × (wakes r_wait w.log ≡ once_if (is_ok w.ret))
      × (wakes w_wait w.log ≡ 0)
      × (sigios w.log ≡ once_if (is_ok w.ret && not (is_nil w.dev.async_queue)))
  unfolding read read_enter read_wake read_copy write write_enter write_wake write_copy
  wake_ups = (ground arith, ground arith, ground arith, ground arith, ground arith, ground arith)
