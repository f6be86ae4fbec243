-- ===== src/Globalfifo/Threads/Sections/Starts.antt =====
-- globalfifo.c: how a section begins.
use lkm_practice.Base.{ℕ, ◌≡◌, refl, Bool, true, false, [], ◌∷◌, ◌++◌, if◌then◌else◌, arith}
use lkm_practice.Kernel.{eagain, err, Uaccess}
use lkm_practice.Globalfifo.{
  Fifo, size, clamp, sub32, down, enqueued, r_wait, w_wait, out, set_state, interruptible, up,
  schedule, read_enter, read_wake, write_enter, write_wake,
}
use lkm_practice.Globalfifo.Threads.{reads, writes, sleeping, returning, tests}
use lkm_practice.Globalfifo.Threads.Sections.{Reading, Writing, At}

module _ (k : Uaccess) where
  -- The first step of a section, on the device that it finds.
  pub reading_again :
      (entry nonblock : Bool) (buf count : ℕ) (dev : Fifo)
      → tests entry 0 dev ≡ true
      → At k
          (reads entry nonblock buf count)
          dev
          dev
          (if nonblock then returning (err eagain) [] else sleeping)
  unfolding read_enter
  reading_again false nonblock buf count dev test = absurd (ground (arith, test))
  reading_again true true buf count dev test = record {
    result = record { dev = dev; ret = err eagain; sent = []; log = enqueued r_wait ++ out };
    by_whole = ground (arith, test);
    same_ret = refl;
    same_sent = refl;
    same_dev = refl;
  }
  reading_again true false buf count dev test =
      (enqueued r_wait ++ set_state interruptible ∷ up ∷ schedule ∷ [], ground (arith, test), refl)

  pub writing_again :
      (entry nonblock : Bool) (buf count : ℕ) (dev : Fifo)
      → tests entry size dev ≡ true
      → At k
          (writes entry nonblock buf count)
          dev
          dev
          (if nonblock then returning (err eagain) [] else sleeping)
  unfolding write_enter
  writing_again false nonblock buf count dev test = absurd (ground (arith, test))
  writing_again true true buf count dev test = record {
    result = record { dev = dev; ret = err eagain; sent = []; log = enqueued w_wait ++ out };
    by_whole = ground (arith, test);
    same_ret = refl;
    same_sent = refl;
    same_dev = refl;
  }
  writing_again true false buf count dev test =
      (enqueued w_wait ++ set_state interruptible ∷ up ∷ schedule ∷ [], ground (arith, test), refl)

  pub begin_read :
      (entry nonblock : Bool) (buf count : ℕ) (dev : Fifo)
      → tests entry 0 dev ≡ false
      → Reading k (reads entry nonblock buf count) buf (clamp count dev.current_len) dev
  unfolding read_enter read_wake
  begin_read true nonblock buf count dev test = record {
    pre = enqueued r_wait;
    count = count;
    by_whole = ground (arith, test);
    amount = refl;
  }
  begin_read false nonblock buf count dev test = record {
    pre = down ∷ [];
    count = count;
    by_whole = refl;
    amount = refl;
  }

  pub begin_write :
      (entry nonblock : Bool) (buf count : ℕ) (dev : Fifo)
      → tests entry size dev ≡ false
      → Writing k
          (writes entry nonblock buf count)
          buf
          (clamp count (sub32 size dev.current_len))
          dev
  unfolding write_enter write_wake
  begin_write true nonblock buf count dev test = record {
    pre = enqueued w_wait;
    count = count;
    by_whole = ground (arith, test);
    amount = refl;
  }
  begin_write false nonblock buf count dev test = record {
    pre = down ∷ [];
    count = count;
    by_whole = refl;
    amount = refl;
  }
