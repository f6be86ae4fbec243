-- ===== src/Globalfifo/Threads/Sections/Ends.antt =====
-- globalfifo.c: how a section ends.
use lkm_practice.Base.{
  blit_whole, ℕ, ◌-◌, ◌≡◌, refl, sym, ap, ◌∙◌, true, false, [], ◌==◌, arith, blit, zeroes, length,
  take, take_all, length-zeroes,
}
use lkm_practice.Kernel.{efault, ok, err, Uaccess}
use lkm_practice.Globalfifo.{
  Fifo, done, size, clamp, sub32, add32, read_copy, write_copy, unlocked_ioctl, fifo_clear,
}
use lkm_practice.Globalfifo.Threads.{Section, whole}
use lkm_practice.Globalfifo.Threads.Sections.{Returns, Reading, Writing, zeroed}

module _ (k : Uaccess) where
  -- The end of a read, by its copy.
  pub read_faulty :
      {sec : Section} {buf n : ℕ} (dev : Fifo)
      → Reading k sec buf n dev
      → (k.to_user buf (take n dev.mem) == 0) ≡ false
      → Returns k sec dev dev (err efault) []
  unfolding read_copy
  read_faulty {sec} {buf} {n} dev reading faulty =
      let bad : (k.to_user buf (take (clamp reading.count dev.current_len) dev.mem) == 0) ≡ false =
        rw reading.amount at faulty in
      record {
        result = read_copy k reading.pre buf reading.count dev;
        by_whole = reading.by_whole;
        same_ret = ground (arith, bad);
        same_sent = ground (arith, bad);
        same_dev = ground (arith, bad);
      }

  pub read_moves :
      {sec : Section} {buf n : ℕ} (dev : Fifo)
      → Reading k sec buf n dev
      → (k.to_user buf (take n dev.mem) == 0) ≡ true
      → Returns k sec dev
          (record dev {
            mem = k.memcpy dev.mem 0 n (dev.current_len - n);
            current_len = dev.current_len - n;
          })
          (ok n)
          (take n dev.mem)
  unfolding read_copy
  read_moves {sec} {buf} {n} dev reading good =
      let fine : (k.to_user buf (take (clamp reading.count dev.current_len) dev.mem) == 0) ≡ true =
        rw reading.amount at good in
      record {
        result = read_copy k reading.pre buf reading.count dev;
        by_whole = reading.by_whole;
        same_ret = ground (arith, fine, reading.amount);
        same_sent = ground (arith, fine, reading.amount);
        same_dev = ground (arith, fine, reading.amount);
      }

  -- The end of a write, on a device in which all of its bytes are stored.
  pub write_faulty :
      {sec : Section} {buf n : ℕ} (dev : Fifo)
      → Writing k sec buf n dev
      → ((k.from_user buf n).0 == 0) ≡ false
      → Returns k sec dev
          (record dev { mem = blit dev.mem dev.current_len (k.from_user buf n).1 })
          (err efault)
          []
  unfolding write_copy
  write_faulty {sec} {buf} {n} dev writing faulty =
      let m = clamp writing.count (sub32 size dev.current_len) in
      let bad : ((k.from_user buf m).0 == 0) ≡ false = rw writing.amount at faulty in
      record {
        result = write_copy k writing.pre buf writing.count dev;
        by_whole = writing.by_whole;
        same_ret = ground (arith, bad);
        same_sent = ground (arith, bad);
        same_dev = ground (arith, bad, writing.amount);
      }

  pub write_lengthens :
      {sec : Section} {buf n : ℕ} (dev : Fifo)
      → Writing k sec buf n dev
      → ((k.from_user buf n).0 == 0) ≡ true
      → Returns k sec dev
          (record dev {
            mem = blit dev.mem dev.current_len (k.from_user buf n).1;
            current_len = add32 dev.current_len n;
          })
          (ok n)
          []
  unfolding write_copy
  write_lengthens {sec} {buf} {n} dev writing good =
      let m = clamp writing.count (sub32 size dev.current_len) in
      let fine : ((k.from_user buf m).0 == 0) ≡ true = rw writing.amount at good in
      record {
        result = write_copy k writing.pre buf writing.count dev;
        by_whole = writing.by_whole;
        same_ret = ground (arith, fine, writing.amount);
        same_sent = ground (arith, fine, writing.amount);
        same_dev = ground (arith, fine, writing.amount);
      }

  pub clears_all :
      {sec : Section} (dev : Fifo)
      → length dev.mem ≡ size
      → whole k sec dev ≡ done (unlocked_ioctl fifo_clear dev)
      → Returns k sec dev (zeroed size dev) (ok 0) []
  unfolding unlocked_ioctl
  clears_all dev full result =
      let all : blit dev.mem 0 (take size (zeroes size)) ≡ zeroes size =
        ap (blit dev.mem 0) (take_all size (zeroes size) (omega (arith, length-zeroes size)))
        ∙ blit_whole dev.mem (zeroes size) (omega (arith, length-zeroes size)) in
      record {
        result = unlocked_ioctl fifo_clear dev;
        by_whole = result;
        same_ret = refl;
        same_sent = refl;
        same_dev = ap (λ m. record dev { current_len = 0; mem = m }) (sym all);
      }
