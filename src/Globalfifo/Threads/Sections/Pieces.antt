-- ===== src/Globalfifo/Threads/Sections/Pieces.antt =====
-- globalfifo.c: a section in pieces does what it does as a whole.
use lkm_practice.Base.{
  blit-pieces, ℕ, ◌+◌, ◌-◌, ◌≤◌, ◌≡◌, refl, sym, ap, ap₂, ◌∙◌, [], ◌++◌, arith, blit, window,
  zeroes, length, take, take-add, take_all, blit-nil, length-zeroes,
}
use mathlib.Core.Path.{subst, subst₂}
use lkm_practice.Kernel.{efault, ok, err, Uaccess, IsFilling}
use lkm_practice.Globalfifo.{Fifo, size, add32}
use lkm_practice.Globalfifo.Invariant.{IsValid}
use lkm_practice.Globalfifo.Threads.{
  Section, reads, writes, Stage, Work, read_again, read_begins, copies_out, copy_faults, moves,
  shortens, write_again, write_begins, copies_in, write_faults, lengthens, empties, zeroes_out,
  cleared,
}
use lkm_practice.Globalfifo.Threads.Sections.{Returns, Writing, stored, zeroed, At}
use lkm_practice.Globalfifo.Threads.Sections.Starts.{
  reading_again, writing_again, begin_read, begin_write,
}
use lkm_practice.Globalfifo.Threads.Sections.Ends.{
  read_faulty, read_moves, write_faulty, write_lengthens, clears_all,
}

module _ (k : Uaccess) (filling : IsFilling k) where
  -- All bytes of a write are stored.
  stored_all :
      (buf n : ℕ) (dev : Fifo)
      → stored k buf n n dev
        ≡ record dev { mem = blit dev.mem dev.current_len (k.from_user buf n).1 }
  stored_all buf n dev =
      ap (λ l. record dev { mem = blit dev.mem dev.current_len l })
        (take_all n (k.from_user buf n).1 (omega (arith, filling.fills buf n)))

  whole_copy :
      (buf n j : ℕ)
      → j ≡ n
      → {dev : Fifo} (dev0 : Fifo) → dev ≡ stored k buf n j dev0
      → dev ≡ record dev0 { mem = blit dev0.mem dev0.current_len (k.from_user buf n).1 }
  whole_copy buf n j all dev0 same =
      same ∙ ap (λ m. stored k buf n m dev0) all ∙ stored_all buf n dev0

  -- There is room for what a write stores.
  room :
      {sec : Section} {buf n : ℕ} {dev : Fifo}
      → IsValid dev
      → Writing k sec buf n dev
      → dev.current_len + n ≤ size
  room {sec} {buf} {n} {dev} v writing = ground (arith, writing.amount)

  -- Each piece leaves what is known of its stage.
  pub Work-At :
      {sec : Section} {st : Stage} {dev0 dev dev' : Fifo} {st' : Stage}
      → IsValid dev0
      → Work k dev sec st dev' st'
      → At k sec dev0 dev st
      → At k sec dev0 dev' st'
  Work-At {dev = dev} {st' = st'} v (read_again entry nonblock buf count test) h =
      subst (λ d. At k (reads entry nonblock buf count) d dev st') h
        (reading_again k entry nonblock buf count dev test)
  Work-At {dev = dev} {st' = st'} v (read_begins entry nonblock buf count test) h =
      subst (λ d. At k (reads entry nonblock buf count) d dev st') h
        (begin_read k entry nonblock buf count dev test, omega arith, refl, refl)
  Work-At {dev0 = dev0} v (copies_out sec buf n j c got more) (reading, below, same, has) = (
    reading,
    more,
    same,
    ap₂ (λ g (d : Fifo). g ++ window j c d.mem) has same ∙ sym (take-add j c dev0.mem),
  )
  Work-At {dev0 = dev0} v (copy_faults sec buf n j got all faulty) (reading, below, same, has) =
      let got_all : got ≡ take n dev0.mem = has ∙ ap (λ m. take m dev0.mem) all in
      subst (λ d. Returns k sec dev0 d (err efault) []) (sym same)
        (read_faulty k dev0 reading (rw got_all at faulty))
  Work-At {dev0 = dev0} v (moves sec buf n j got all good) (reading, below, same, has) =
      let got_all : got ≡ take n dev0.mem = has ∙ ap (λ m. take m dev0.mem) all in
      subst₂
        (λ (d : Fifo) g.
          Returns k sec dev0
            (record d {
              mem = k.memcpy d.mem 0 n (d.current_len - n);
              current_len = d.current_len - n;
            })
            (ok n) g)
        (sym same) (sym got_all) (read_moves k dev0 reading (rw got_all at good))
  Work-At v (shortens sec n got) h = h
  Work-At {dev = dev} {st' = st'} v (write_again entry nonblock buf count test) h =
      subst (λ d. At k (writes entry nonblock buf count) d dev st') h
        (writing_again k entry nonblock buf count dev test)
  Work-At {dev = dev} {st' = st'} v (write_begins entry nonblock buf count test) h =
      subst (λ d. At k (writes entry nonblock buf count) d dev st') h
        (
          begin_write k entry nonblock buf count dev test,
          omega arith,
          sym (ap (λ m. record dev { mem = m }) (blit-nil dev.mem dev.current_len)),
        )
  Work-At {dev0 = dev0} v (copies_in sec buf n j c more) (writing, below, same) =
      let bytes = (k.from_user buf n).1 in
      let amount : length bytes ≡ n = filling.fills buf n in
      let fits = room v writing in
      (
        writing,
        more,
        ap (λ (d : Fifo). record d { mem = blit d.mem (d.current_len + j) (window j c bytes) }) same
            ∙ ap (λ m. record dev0 { mem = m })
                (blit-pieces dev0.mem bytes dev0.current_len j c (omega arith)
                  (omega (arith, v.full_array))),
      )
  Work-At {dev0 = dev0} v (write_faults sec buf n j all faulty) (writing, below, same) =
      subst (λ d. Returns k sec dev0 d (err efault) []) (sym (whole_copy buf n j all dev0 same))
        (write_faulty k dev0 writing faulty)
  Work-At {dev0 = dev0} v (lengthens sec buf n j all good) (writing, below, same) =
      subst
        (λ (d : Fifo).
          Returns k sec dev0 (record d { current_len = add32 d.current_len n }) (ok n) [])
        (sym (whole_copy buf n j all dev0 same)) (write_lengthens k dev0 writing good)
  Work-At {dev0 = dev0} v empties h = (
    refl,
    omega arith,
    ap (λ (d : Fifo). record d { current_len = 0 }) h
        ∙ sym (ap (λ m. record dev0 { current_len = 0; mem = m }) (blit-nil dev0.mem 0)),
  )
  Work-At {dev0 = dev0} v (zeroes_out sec j c more) (result, below, same) = (
    result,
    more,
    ap (λ (d : Fifo). record d { mem = blit d.mem j (window j c (zeroes size)) }) same
        ∙ ap
            (λ o. record dev0 {
              current_len = 0;
              mem = blit (blit dev0.mem 0 (take j (zeroes size))) o (window j c (zeroes size));
            })
            (omega arith)
        ∙ ap (λ m. record dev0 { current_len = 0; mem = m })
            (blit-pieces dev0.mem (zeroes size) 0 j c (omega (arith, length-zeroes size))
              (omega (arith, length-zeroes size, v.full_array))),
  )
  Work-At {dev0 = dev0} v (cleared sec j all) (result, below, same) =
      subst (λ d. Returns k sec dev0 d (ok 0) []) (sym (same ∙ ap (λ m. zeroed m dev0) all))
        (clears_all k dev0 v.full_array result)
