-- ===== src/Globalfifo/Threads/Finish.antt =====
-- globalfifo.c: wherever a section is, its own pieces lead to its end.
use lkm_practice.Base.{
  ℕ, ◌+◌, ◌-◌, ◌≤◌, ◌≡◌, refl, Bool, true, false, List, [], ◌++◌, ◌==◌, arith, inl, inr, Bool-cases,
  window, if◌then◌else◌,
}
use lkm_practice.Kernel.{eagain, err, Uaccess, Ret}
use lkm_practice.Globalfifo.{Fifo, size}
use lkm_practice.Globalfifo.Threads.{
  Section, reads, writes, clears, Stage, start, sleeping, copying_out, moved, copying_in, clearing,
  returning, tests, Work, read_again, read_begins, copies_out, copy_faults, moves, shortens,
  write_again, write_begins, copies_in, write_faults, lengthens, empties, zeroes_out, cleared,
  is_entry,
}
use lkm_practice.Globalfifo.Threads.Sections.{At}

-- Pieces of a section, one after the other.
pub data Pieces (k : Uaccess) (sec : Section) : Fifo → Stage → Fifo → Stage → Type 0 where
  no_more : {dev : Fifo} {st : Stage} → Pieces k sec dev st dev st
  piece :
      {dev dev' dev'' : Fifo} {st st' st'' : Stage}
      → Work k dev sec st dev' st'
      → Pieces k sec dev' st' dev'' st''
      → Pieces k sec dev st dev'' st''

-- Where a section ends: at its up(), or before the sleep.
pub data Final (sec : Section) : Stage → Type 0 where
  at_up : (ret : Ret) (sent : List ℕ) → Final sec (returning ret sent)
  at_sleep : is_entry sec ≡ true → Final sec sleeping

abbrev pub Finish : Uaccess → Section → Fifo → Stage → Type 0
Finish k sec dev st = (dev' : Fifo) × (st' : Stage) × Pieces k sec dev st dev' st' × Final sec st'

module _ (k : Uaccess) where
  before :
      {sec : Section} {dev dev' : Fifo} {st st' : Stage}
      → Work k dev sec st dev' st'
      → Finish k sec dev' st'
      → Finish k sec dev st
  before work (dev'', st'', rest, final) = (dev'', st'', piece work rest, final)

  at_once : {sec : Section} {dev : Fifo} {st : Stage} → Final sec st → Finish k sec dev st
  at_once {sec} {dev} {st} final = (dev, st, no_more, final)

  finish_out :
      (sec : Section) (buf n j : ℕ) (got : List ℕ) (dev : Fifo)
      → j ≤ n
      → Finish k sec dev (copying_out buf n j got)
  finish_out sec buf n j got dev below =
      let all = got ++ window j (n - j) dev.mem in
      let rest : Finish k sec dev (copying_out buf n (j + (n - j)) all) =
        elim (Bool-cases (k.to_user buf all == 0)) [
          | inl good ↦
              before (moves sec buf n (j + (n - j)) all (omega arith) good)
                (before (shortens sec n all) (at_once (at_up _ _)))
          | inr bad ↦
              before (copy_faults sec buf n (j + (n - j)) all (omega arith) bad)
                (at_once (at_up _ _))
        ] in
      before (copies_out sec buf n j (n - j) got (omega arith)) rest

  finish_in :
      (sec : Section) (buf n j : ℕ) (dev : Fifo) → j ≤ n → Finish k sec dev (copying_in buf n j)
  finish_in sec buf n j dev below =
      before (copies_in sec buf n j (n - j) (omega arith))
        (elim (Bool-cases ((k.from_user buf n).0 == 0)) [
          | inl good ↦
              before (lengthens sec buf n (j + (n - j)) (omega arith) good) (at_once (at_up _ _))
          | inr bad ↦
              before (write_faults sec buf n (j + (n - j)) (omega arith) bad) (at_once (at_up _ _))
        ])

  finish_clear : (sec : Section) (j : ℕ) (dev : Fifo) → j ≤ size → Finish k sec dev (clearing j)
  finish_clear sec j dev below =
      before (zeroes_out sec j (size - j) (omega arith))
        (before (cleared sec (j + (size - j)) (omega arith)) (at_once (at_up _ _)))

  refused :
      (sec : Section) (nonblock : Bool) (dev : Fifo)
      → is_entry sec ≡ true
      → Finish k sec dev (if nonblock then returning (err eagain) [] else sleeping)
  refused sec true dev entry = at_once (at_up _ _)
  refused sec false dev entry = at_once (at_sleep entry)

  pub finish_start : (sec : Section) (dev : Fifo) → Finish k sec dev start
  finish_start clears dev =
      before empties (finish_clear clears 0 (record dev { current_len = 0 }) (omega arith))
  finish_start (reads false nonblock buf count) dev =
      before (read_begins false nonblock buf count refl) (finish_out _ _ _ _ _ _ (omega arith))
  finish_start (reads true nonblock buf count) dev = elim (Bool-cases (tests true 0 dev)) [
    | inr goes ↦
        before (read_begins true nonblock buf count goes) (finish_out _ _ _ _ _ _ (omega arith))
    | inl empty ↦ before (read_again true nonblock buf count empty) (refused _ nonblock dev refl)
  ]
  finish_start (writes false nonblock buf count) dev =
      before (write_begins false nonblock buf count refl) (finish_in _ _ _ _ _ (omega arith))
  finish_start (writes true nonblock buf count) dev = elim (Bool-cases (tests true size dev)) [
    | inr goes ↦
        before (write_begins true nonblock buf count goes) (finish_in _ _ _ _ _ (omega arith))
    | inl full ↦ before (write_again true nonblock buf count full) (refused _ nonblock dev refl)
  ]

  asleep-entry :
      (sec : Section) {dev0 dev : Fifo} → At k sec dev0 dev sleeping → is_entry sec ≡ true
  asleep-entry (reads true nonblock buf count) h = refl
  asleep-entry (reads false nonblock buf count) (pre, e, same) = absurd (ground (arith, e))
  asleep-entry (writes true nonblock buf count) h = refl
  asleep-entry (writes false nonblock buf count) (pre, e, same) = absurd (ground (arith, e))
  asleep-entry clears h = refl

  -- From wherever a section is, its own pieces lead to its end.
  pub finish :
      (sec : Section) (st : Stage) (dev0 dev : Fifo) → At k sec dev0 dev st → Finish k sec dev st
  finish sec start dev0 dev h = finish_start sec dev
  finish sec sleeping dev0 dev h = at_once (at_sleep (asleep-entry sec h))
  finish sec (copying_out buf n j got) dev0 dev (reading, below, same, has) =
      finish_out sec buf n j got dev below
  finish sec (moved n got) dev0 dev h = before (shortens sec n got) (at_once (at_up _ _))
  finish sec (copying_in buf n j) dev0 dev (writing, below, same) = finish_in sec buf n j dev below
  finish sec (clearing j) dev0 dev (result, below, same) = finish_clear sec j dev below
  finish sec (returning ret sent) dev0 dev h = at_once (at_up ret sent)
