-- ===== src/Globalfifo/Threads/Tests.antt =====
-- globalfifo.c: a run in which a read waits for the semaphore while a write copies.
use lkm_practice.Base.{ℕ, ◌≡◌, ◌≢◌, refl, true, false, some, none, [], ◌∷◌, arith, blit}
use lkm_practice.Kernel.{ok}
use lkm_practice.Kernel.Samples.{mapped, mapped-IsFilling}
use lkm_practice.Globalfifo.Stream
use lkm_practice.Globalfifo.Stream.{fresh_dev}
use lkm_practice.Globalfifo.Threads.{
  Section, reads, writes, start, copying_in, returning, write_begins, copies_in, lengthens, idle,
  waiting, inside, System, update, calls, downs, works, ups, fresh, Reach, begin, next,
}
use lkm_practice.Globalfifo.Threads.Steps.{stream_of}
use lkm_practice.Globalfifo.Threads.Progress.{Run, Out, waiting_served}
use lkm_practice.Globalfifo.Threads.Atomic.{sections-Reach}

abbrev write_three : Section
write_three = writes true false 10 3

abbrev read_two : Section
read_two = reads true false 0 2

abbrev called : System
called = record fresh {
  process = update (update fresh.process 0 (waiting write_three)) 1 (waiting read_two);
}

abbrev locked : System
locked = record called {
  owner = some 0;
  process = update called.process 0 (inside write_three start);
}

abbrev begun : System
begun = record locked { process = update locked.process 0 (inside write_three (copying_in 10 3 0)) }

abbrev one_copied : System
one_copied = record begun {
  dev = record begun.dev { mem = blit begun.dev.mem 0 (10 ∷ []) };
  process = update begun.process 0 (inside write_three (copying_in 10 3 1));
}

abbrev all_copied : System
all_copied = record one_copied {
  dev = record one_copied.dev { mem = blit one_copied.dev.mem 1 (11 ∷ 12 ∷ []) };
  process = update one_copied.process 0 (inside write_three (copying_in 10 3 3));
}

abbrev stored : System
stored = record all_copied {
  dev = record all_copied.dev { current_len = 3 };
  process = update all_copied.process 0 (inside write_three (returning (ok 3) []));
}

abbrev unlocked : System
unlocked = record stored {
  owner = none;
  process = update stored.process 0 idle;
  written = 10 ∷ 11 ∷ 12 ∷ [];
}

-- Process 0 holds the semaphore, with one byte copied; process 1 waits for it.
one_copied-Reach : Reach mapped one_copied
unfolding fresh fresh_dev
one_copied-Reach =
    next
      (next
        (next (next (next begin (calls 0 write_three refl refl)) (calls 1 read_two refl refl))
          (downs 0 write_three refl refl))
        (works 0 write_three start (copying_in 10 3 0) locked.dev refl
          (write_begins true false 10 3 refl)))
      (works 0 write_three (copying_in 10 3 0) (copying_in 10 3 1) one_copied.dev refl
        (copies_in write_three 10 3 0 1 (omega arith)))

unlocked-Reach : Reach mapped unlocked
unfolding fresh fresh_dev
unlocked-Reach =
    next
      (next
        (next one_copied-Reach (
          works 0 write_three (copying_in 10 3 1) (copying_in 10 3 3) all_copied.dev refl
            (copies_in write_three 10 3 1 2 (omega arith))))
        (works 0 write_three (copying_in 10 3 3) (returning (ok 3) []) stored.dev refl
          (lengthens write_three 10 3 3 refl refl)))
      (ups 0 write_three (ok 3) [] refl)

waiting_served_example :
    (t : System) × Run mapped one_copied t
    × (t.owner ≡ none)
    × Out 1 read_two t
    × ((m : ℕ) → 1 ≢ m → one_copied.owner ≢ some m → t.process m ≡ one_copied.process m)
waiting_served_example = waiting_served mapped mapped-IsFilling 1 read_two one_copied-Reach refl

sections-Reach_example : Stream.Reach mapped (stream_of unlocked unlocked.dev)
sections-Reach_example = sections-Reach mapped mapped-IsFilling unlocked-Reach refl
