-- ===== src/Globalfifo/Sleepers/Tests.antt =====
-- globalfifo.c: sleepers that were not woken.
use lkm_practice.Base.{◌≡◌, refl, true, false, [], ◌∷◌, zeroes, take, ◌++◌}
use lkm_practice.Kernel.{ok}
use lkm_practice.Globalfifo.{
  write_copy, write_enter, read_copy, write_wake, enqueued, r_wait, w_wait,
}
use lkm_practice.Globalfifo.Sleepers.Served.{writer_served}
use lkm_practice.Kernel.Samples.{mapped, mapped-IsFilling}
use lkm_practice.Globalfifo.{size}
use lkm_practice.Globalfifo.Stream.{fresh_dev}
use lkm_practice.Globalfifo.Sleepers.{
  idle, reading, writing, System, update, after, call_write, sleep_write, fresh, Run, stay, next,
}
use lkm_practice.Globalfifo.Queue.{contents}
use lkm_practice.Globalfifo.Sleepers.Awake.{clear-strands}

-- Process 2 reads of the fresh device.
abbrev one_asleep : System
one_asleep = record {
  dev = fresh.dev;
  process = update fresh.process 2 (reading false 0 5);
  cleared = fresh.cleared;
}

-- A device that is full, on which process 1 waits for room.
abbrev full_wait : System
full_wait = record {
  dev = record { current_len = size; mem = zeroes size; async_queue = [] };
  process = update (λ i. idle) 1 (writing false 10 3);
  cleared = false;
}

clear-strands_example :
    (t : System) × Run mapped full_wait t
    × (t.dev.current_len ≡ 0)
    × (t.process 1 ≡ writing false 10 3)
    × (t.process 2 ≡ reading false 0 4)
clear-strands_example = clear-strands mapped 1 2 10 3 0 4 refl refl refl

-- Process 2 fills the device; process 1 waits for room for three bytes.
abbrev full_device : System
full_device = after 2 (write_copy mapped (enqueued w_wait) 0 size fresh.dev) fresh

abbrev writer_asleep : System
writer_asleep = record full_device { process = update full_device.process 1 (writing false 10 3) }

writer_asleep-Run : Run mapped fresh writer_asleep
unfolding fresh fresh_dev write_enter write_copy
writer_asleep-Run =
    next (next stay (call_write 2 true 0 size refl refl)) (sleep_write 1 10 3 refl refl)

-- Process 2 reads two bytes.
writer_served_example :
    let d = read_copy mapped (enqueued r_wait) 50 2 writer_asleep.dev in
    let d' = write_wake mapped false 10 3 d.dev in
    Run mapped writer_asleep (after 1 d' (after 2 d writer_asleep))
    × (d.ret ≡ ok 2)
    × (d.sent ≡ take 2 (contents writer_asleep.dev))
    × (d'.ret ≡ ok 2)
    × (contents d'.dev ≡ contents d.dev ++ 10 ∷ 11 ∷ [])
unfolding fresh
writer_served_example =
    writer_served mapped mapped-IsFilling 1 2 10 3 50 2 true writer_asleep-Run refl refl refl refl
      refl refl
