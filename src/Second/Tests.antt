-- ===== src/Second/Tests.antt =====
-- second.c: runs at concrete inputs. The clock has two ticks in a second, and jiffies wraps while the
-- device is open.
use lkm_practice.Base.{
  ℕ, ◌+◌, ◌-◌, ◌*◌, ◌%◌, ◌^◌, ◌≤◌, ◌≡◌, refl, true, false, some, none, arith, word64,
}
use lkm_practice.Kernel.{ok, err, efault}
use lkm_practice.Second.{Dev, open_file, timer_handler, release, read}
use lkm_practice.Second.Timer.{lag, due, World, tick, expire, handle, Run, stay, next}
use lkm_practice.Second.Count.{Opened, read-counts}
use lkm_practice.Second.Alive.{keeps_counting}
use lkm_practice.Second.Release.{closed, release-stops}

abbrev unused_dev : Dev
unused_dev = record { counter = 7; s_timer = none }

abbrev late_boot : ℕ
late_boot = 2 ^ 64 - 1

abbrev expired : World
expired = record {
  clock = late_boot + 2;
  dev = record { counter = 0; s_timer = none };
  running = some 1;
}

abbrev one_second : World
one_second = record {
  clock = late_boot + 2;
  dev = record { counter = 1; s_timer = some 3 };
  running = none;
}

abbrev just_opened : World
just_opened = record {
  clock = late_boot;
  dev = record { counter = 0; s_timer = some (word64 (word64 late_boot + 2)) };
  running = none;
}

opened_now : Opened 2 late_boot unused_dev just_opened
unfolding open_file
opened_now = (refl, refl, refl)

one_expired : Run 2 0 just_opened expired
unfolding lag due
one_expired = next (next (next stay (tick refl refl)) (tick refl refl)) (expire 1 refl refl refl)

one_counted : Run 2 0 just_opened one_second
unfolding timer_handler
one_counted = next one_expired (handle 1 refl)

read-counts_example :
    (c : ℕ) × (read false one_second.dev ≡ record { ret = ok 4; sent = some (c % 2 ^ 32) })
    × (late_boot + c * 2 ≤ late_boot + 2)
    × (late_boot + 2 ≤ late_boot + (c + 1) * (2 + 0))
read-counts_example = read-counts 2 0 (omega arith) late_boot unused_dev opened_now one_counted

keeps_counting_example :
    (t : World) × (c : ℕ) × Run 2 1 just_opened t
    × (t.clock ≡ late_boot + (10 + 1) * (2 + 1))
    × (read false t.dev ≡ record { ret = ok 4; sent = some (c % 2 ^ 32) })
    × (10 ≤ c)
keeps_counting_example =
    keeps_counting 2 1 (omega arith) (omega arith) late_boot unused_dev opened_now 10

abbrev closed_later : World
closed_later = record {
  clock = late_boot + 3;
  dev = record { counter = 1; s_timer = none };
  running = none;
}

stays_shut : Run 2 0 (closed one_second) closed_later
unfolding release lag due
stays_shut = next stay (tick refl refl)

release-stops_example :
    (read false closed_later.dev ≡ read false one_second.dev)
    × (closed_later.dev.s_timer ≡ none)
    × (closed_later.running ≡ none)
release-stops_example = release-stops 2 0 one_second refl stays_shut

read_faults : (read true one_second.dev).ret ≡ err efault
unfolding read
read_faults = refl
