-- ===== src/Globalfifo/Observed/Tests.antt =====
-- globalfifo.c: two devices that differ behind current_len only.
use lkm_practice.Base.{[], ◌∷◌, arith, zeroes, blit, length-blit, length-zeroes, ◌∙◌}
use mathlib.Core.Quot
use lkm_practice.Globalfifo.{size}
use lkm_practice.Globalfifo.Observed.{Device}

abbrev clean : Device
clean = (
  record { current_len = 0; mem = zeroes size; async_queue = [] },
  record { full_array = length-zeroes size; within = omega arith },
)

-- A byte 7 was read and is still in the array.
abbrev stale : Device
stale = (
  record { current_len = 0; mem = blit (zeroes size) 0 (7 ∷ []); async_queue = [] },
  record {
    full_array =
        length-blit (zeroes size) 0 (7 ∷ []) (omega (arith, length-zeroes size))
        ∙ length-zeroes size;
    within = omega arith;
  },
)
