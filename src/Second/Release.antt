-- ===== src/Second/Release.antt =====
-- second.c: what happens after the file is closed.
use lkm_practice.Base.{ℕ, ◌+◌, ◌≡◌, refl, false, some, none, arith, word64}
use lkm_practice.Second.{timer_handler, release, read}
use lkm_practice.Second.Timer.{World, Step, tick, expire, handle, Run, stay, next}

-- The device is closed.
abbrev pub closed : World → World
closed s = record s { dev = release s.dev }

record Quiet (n : ℕ) (s : World) : Type 0 where
  counter : s.dev.counter ≡ n
  no_timer : s.dev.s_timer ≡ none
  no_handler : s.running ≡ none

module _ (hz late : ℕ) where
  Step-Quiet : (n : ℕ) {s t : World} → Quiet n s → Step hz late s t → Quiet n t
  Step-Quiet n q (tick a b) = record {
    counter = q.counter;
    no_timer = q.no_timer;
    no_handler = q.no_handler;
  }
  Step-Quiet n q (expire e set reached idle) = absurd (ground (arith, q.no_timer, set))
  Step-Quiet n q (handle e runs) = absurd (ground (arith, q.no_handler, runs))

  Run-Quiet : (n : ℕ) {s t : World} → Quiet n s → Run hz late s t → Quiet n t
  Run-Quiet n q stay = q
  Run-Quiet n q (next run step) = Step-Quiet n (Run-Quiet n q run) step

  -- Once the device is closed while no handler runs, nothing counts any more: however the clock goes
  -- on, a read gives what it gave before the closing, no timer is pending and no handler runs.
  pub release-stops :
      (s : World) {t : World}
      → s.running ≡ none
      → Run hz late (closed s) t
      → (read false t.dev ≡ read false s.dev) × (t.dev.s_timer ≡ none) × (t.running ≡ none)
  unfolding release read
  release-stops s idle run =
      let q =
        Run-Quiet s.dev.counter (record { counter = refl; no_timer = refl; no_handler = idle })
          run in
      (ground (arith, q.counter), q.no_timer, q.no_handler)

  -- When the device is closed while the handler runs, the handler sets the timer again: the timer is
  -- pending on a device that nobody has open, and that second_exit frees without stopping the timer.
  pub release-rearmed :
      (s : World) (e : ℕ)
      → s.running ≡ some e
      → (t : World) × Run hz late (closed s) t
        × (t.dev.s_timer ≡ some (word64 (word64 s.clock + hz)))
  unfolding release timer_handler
  release-rearmed s e runs = (
    record s { dev = timer_handler hz (word64 s.clock) (release s.dev); running = none },
    next stay (handle e runs),
    refl,
  )
