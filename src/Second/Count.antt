-- ===== src/Second/Count.antt =====
-- second.c: what a reader is told of the time since the device was opened.
use lkm_practice.Base.{
  ℕ, ◌+◌, ◌*◌, ◌%◌, ◌^◌, ◌≤◌, ◌<◌, ◌≡◌, refl, ap, true, false, none, some, arith, leb, word64, inl,
  inr, Bool-cases, leb→le, sym, ◌∙◌,
}
use lkm_practice.Kernel.{ok}
use lkm_practice.Second.{Dev, timer_handler, open_file, read}
use lkm_practice.Second.Timer.{
  due, in_time, World, Step, tick, expire, handle, Run, stay, next, lag_after, due_iff,
}

-- The device is opened while its timer is not pending and no handler runs.
abbrev pub Opened : ℕ → ℕ → Dev → World → Type 0
Opened hz clock dev s =
    (open_file hz (word64 clock) dev ≡ some s.dev) × (s.clock ≡ clock) × (s.running ≡ none)

-- The timer was set at `last`, and its handler has not run since.
pub data Awaited (s : World) (due_at : ℕ) : Type 0 where
  pending : s.dev.s_timer ≡ some (word64 due_at) → s.running ≡ none → Awaited s due_at
  handled :
      s.dev.s_timer ≡ none → s.running ≡ some (word64 due_at) → due_at ≤ s.clock → Awaited s due_at

-- The handler has run `c` times, and at `last` for the last time.
pub record Counting (hz late start : ℕ) (s : World) (c last : ℕ) : Type 0 where
  pub counter : s.dev.counter ≡ c % 2 ^ 32
  pub not_fast : start + c * hz ≤ last
  pub not_slow : last ≤ start + c * (hz + late)
  pub since : last ≤ s.clock
  pub timely : s.clock ≤ last + (hz + late)
  pub awaited : Awaited s (last + hz)

module _ (hz late : ℕ) (small : hz + late < 2 ^ 63) where
  pub opened-Counting :
      (clock : ℕ) (dev : Dev) {s : World} → Opened hz clock dev s → Counting hz late clock s 0 clock
  unfolding open_file
  opened-Counting clock dev {s} (opens, now, idle) =
      let fresh : s.dev ≡ record { counter = 0; s_timer = some (word64 (word64 clock + hz)) } =
        ground (arith, opens) in
      let same : word64 (word64 clock + hz) ≡ word64 (clock + hz) = omega arith in
      record {
        counter = ap (λ d. d.counter) fresh;
        not_fast = omega arith;
        not_slow = omega arith;
        since = omega (arith, now);
        timely = omega (arith, now);
        awaited = pending (ap (λ d. d.s_timer) fresh ∙ ap some same) idle;
      }

  -- A clock that may go on is not past the latest time for the handler.
  in_time_lem :
      (clock last : ℕ)
      → last ≤ clock
      → clock ≤ last + (hz + late)
      → in_time late clock (some (word64 (last + hz))) ≡ true
      → clock + 1 ≤ last + (hz + late)
  in_time_lem clock last since near h =
      let same = due_iff clock last hz since (omega arith) (omega arith) in
      elim (Bool-cases (leb (last + hz) clock)) [
        | inl after ↦
            let exact = lag_after clock last hz (ground arith) (omega arith) in
            ground (arith, same, exact, h)
        | inr before ↦ ground arith
      ]

  handled-Counting :
      (start : ℕ) {s : World} (c last : ℕ)
      → Counting hz late start s c last
      → last + hz ≤ s.clock
      → Counting hz late start
          (record s { dev = timer_handler hz (word64 s.clock) s.dev; running = none })
          (c + 1)
          s.clock
  unfolding timer_handler
  handled-Counting start {s} c last v past = record {
    counter = omega (arith, v.counter);
    not_fast = omega (arith, v.not_fast);
    not_slow = omega (arith, v.not_slow, v.timely);
    since = omega arith;
    timely = omega arith;
    awaited = pending (ap some (omega arith)) refl;
  }

  Step-Counting :
      (start : ℕ) {s t : World} (c last : ℕ)
      → Counting hz late start s c last
      → Step hz late s t
      → (c' : ℕ) × (last' : ℕ) × Counting hz late start t c' last'
  Step-Counting start {s} c last v (tick timer_fits handler_fits) = elim v.awaited [
    | pending set idle ↦
        let fits =
          in_time_lem s.clock last v.since v.timely
            (ap (in_time late s.clock) (sym set) ∙ timer_fits) in
        (
          c,
          last,
          record {
            counter = v.counter;
            not_fast = v.not_fast;
            not_slow = v.not_slow;
            since = omega (arith, v.since);
            timely = fits;
            awaited = pending set idle;
          },
        )
    | handled taken runs reached ↦
        let fits =
          in_time_lem s.clock last v.since v.timely
            (ap (in_time late s.clock) (sym runs) ∙ handler_fits) in
        (
          c,
          last,
          record {
            counter = v.counter;
            not_fast = v.not_fast;
            not_slow = v.not_slow;
            since = omega (arith, v.since);
            timely = fits;
            awaited = handled taken runs (omega arith);
          },
        )
  ]
  Step-Counting start {s} c last v (expire e set reached idle) = elim v.awaited [
    | handled taken runs past ↦ absurd (ground (arith, taken, set))
    | pending set' idle' ↦
        let same : e ≡ word64 (last + hz) = ground (arith, set, set') in
        let known = due_iff s.clock last hz v.since (omega (arith, v.timely)) (omega arith) in
        let there : leb (last + hz) s.clock ≡ true =
          sym known ∙ ap (due s.clock) (sym same) ∙ reached in
        (
          c,
          last,
          record {
            counter = v.counter;
            not_fast = v.not_fast;
            not_slow = v.not_slow;
            since = v.since;
            timely = v.timely;
            awaited = handled refl (ap some same) (leb→le (last + hz) s.clock there);
          },
        )
  ]
  Step-Counting start {s} c last v (handle e runs) = elim v.awaited [
    | pending set idle ↦ absurd (ground (arith, runs, idle))
    | handled taken runs' past ↦ (c + 1, s.clock, handled-Counting start c last v past)
  ]

  pub Run-Counting :
      (start : ℕ) {s t : World}
      → Counting hz late start s 0 start
      → Run hz late s t
      → (c : ℕ) × (last : ℕ) × Counting hz late start t c last
  Run-Counting start v stay = (0, start, v)
  Run-Counting start v (next run step) =
      let (c, last, v') = Run-Counting start v run in Step-Counting start c last v' step

  -- While HZ and `late`, the most that the kernel is late with the timer, are together below 2 ^ 63, a
  -- read of the open device gives the low 32 bits of a number of seconds: that many times HZ ticks at
  -- least have passed since the device was opened, and one time more HZ and `late` ticks at most, also
  -- when jiffies wraps meanwhile. The conditions: when the device was opened its timer was not
  -- pending and no handler ran, and nobody opens or releases it since.
  pub read-counts :
      (clock : ℕ) (dev : Dev) {o s : World}
      → Opened hz clock dev o
      → Run hz late o s
      → (c : ℕ) × (read false s.dev ≡ record { ret = ok 4; sent = some (c % 2 ^ 32) })
        × (clock + c * hz ≤ s.clock)
        × (s.clock ≤ clock + (c + 1) * (hz + late))
  unfolding read
  read-counts clock dev opens run =
      let (c, last, v) = Run-Counting clock (opened-Counting clock dev opens) run in
      (
        c,
        ground (arith, v.counter),
        omega (arith, v.not_fast, v.since),
        omega (arith, v.not_slow, v.timely),
      )

  -- A timer that was just set lets the clock go on.
  pub ticks_on :
      (s : World)
      → 0 < hz
      → s.dev.s_timer ≡ some (word64 (word64 s.clock + hz))
      → s.running ≡ none
      → Step hz late s (record s { clock = s.clock + 1 })
  ticks_on s positive set idle =
      let same : word64 (word64 s.clock + hz) ≡ word64 (s.clock + hz) = omega arith in
      let known = due_iff s.clock s.clock hz (omega arith) (omega arith) (omega arith) in
      tick (ground (arith, set, same, known)) (ground (arith, idle))
