-- ===== src/Second/Timer.antt =====
-- second.c: the device together with the clock and the kernel's handling of its timer.
use lkm_practice.Base.{
  ℕ, ◌+◌, ◌-◌, ◌^◌, ◌≤◌, ◌<◌, ◌≡◌, Bool, true, ◌||◌, not, Option, none, some, arith, ltb, leb,
  word64,
}
use lkm_practice.Base.{inl, inr, Bool-cases}
use lkm_practice.Second.{Dev, timer_handler}

-- How far jiffies is behind a value `e` of it, as a word.
unfoldable pub lag : ℕ → ℕ → ℕ
lag clock e = word64 (word64 clock + 2 ^ 64 - e)

-- time_after_eq(jiffies, e)
unfoldable pub due : ℕ → ℕ → Bool
due clock e = ltb (lag clock e) (2 ^ 63)

-- `clock` is the number of ticks since the start, of which jiffies is the low word; `running` is set
-- from the moment when the kernel takes the timer off its list to the end of the handler, to the
-- value that the timer had.
pub record World : Type 0 where
  pub clock : ℕ
  pub dev : Dev
  pub running : Option ℕ

-- Whether the clock may go on: no timer and no handler is to be late by more than `late` ticks.
abbrev pub in_time : ℕ → ℕ → Option ℕ → Bool
in_time late clock none = true
in_time late clock (some e) = not (due clock e) || ltb (lag clock e) late

-- What the clock and the kernel do of themselves, for a rate `hz` of the clock.
pub data Step (hz late : ℕ) (s : World) : World → Type 0 where
  tick :
      in_time late s.clock s.dev.s_timer ≡ true
      → in_time late s.clock s.running ≡ true
      → Step hz late s (record s { clock = s.clock + 1 })
  expire :
      (e : ℕ)
      → s.dev.s_timer ≡ some e
      → due s.clock e ≡ true
      → s.running ≡ none
      → Step hz late s (record s { dev = record s.dev { s_timer = none }; running = some e })
  handle :
      (e : ℕ)
      → s.running ≡ some e
      → Step hz late s (record s { dev = timer_handler hz (word64 s.clock) s.dev; running = none })

pub data Run (hz late : ℕ) (s : World) : World → Type 0 where
  stay : Run hz late s s
  next : {t u : World} → Run hz late s t → Step hz late t u → Run hz late s u

-- A timer that was set `hz` ticks ahead is due once the clock is there, and not before, also where
-- jiffies wraps in between.
pub lag_after :
    (clock last hz : ℕ)
    → last + hz ≤ clock
    → clock < last + 2 ^ 63
    → lag clock (word64 (last + hz)) ≡ clock - (last + hz)
unfolding lag
lag_after clock last hz after near = omega arith

pub lag_before :
    (clock last hz : ℕ)
    → clock < last + hz
    → last ≤ clock
    → hz < 2 ^ 63
    → 2 ^ 63 < lag clock (word64 (last + hz))
unfolding lag
lag_before clock last hz before since near = omega arith

pub due_iff :
    (clock last hz : ℕ)
    → last ≤ clock
    → clock < last + 2 ^ 63
    → hz < 2 ^ 63
    → due clock (word64 (last + hz)) ≡ leb (last + hz) clock
unfolding due
due_iff clock last hz since near small = elim (Bool-cases (leb (last + hz) clock)) [
  | inl after ↦ let exact = lag_after clock last hz (ground arith) near in ground (arith, exact)
  | inr before ↦
      let far = lag_before clock last hz (ground arith) since small in ground (arith, far)
]
