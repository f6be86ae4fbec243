-- ===== src/Programs/Seconds.antt =====
-- second/second_test.c: a program that prints the seconds since it opened the device.
use lkm_practice.Base.{
  ℕ, ◌+◌, ◌*◌, ◌^◌, ◌≤◌, ◌<◌, ◌≡◌, ap, Bool, true, false, Option, none, some, List, [], ◌∷◌, ◌++◌,
  arith, ◌==◌, if◌then◌else◌, inl, inr, Bool-cases,
}
use native.Mathlib.Nat.{lt_of_mul-lt-mul_right}
use std.Path.{transport}
use lkm_practice.Second.{Dev, read, timer_handler}
use lkm_practice.Second.Timer.{World, Step, tick, expire, handle, Run, stay, next}
use lkm_practice.Second.Count.{Opened, opened-Counting, Run-Counting}

pub data Line : Type 0 where
  debug : (counter old_counter : ℕ) → Line
  seconds : ℕ → Line
  open_failure : Line

-- The int that a read leaves in `counter`: that of the device, or what it was where put_user fails.
pub read_into : ℕ → Bool × Dev → ℕ
read_into counter (faults, dev) = elim (read faults dev).sent [ none ↦ counter | some n ↦ n ]

-- The loop, at the devices that it reads in turn, each with whether put_user fails.
pub loop : (counter old_counter : ℕ) → List (Bool × Dev) → List Line
loop counter old_counter [] = []
loop counter old_counter (r ∷ rs) =
    let counter' = read_into counter r in
    debug counter old_counter ∷ (if counter' == old_counter then [] else seconds counter' ∷ [])
    ++ loop counter' counter' rs

-- main, by what it reads if open succeeds.
pub main : Option (List (Bool × Dev)) → List Line
main none = open_failure ∷ []
main (some rs) = loop 0 0 rs

-- The seconds that are printed.
abbrev pub seconds_in : List Line → List ℕ
seconds_in [] = []
seconds_in (seconds n ∷ ls) = n ∷ seconds_in ls
seconds_in (debug c o ∷ ls) = seconds_in ls
seconds_in (open_failure ∷ ls) = seconds_in ls

-- Numbers that go up, from above `low`, to `high`.
pub data Climbs : (low high : ℕ) → List ℕ → Type 0 where
  at_top : {n : ℕ} → Climbs n n []
  up : {low x high : ℕ} {xs : List ℕ} → low < x → Climbs x high xs → Climbs low high (x ∷ xs)

-- What the program has read in the end, from what it had.
abbrev pub latest : ℕ → List (Bool × Dev) → ℕ
latest counter [] = counter
latest counter (r ∷ rs) = latest (read_into counter r) rs

-- What is read of the open device, from the world `s` and before the time `limit`: the clock and the
-- timer go on between two reads.
pub data Watched (hz late limit : ℕ) : World → List (Bool × Dev) → Type 0 where
  unread : {s : World} → Watched hz late limit s []
  then_read :
      {s t : World} {rs : List (Bool × Dev)} (faults : Bool)
      → Run hz late s t
      → t.clock < limit
      → Watched hz late limit t rs
      → Watched hz late limit s ((faults, t.dev) ∷ rs)

module _ (hz late : ℕ) (small : hz + late < 2 ^ 63) (clock : ℕ) (dev : Dev) {o : World}
    (opens : Opened hz clock dev o) where
  append-Run : {s t u : World} → Run hz late s t → Run hz late t u → Run hz late s u
  append-Run r stay = r
  append-Run r (next r' step) = next (append-Run r r') step

  Step_clock : {s t : World} → Step hz late s t → s.clock ≤ t.clock
  Step_clock (tick a b) = omega arith
  Step_clock (expire e a b c) = omega arith
  Step_clock (handle e a) = omega arith

  -- The handler has run less than 2 ^ 31 times before that many seconds are over.
  small_counter :
      {s : World} → Run hz late o s → s.clock < clock + 2 ^ 31 * hz → s.dev.counter < 2 ^ 31
  small_counter run early =
      let (c, last, v) =
        Run-Counting hz late small clock (opened-Counting hz late small clock dev opens) run in
      let few : c < 2 ^ 31 =
        lt_of_mul-lt-mul_right hz (omega (arith, v.not_fast, v.since, early)) in
      omega (arith, v.counter)

  Step_counter :
      {s t : World} → s.dev.counter < 2 ^ 31 → Step hz late s t → s.dev.counter ≤ t.dev.counter
  unfolding timer_handler
  Step_counter h (tick a b) = omega arith
  Step_counter h (expire e a b c) = omega arith
  Step_counter h (handle e a) = omega (arith, h)

  Run-counter :
      {s t : World}
      → Run hz late o s
      → Run hz late s t
      → t.clock < clock + 2 ^ 31 * hz
      → s.dev.counter ≤ t.dev.counter
  Run-counter before stay early = omega arith
  Run-counter before (next run step) early =
      let early' = Step_clock step in
      let known = small_counter (append-Run before run) (omega arith) in
      let counted = Step_counter known step in
      let rest = Run-counter before run (omega arith) in omega arith

  opened-read :
      (d : Dev) (faults : Bool) (counter : ℕ)
      → counter ≤ d.counter
      → (counter ≤ read_into counter (faults, d)) × (read_into counter (faults, d) ≤ d.counter)
  unfolding read_into read
  opened-read d true counter h = (omega arith, h)
  opened-read d false counter h = (h, omega arith)

  loop-Climbs :
      (counter : ℕ) {s : World} {rs : List (Bool × Dev)}
      → counter ≤ s.dev.counter
      → Run hz late o s
      → Watched hz late (clock + 2 ^ 31 * hz) s rs
      → Climbs counter (latest counter rs) (seconds_in (loop counter counter rs))
  unfolding loop
  loop-Climbs counter h before unread = at_top
  loop-Climbs counter h before (then_read {t = t} {rs = rs} faults run early rest) =
      let more = Run-counter before run early in
      let c' = read_into counter (faults, t.dev) in
      let last = opened-read t.dev faults counter (omega arith) in
      let rest' = loop-Climbs c' last.1 (append-Run before run) rest in
      elim (Bool-cases (c' == counter)) [
        | inl same ↦
            let equal : c' ≡ counter = ground arith in
            rw (loop, same)
              (transport (ap (λ n. Climbs n (latest c' rs) (seconds_in (loop c' c' rs))) equal)
                rest')
        | inr changed ↦ rw (loop, changed) (up (ground (arith, last.0)) rest')
      ]

  -- For HZ and `late` together below 2 ^ 63, and for 2 ^ 31 seconds after the device was opened, with
  -- its timer not pending and while no handler ran, whatever of the reads fail, the seconds that
  -- the program prints go up from above 0, and the last of them is the last number that it has
  -- read, as long as nobody else opens or releases the device.
  pub main-Climbs :
      {rs : List (Bool × Dev)}
      → Watched hz late (clock + 2 ^ 31 * hz) o rs
      → Climbs 0 (latest 0 rs) (seconds_in (main (some rs)))
  unfolding main
  main-Climbs w = loop-Climbs 0 (omega arith) stay w
