-- ===== src/Second/Alive.antt =====
-- second.c: the open device keeps counting, however long it stays open.
use lkm_practice.Base.{
  ℕ, zero, suc, ◌+◌, ◌-◌, ◌*◌, ◌%◌, ◌^◌, ◌≤◌, ◌<◌, ◌≡◌, refl, ap, false, some, none, arith, leb,
  Bool-cases, inl, inr, word64, ◌∙◌,
}
use lkm_practice.Kernel.{ok}
use lkm_practice.Second.{Dev, timer_handler, read}
use lkm_practice.Second.Timer.{World, tick, expire, handle, Run, stay, next, due_iff}
use lkm_practice.Second.Count.{
  Opened, pending, handled, Counting, opened-Counting, Run-Counting, ticks_on, read-counts,
}

at_least : (k n c : ℕ) → 0 < k → (n + 1) * k ≤ (c + 1) * k → n ≤ c
at_least k n c positive h = elim (Bool-cases (leb n c)) [
  | inl fine ↦ ground arith
  | inr less ↦
      let gap : n ≡ c + 1 + (n - (c + 1)) = ground arith in
      let wide : (n + 1) * k ≡ (c + 1 + (n - (c + 1)) + 1) * k = ap (λ m. (m + 1) * k) gap in
      absurd (omega arith)
]

module _ (hz late : ℕ) (small : hz + late < 2 ^ 63) (positive : 0 < hz) where
  handle_ticks :
      (s t : World) (e : ℕ)
      → Run hz late s t
      → t.running ≡ some e
      → (u : World) × Run hz late s u × (u.clock ≡ t.clock + 1)
  unfolding timer_handler
  handle_ticks s t e run runs =
      let t' : World = record t { dev = timer_handler hz (word64 t.clock) t.dev; running = none } in
      (
        record t' { clock = t.clock + 1 },
        next (next run (handle e runs)) (ticks_on hz late small t' positive refl refl),
        refl,
      )

  one_tick :
      (start : ℕ) (s t : World) (c last : ℕ)
      → Counting hz late start t c last
      → Run hz late s t
      → (u : World) × Run hz late s u × (u.clock ≡ t.clock + 1)
  one_tick start s t c last v run = elim v.awaited [
    | handled taken runs past ↦ handle_ticks s t (word64 (last + hz)) run runs
    | pending set idle ↦
        let known = due_iff t.clock last hz v.since (omega (arith, v.timely)) (omega arith) in
        elim (Bool-cases (leb (last + hz) t.clock)) [
          | inl past ↦
              handle_ticks s
                (record t {
                  dev = record t.dev { s_timer = none };
                  running = some (word64 (last + hz));
                })
                (word64 (last + hz))
                (next run (expire (word64 (last + hz)) set (known ∙ past) idle)) refl
          | inr early ↦ (
            record t { clock = t.clock + 1 },
            next run (tick (ground (arith, set, known, early)) (ground (arith, idle))),
            refl,
          )
        ]
  ]

  any_ticks :
      (clock : ℕ) (dev : Dev) {o : World}
      → Opened hz clock dev o
      → (n : ℕ) → (u : World) × Run hz late o u × (u.clock ≡ clock + n)
  any_ticks clock dev {o} opens zero = (o, stay, omega (arith, opens.1))
  any_ticks clock dev {o} opens (suc n) =
      let (t, run, at_n) = any_ticks clock dev opens n in
      let (c, last, v) =
        Run-Counting hz late small clock (opened-Counting hz late small clock dev opens) run in
      let (u, run', at_next) = one_tick clock o t c last v run in (u, run', omega arith)

  -- For a positive HZ, and HZ and `late` together below 2 ^ 63, the timer does not stop of itself: the
  -- kernel can let `n` + 1 times HZ and `late` ticks pass with the device open, and a read then gives
  -- the low 32 bits of a number of seconds that is `n` or more. The conditions: when the device
  -- was opened its timer was not pending and no handler ran, and nobody opens or releases it since.
  pub keeps_counting :
      (clock : ℕ) (dev : Dev) {o : World}
      → Opened hz clock dev o
      → (n : ℕ)
      → (t : World) × (c : ℕ) × Run hz late o t
        × (t.clock ≡ clock + (n + 1) * (hz + late))
        × (read false t.dev ≡ record { ret = ok 4; sent = some (c % 2 ^ 32) })
        × (n ≤ c)
  keeps_counting clock dev opens n =
      let (t, run, there) = any_ticks clock dev opens ((n + 1) * (hz + late)) in
      let (c, says, ahead, behind) = read-counts hz late small clock dev opens run in
      (t, c, run, there, says, at_least (hz + late) n c (omega arith) (omega arith))
