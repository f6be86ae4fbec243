-- ===== src/Globalfifo/Sleepers/Keeps.antt =====
-- globalfifo.c: what a stretch of a handler between two sleeps does to the reasons to sleep.
use lkm_practice.Base.{
  ℕ, ◌≡◌, refl, sym, ap, ◌∙◌, Bool, true, false, List, [], ◌∷◌, ◌++◌, ◌==◌, arith, ◌⊎◌, inl, inr,
  Bool-cases, take,
}
use std.Path.{transport}
use lkm_practice.Kernel.{Uaccess, IsFilling}
use lkm_practice.Globalfifo.{
  unlocked_ioctl, fifo_clear, sleeps, set_state, interruptible, up, schedule, Fifo, Done, done,
  sleeps, KernelCall, r_wait, w_wait, down, enqueued, size, read_copy, read_enter, read_wake,
  write_copy, write_enter, write_wake, unlocked_ioctl, fifo_clear, up, set_state, clamp, sub32,
}
use lkm_practice.Globalfifo.Invariant.{IsValid, read_copy-IsValid, write_copy-IsValid}
use lkm_practice.Globalfifo.Sleepers.{wakes_readers, wakes_writers}

-- What a stretch of a handler leaves of the reasons to sleep.
pub record Keeps (dev : Fifo) (d : Done) : Type 0 where
  pub still_valid : IsValid d.dev
  pub for_readers : (wakes_readers d.log ≡ true) ⊎ (dev.current_len ≡ 0 → d.dev.current_len ≡ 0)
  pub for_writers :
      (wakes_writers d.log ≡ true) ⊎ (dev.current_len ≡ size → d.dev.current_len ≡ size)

-- The calls before a copy wake nobody.
abbrev Quiet : List KernelCall → Type 0
Quiet pre =
    (l : List KernelCall)
    → (wakes_readers (pre ++ l) ≡ wakes_readers l) × (wakes_writers (pre ++ l) ≡ wakes_writers l)

nothing-Keeps : {dev : Fifo} {d : Done} → IsValid dev → d.dev ≡ dev → Keeps dev d
nothing-Keeps {dev} {d} v same = record {
  still_valid = transport (ap IsValid (sym same)) v;
  for_readers = inr (λ none_left. ap (λ x. x.current_len) same ∙ none_left);
  for_writers = inr (λ full. ap (λ x. x.current_len) same ∙ full);
}

module _ (k : Uaccess) (filling : IsFilling k) where
  read_copy-Keeps :
      (pre : List KernelCall) (buf count : ℕ) {dev : Fifo}
      → Quiet pre
      → IsValid dev
      → Keeps dev (read_copy k pre buf count dev)
  unfolding read_copy
  read_copy-Keeps pre buf count {dev} quiet v = record {
    still_valid = read_copy-IsValid k filling pre buf count v;
    for_readers = inr (λ none_left. ground arith);
    for_writers =
        elim (Bool-cases (k.to_user buf (take (clamp count dev.current_len) dev.mem) == 0)) [
          | inl good ↦ inl (rw (read_copy, good) ((quiet _).1))
          | inr bad ↦ inr (λ full. ground (arith, bad, full))
        ];
  }

  write_copy-Keeps :
      (pre : List KernelCall) (buf count : ℕ) {dev : Fifo}
      → Quiet pre
      → IsValid dev
      → Keeps dev (write_copy k pre buf count dev)
  unfolding write_copy
  write_copy-Keeps pre buf count {dev} quiet v = record {
    still_valid = write_copy-IsValid k filling pre buf count v;
    for_readers =
        elim (Bool-cases ((k.from_user buf (clamp count (sub32 size dev.current_len))).0 == 0)) [
          | inl good ↦ inl (rw (write_copy, good) ((quiet _).0))
          | inr bad ↦ inr (λ none_left. ground (arith, bad, none_left))
        ];
    for_writers = inr (λ full. ground (arith, full));
  }

  pub read_enter-Keeps :
      (nonblock : Bool) (buf count : ℕ) {dev : Fifo} {d : Done}
      → IsValid dev
      → read_enter k nonblock buf count dev ≡ done d
      → Keeps dev d
  unfolding read_enter
  read_enter-Keeps nonblock buf count {dev} {d} v e = elim (Bool-cases (dev.current_len == 0)) [
    | inl at_limit ↦ elim (Bool-cases nonblock) [
      | inl at_once ↦ nothing-Keeps v (ground (arith, e, at_limit, at_once))
      | inr may_wait ↦ absurd (ground (arith, e, at_limit, may_wait))
    ]
    | inr between ↦
        let same : read_copy k (enqueued r_wait) buf count dev ≡ d = ground (arith, e, between) in
        transport (ap (Keeps dev) same)
          (read_copy-Keeps (enqueued r_wait) buf count (λ l. (refl, refl)) v)
  ]

  pub read_wake-Keeps :
      (signal : Bool) (buf count : ℕ) {dev : Fifo}
      → IsValid dev
      → Keeps dev (read_wake k signal buf count dev)
  unfolding read_wake
  read_wake-Keeps true buf count v = nothing-Keeps v refl
  read_wake-Keeps false buf count v = read_copy-Keeps (down ∷ []) buf count (λ l. (refl, refl)) v

  pub write_enter-Keeps :
      (nonblock : Bool) (buf count : ℕ) {dev : Fifo} {d : Done}
      → IsValid dev
      → write_enter k nonblock buf count dev ≡ done d
      → Keeps dev d
  unfolding write_enter
  write_enter-Keeps nonblock buf count {dev} {d} v e = elim (Bool-cases (dev.current_len == size)) [
    | inl at_limit ↦ elim (Bool-cases nonblock) [
      | inl at_once ↦ nothing-Keeps v (ground (arith, e, at_limit, at_once))
      | inr may_wait ↦ absurd (ground (arith, e, at_limit, may_wait))
    ]
    | inr between ↦
        let same : write_copy k (enqueued w_wait) buf count dev ≡ d = ground (arith, e, between) in
        transport (ap (Keeps dev) same)
          (write_copy-Keeps (enqueued w_wait) buf count (λ l. (refl, refl)) v)
  ]

  pub write_wake-Keeps :
      (signal : Bool) (buf count : ℕ) {dev : Fifo}
      → IsValid dev
      → Keeps dev (write_wake k signal buf count dev)
  unfolding write_wake
  write_wake-Keeps true buf count v = nothing-Keeps v refl
  write_wake-Keeps false buf count v = write_copy-Keeps (down ∷ []) buf count (λ l. (refl, refl)) v

pub read_enter-sleeps :
    (k : Uaccess) (nonblock : Bool) (buf count : ℕ) (dev : Fifo) {pre : List KernelCall}
    → read_enter k nonblock buf count dev ≡ sleeps pre
    → dev.current_len ≡ 0
unfolding read_enter
read_enter-sleeps k nonblock buf count dev e = ground (arith, e)

pub write_enter-sleeps :
    (k : Uaccess) (nonblock : Bool) (buf count : ℕ) (dev : Fifo) {pre : List KernelCall}
    → write_enter k nonblock buf count dev ≡ sleeps pre
    → dev.current_len ≡ size
unfolding write_enter
write_enter-sleeps k nonblock buf count dev e = ground (arith, e)

-- A read that may wait sleeps on an empty device.
pub read_enter-empty :
    (k : Uaccess) (buf count : ℕ) (dev : Fifo)
    → dev.current_len ≡ 0
    → (pre : List KernelCall) × (read_enter k false buf count dev ≡ sleeps pre)
unfolding read_enter
read_enter-empty k buf count dev none_left =
    (enqueued r_wait ++ set_state interruptible ∷ up ∷ schedule ∷ [], ground (arith, none_left))

-- A clear leaves an empty device, and wakes nobody.
pub clear-wakes :
    (dev : Fifo)
    → let d = unlocked_ioctl fifo_clear dev in
      (d.dev.current_len ≡ 0) × (wakes_readers d.log ≡ false) × (wakes_writers d.log ≡ false)
unfolding unlocked_ioctl
clear-wakes dev = (refl, refl, refl)
