-- ===== src/Globalfifo/Sleepers/Awake.antt =====
-- globalfifo.c: which processes sleep although the device is ready for them.
use lkm_practice.Base.{ℕ, ◌≡◌, refl, true, false, List, ◌==◌, arith, ◌⊎◌, inl, inr, Bool-cases}
use lkm_practice.Kernel.{Uaccess, IsFilling}
use lkm_practice.Globalfifo.{
  unlocked_ioctl, fifo_clear, Done, KernelCall, size, unlocked_ioctl, fifo_clear,
}
use lkm_practice.Globalfifo.Stream.{fresh_dev}
use lkm_practice.Globalfifo.Invariant.{IsValid}
use lkm_practice.Globalfifo.Queue.{clear_lem}
use lkm_practice.Globalfifo.Sleepers.{
  Process, idle, reading, writing, wakes_readers, wakes_writers, rouse, System, update, after, Step,
  call_read, sleep_read, wake_read, call_write, sleep_write, wake_write, clear, fresh, Run, stay,
  next,
}
use lkm_practice.Globalfifo.Sleepers.Keeps.{
  read_enter-sleeps, write_enter-sleeps, read_enter-empty, clear-wakes, Keeps, read_enter-Keeps,
  read_wake-Keeps, write_enter-Keeps, write_wake-Keeps,
}
use lkm_practice.Globalfifo.Conserve.{fresh_dev-IsValid}

-- A reader sleeps on an empty device only, and a writer on a full one, or on one that was cleared.
pub record Inv (s : System) : Type 0 where
  pub valid : IsValid s.dev
  pub readers : (i buf count : ℕ) → s.process i ≡ reading false buf count → s.dev.current_len ≡ 0
  pub writers :
      (i buf count : ℕ)
      → s.process i ≡ writing false buf count
      → (s.dev.current_len ≡ size) ⊎ (s.cleared ≡ true)

rouse-reading :
    (l : List KernelCall) (p : Process) (buf count : ℕ)
    → rouse l p ≡ reading false buf count
    → (p ≡ reading false buf count) × (wakes_readers l ≡ false)
rouse-reading l idle buf count e = absurd (ground (arith, e))
rouse-reading l (reading woken b c) buf count e = elim (Bool-cases (wakes_readers l)) [
  | inl wakes ↦ absurd (ground (arith, e, wakes))
  | inr quiet ↦ (ground (arith, e, quiet), quiet)
]
rouse-reading l (writing woken b c) buf count e = absurd (ground (arith, e))

rouse-writing :
    (l : List KernelCall) (p : Process) (buf count : ℕ)
    → rouse l p ≡ writing false buf count
    → (p ≡ writing false buf count) × (wakes_writers l ≡ false)
rouse-writing l idle buf count e = absurd (ground (arith, e))
rouse-writing l (reading woken b c) buf count e = absurd (ground (arith, e))
rouse-writing l (writing woken b c) buf count e = elim (Bool-cases (wakes_writers l)) [
  | inl wakes ↦ absurd (ground (arith, e, wakes))
  | inr quiet ↦ (ground (arith, e, quiet), quiet)
]

-- The end of a stretch keeps the invariant, if what it does to the device does.
after-Inv : {s : System} (i : ℕ) {d : Done} → Inv s → Keeps s.dev d → Inv (after i d s)
after-Inv {s} i {d} h kept = record {
  valid = kept.still_valid;
  readers = λ j buf count e. elim (Bool-cases (i == j)) [
    | inl same ↦ absurd (ground (arith, same, e))
    | inr other ↦
        let (asleep, unwoken) =
          rouse-reading d.log (s.process j) buf count (ground (arith, other, e)) in
        elim kept.for_readers [
          | inl wakes ↦ absurd (ground (arith, wakes, unwoken))
          | inr stays ↦ stays (h.readers j buf count asleep)
        ]
  ];
  writers = λ j buf count e. elim (Bool-cases (i == j)) [
    | inl same ↦ absurd (ground (arith, same, e))
    | inr other ↦
        let (asleep, unwoken) =
          rouse-writing d.log (s.process j) buf count (ground (arith, other, e)) in
        elim kept.for_writers [
          | inl wakes ↦ absurd (ground (arith, wakes, unwoken))
          | inr stays ↦ elim (h.writers j buf count asleep) [
            | inl full ↦ inl (stays full)
            | inr was ↦ inr (ground (arith, was, unwoken))
          ]
        ]
  ];
}

module _ (k : Uaccess) (filling : IsFilling k) where
  Step-Inv : {s t : System} → Step k s t → Inv s → Inv t
  Step-Inv (call_read i nonblock buf count idle_i e) h =
      after-Inv i h (read_enter-Keeps k filling nonblock buf count h.valid e)
  Step-Inv {s} (sleep_read i buf count idle_i e) h = record {
    valid = h.valid;
    readers = λ j b c asleep. read_enter-sleeps k false buf count s.dev e;
    writers = λ j b c asleep. h.writers j b c (ground (arith, asleep));
  }
  Step-Inv (wake_read i signal woken {buf} {count} asleep up_now) h =
      after-Inv i h (read_wake-Keeps k filling signal buf count h.valid)
  Step-Inv (call_write i nonblock buf count idle_i e) h =
      after-Inv i h (write_enter-Keeps k filling nonblock buf count h.valid e)
  Step-Inv {s} (sleep_write i buf count idle_i e) h = record {
    valid = h.valid;
    readers = λ j b c asleep. h.readers j b c (ground (arith, asleep));
    writers = λ j b c asleep. inl (write_enter-sleeps k false buf count s.dev e);
  }
  Step-Inv (wake_write i signal woken {buf} {count} asleep up_now) h =
      after-Inv i h (write_wake-Keeps k filling signal buf count h.valid)
  Step-Inv {s} (clear i idle_i) h = record {
    valid = (clear_lem s.dev).0;
    readers = λ j b c asleep. (clear-wakes s.dev).0;
    writers = λ j b c asleep. inr refl;
  }

  pub Run-Inv : {s t : System} → Run k s t → Inv s → Inv t
  Run-Inv stay h = h
  Run-Inv (next run step) h = Step-Inv step (Run-Inv run h)

  pub fresh-Inv : Inv fresh
  unfolding fresh fresh_dev
  fresh-Inv = record {
    valid = fresh_dev-IsValid;
    readers = λ i buf count e. absurd (ground (arith, e));
    writers = λ i buf count e. absurd (ground (arith, e));
  }

-- A clear wakes no writer: while a writer sleeps, another process can clear the device and then
-- sleep in a read itself, so that both sleep on an empty device and neither was woken.
pub clear-strands :
    (k : Uaccess) (i j buf count buf' count' : ℕ) {s : System}
    → (j == i) ≡ false
    → s.process i ≡ writing false buf count
    → s.process j ≡ idle
    → (t : System) × Run k s t
      × (t.dev.current_len ≡ 0)
      × (t.process i ≡ writing false buf count)
      × (t.process j ≡ reading false buf' count')
clear-strands k i j buf count buf' count' {s} apart asleep free =
    let (none_left, no_readers, no_writers) = clear-wakes s.dev in
    let s1 : System = record (after j (unlocked_ioctl fifo_clear s.dev) s) { cleared = true } in
    let s2 : System = record s1 { process = update s1.process j (reading false buf' count') } in
    let (pre, waits) = read_enter-empty k buf' count' s1.dev none_left in
    (
      s2,
      next (next stay (clear j free)) (sleep_read j buf' count' (ground arith) waits),
      none_left,
      ground (arith, asleep, apart, no_writers),
      ground arith,
    )
