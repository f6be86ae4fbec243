-- ===== src/Globalfifo/Conserve.antt =====
-- globalfifo.c: what the interleaved reads and writes of any number of processes conserve.
use lkm_practice.Base.{
  sym, ℕ, ◌+◌, ◌≤◌, ◌≡◌, refl, Bool, true, false, List, [], ◌∷◌, ◌++◌, arith, append_assoc,
  append-nil, length, length-append, ap, length-zeroes, ◌∙◌, take-append-drop,
}
use lkm_practice.Kernel.{Uaccess, IsFilling, CopiesDisjoint, ok}
use lkm_practice.Globalfifo.{
  Fifo, Done, done, KernelCall, enqueued, down, r_wait, w_wait, size, clamp, sub32, read_copy,
  read_enter, read_wake, write_copy, write_enter, write_wake,
}
use lkm_practice.Globalfifo.Invariant.{IsValid, read_copy-IsValid, write_copy-IsValid}
use lkm_practice.Globalfifo.Queue.{clear_lem, contents, length-contents}
use lkm_practice.Globalfifo.Refine.{MovesUp-disjoint, read_copy_refines, write_copy_refines}
use lkm_practice.Globalfifo.Stream.{
  System, accepted, Step, call_read, sleep_read, wake_read, call_write, sleep_write, wake_write,
  clear, fresh_dev, fresh, Reach, start, next,
}

pub record Inv (s : System) : Type 0 where
  pub valid : IsValid s.dev
  pub conserved : s.written ≡ s.taken ++ contents s.dev

pub fresh_dev-IsValid : IsValid fresh_dev
unfolding fresh_dev
fresh_dev-IsValid = record { full_array = length-zeroes size; within = omega arith }

fresh-Inv : Inv fresh
unfolding fresh fresh_dev contents
fresh-Inv = record { valid = fresh_dev-IsValid; conserved = refl }

-- Appending to the record of what was handed out, or of what was taken in.
taken_step :
    (written taken sent q q' : List ℕ)
    → written ≡ taken ++ q
    → q ≡ sent ++ q'
    → written ≡ (taken ++ sent) ++ q'
taken_step written taken sent q q' h e = rw (append_assoc taken sent q', ← e) h

written_step :
    (written taken bytes q q' : List ℕ)
    → written ≡ taken ++ q
    → q' ≡ q ++ bytes
    → written ++ bytes ≡ taken ++ q'
written_step written taken bytes q q' h e = rw (e, h) (append_assoc taken q bytes)

-- A read that takes bytes asks for at least half of those that the device holds, so that the ranges
-- of its memcpy do not overlap.
abbrev pub TakesHalf : {k : Uaccess} {s t : System} → Step k s t → Type 0
TakesHalf {s = s} (call_read i nonblock buf count idle_i e) = s.dev.current_len ≤ count + count
TakesHalf (sleep_read i buf count idle_i e) = Unit {0}
TakesHalf (wake_read i true asleep) = Unit {0}
TakesHalf {s = s} (wake_read i false {buf} {count} asleep) = s.dev.current_len ≤ count + count
TakesHalf (call_write i nonblock buf count idle_i e) = Unit {0}
TakesHalf (sleep_write i buf count idle_i e) = Unit {0}
TakesHalf (wake_write i signal asleep) = Unit {0}
TakesHalf (clear i idle_i) = Unit {0}

abbrev pub AllTakeHalf : {k : Uaccess} {s : System} → Reach k s → Type 0
AllTakeHalf start = Unit {0}
AllTakeHalf (next run step) = AllTakeHalf run × TakesHalf step

module _ (k : Uaccess) (disjoint : CopiesDisjoint k) (filling : IsFilling k) where
  -- A stretch of read hands out the front of the queue, a stretch of write extends it at the end.
  read_copy-contents :
      (pre : List KernelCall) (buf count : ℕ) {dev : Fifo}
      → IsValid dev
      → dev.current_len ≤ count + count
      → let d = read_copy k pre buf count dev in contents dev ≡ d.sent ++ contents d.dev
  read_copy-contents pre buf count {dev} v half = ground (
    arith,
    read_copy_refines k pre buf count v (MovesUp-disjoint k count disjoint v half),
    take-append-drop count (contents dev),
  )

  write_copy-contents :
      (pre : List KernelCall) (buf count : ℕ) {dev : Fifo}
      → IsValid dev
      → let d = write_copy k pre buf count dev in
        contents d.dev ≡ contents dev ++ accepted k buf d.ret
  write_copy-contents pre buf count {dev} v =
      ground (arith, write_copy_refines k pre buf count filling v, append-nil (contents dev))

  read_enter-contents :
      (nonblock : Bool) (buf count : ℕ) {dev : Fifo} {d : Done}
      → IsValid dev
      → dev.current_len ≤ count + count
      → read_enter k nonblock buf count dev ≡ done d
      → IsValid d.dev × (contents dev ≡ d.sent ++ contents d.dev)
  unfolding read_enter
  read_enter-contents nonblock buf count v half e = ground (
    arith,
    read_copy-IsValid k filling (enqueued r_wait) buf count v,
    read_copy-contents (enqueued r_wait) buf count v half,
  )

  write_enter-contents :
      (nonblock : Bool) (buf count : ℕ) {dev : Fifo} {d : Done}
      → IsValid dev
      → write_enter k nonblock buf count dev ≡ done d
      → IsValid d.dev × (contents d.dev ≡ contents dev ++ accepted k buf d.ret)
  unfolding write_enter
  write_enter-contents nonblock buf count {dev} v e = ground (
    arith,
    write_copy-IsValid k filling (enqueued w_wait) buf count v,
    write_copy-contents (enqueued w_wait) buf count v,
    append-nil (contents dev),
  )

  read_wake-contents :
      (buf count : ℕ) {dev : Fifo}
      → IsValid dev
      → dev.current_len ≤ count + count
      → let d = read_wake k false buf count dev in
        IsValid d.dev × (contents dev ≡ d.sent ++ contents d.dev)
  unfolding read_wake
  read_wake-contents buf count v half = ground (
    arith,
    read_copy-IsValid k filling (down ∷ []) buf count v,
    read_copy-contents (down ∷ []) buf count v half,
  )

  write_wake-contents :
      (signal : Bool) (buf count : ℕ) {dev : Fifo}
      → IsValid dev
      → let d = write_wake k signal buf count dev in
        IsValid d.dev × (contents d.dev ≡ contents dev ++ accepted k buf d.ret)
  unfolding write_wake
  write_wake-contents signal buf count {dev} v = ground (
    arith,
    write_copy-IsValid k filling (down ∷ []) buf count v,
    write_copy-contents (down ∷ []) buf count v,
    append-nil (contents dev),
  )

  -- Every step keeps the device valid, and keeps what was written equal to what was handed out
  -- followed by what the device holds.
  pub Step-Inv : {s t : System} (step : Step k s t) → TakesHalf step → Inv s → Inv t
  unfolding read_wake
  Step-Inv {s} (call_read i nonblock buf count idle_i e) half h =
      let (v, c) = read_enter-contents nonblock buf count h.valid half e in
      record { valid = v; conserved = taken_step _ _ _ _ _ h.conserved c }
  Step-Inv (sleep_read i buf count idle_i e) half h = record {
    valid = h.valid;
    conserved = h.conserved;
  }
  Step-Inv {s} (wake_read i true {buf} {count} asleep) half h = record {
    valid = h.valid;
    conserved = h.conserved ∙ ap (λ l. l ++ contents s.dev) (sym (append-nil s.taken));
  }
  Step-Inv (wake_read i false {buf} {count} asleep) half h =
      let (v, c) = read_wake-contents buf count h.valid half in
      record { valid = v; conserved = taken_step _ _ _ _ _ h.conserved c }
  Step-Inv (call_write i nonblock buf count idle_i e) half h =
      let (v, c) = write_enter-contents nonblock buf count h.valid e in
      record { valid = v; conserved = written_step _ _ _ _ _ h.conserved c }
  Step-Inv (sleep_write i buf count idle_i e) half h = record {
    valid = h.valid;
    conserved = h.conserved;
  }
  Step-Inv (wake_write i signal {buf} {count} asleep) half h =
      let (v, c) = write_wake-contents signal buf count h.valid in
      record { valid = v; conserved = written_step _ _ _ _ _ h.conserved c }
  Step-Inv {s} (clear i idle_i) half h = record {
    valid = (clear_lem s.dev).0;
    conserved = sym (clear_lem s.dev).1;
  }

  pub Reach-Inv : {s : System} (run : Reach k s) → AllTakeHalf run → Inv s
  Reach-Inv start half = fresh-Inv
  Reach-Inv (next r step) (halves, half) = Step-Inv step half (Reach-Inv r halves)

  -- In every state that any interleaving of reads, writes, sleeps, wake-ups and clears leads to,
  -- the bytes taken in since the last clear are, in order, the bytes handed out followed by the
  -- bytes that the device holds, which are at most 4096: nothing is lost, doubled or reordered. The
  -- conditions: each read asks for at least half of what the device holds when it takes its bytes,
  -- so that memcpy, which is right on ranges that do not overlap, gets no others; and
  -- copy_from_user fills all the bytes that it is to store.
  pub stream_conserved :
      {s : System} (run : Reach k s)
      → AllTakeHalf run
      → (s.written ≡ s.taken ++ contents s.dev) × (length s.written ≤ length s.taken + size)
  stream_conserved {s} run halves =
      let h = Reach-Inv run halves in
      (
        h.conserved,
        omega (
          arith,
          ap (λ (l : List ℕ). length l) h.conserved,
          length-append s.taken (contents s.dev),
          length-contents h.valid,
          h.valid,
        ),
      )

module _ (k : Uaccess) (buf count : ℕ) {dev : Fifo} (v : IsValid dev) where
  -- A reader that is woken, with no signal, while the queue is empty (another reader was faster)
  -- does not sleep again: it returns 0, if copy_to_user copies no bytes without an error.
  pub read_wake-empty :
      contents dev ≡ [] → k.to_user buf [] ≡ 0 → (read_wake k false buf count dev).ret ≡ ok 0
  unfolding read_wake read_copy
  read_wake-empty empty copied =
      let e : dev.current_len ≡ 0 =
        omega (arith, ap (λ (l : List ℕ). length l) empty, length-contents v) in
      ground arith

  -- A writer that is woken, with no signal, while the queue is full does not sleep again: it
  -- returns 0, if copy_from_user copies no bytes without an error.
  pub write_wake-full :
      length (contents dev) ≡ size
      → (k.from_user buf 0).0 ≡ 0
      → (write_wake k false buf count dev).ret ≡ ok 0
  unfolding write_wake write_copy
  write_wake-full full copied =
      let n : clamp count (sub32 size dev.current_len) ≡ 0 = ground (arith, length-contents v) in
      rw (n, copied)
