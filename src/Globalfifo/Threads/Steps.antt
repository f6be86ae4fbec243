-- ===== src/Globalfifo/Threads/Steps.antt =====
-- globalfifo.c: what a section in pieces is in Stream, where it is one step.
use lkm_practice.Base.{
  ℕ, ◌≡◌, refl, sym, ap, ◌∙◌, true, false, List, ◌++◌, ◌==◌, ==_iff, arith, append-nil, Bool-cases,
  inl, inr,
}
use mathlib.Core.Path.{subst}
use lkm_practice.Kernel.{Uaccess, IsFilling, Ret}
use lkm_practice.Globalfifo.{
  Fifo, read_wake, write_wake, read_enter, write_enter, unlocked_ioctl, fifo_clear,
}
use lkm_practice.Globalfifo.Invariant.{
  IsValid, EnteredValid, read_enter-IsValid, read_wake-IsValid, write_enter-IsValid,
  write_wake-IsValid,
}
use lkm_practice.Globalfifo.Queue.{clear_lem}
use lkm_practice.Globalfifo.Stream
use lkm_practice.Globalfifo.Stream.{fresh_dev, accepted}
use lkm_practice.Globalfifo.Threads.{
  Section, reads, writes, clears, whole, Stage, Process, idle, waiting, inside, asleep, after_sleep,
  is_entry, System, update, written_by, taken_by,
}
use lkm_practice.Globalfifo.Threads.Sections.{At, Returns}

-- A process in Stream: what it does before its section is not seen.
abbrev pub origin : Section → Stream.Process
origin (reads true nonblock buf count) = Stream.idle
origin (reads false nonblock buf count) = Stream.reading buf count
origin (writes true nonblock buf count) = Stream.idle
origin (writes false nonblock buf count) = Stream.writing buf count
origin clears = Stream.idle

abbrev pub seen : Process → Stream.Process
seen idle = Stream.idle
seen (waiting sec) = origin sec
seen (inside sec st) = origin sec
seen (asleep sec) = origin sec

-- The system as Stream has it, with a device.
abbrev pub stream_of : System → Fifo → Stream.System
stream_of s dev = record {
  dev = dev;
  process = λ i. seen (s.process i);
  written = s.written;
  taken = s.taken;
}

system_path :
    {a b : Stream.System}
    → a.dev ≡ b.dev
    → ((j : ℕ) → a.process j ≡ b.process j)
    → a.written ≡ b.written
    → a.taken ≡ b.taken
    → a ≡ b
system_path d p w t = λ i. record { dev = d i; process = λ j. p j i; written = w i; taken = t i }

-- A process that changes, as Stream sees it.
seen-update :
    (f : ℕ → Process) (i : ℕ) (p : Process) (j : ℕ)
    → Stream.update (λ n. seen (f n)) i (seen p) j ≡ seen (update f i p j)
seen-update f i p j = elim (Bool-cases (i == j)) [
  | inl here ↦ rw here refl
  | inr there ↦ rw there refl
]

-- A change that Stream does not see.
seen_keep :
    (f : ℕ → Process) (i : ℕ) (p : Process)
    → seen (f i) ≡ seen p
    → (j : ℕ) → seen (f j) ≡ seen (update f i p j)
seen_keep f i p same j = elim (Bool-cases (i == j)) [
  | inl here ↦ rw here (ap (λ n. seen (f n)) (sym ((==_iff i j).0 here)) ∙ same)
  | inr there ↦ rw there refl
]

pub stream_keep :
    (s : System) (dev : Fifo) (i : ℕ) (p : Process)
    → seen (s.process i) ≡ seen p
    → stream_of s dev ≡ stream_of (record s { process = update s.process i p }) dev
stream_keep s dev i p same = system_path refl (seen_keep s.process i p same) refl refl

module _ (k : Uaccess) (filling : IsFilling k) where
  pub whole-EnteredValid :
      (sec : Section) {dev : Fifo} → IsValid dev → EnteredValid (whole k sec dev)
  whole-EnteredValid (reads true nonblock buf count) v =
      read_enter-IsValid k filling nonblock buf count v
  whole-EnteredValid (reads false nonblock buf count) v =
      read_wake-IsValid k filling false buf count v
  whole-EnteredValid (writes true nonblock buf count) v =
      write_enter-IsValid k filling nonblock buf count v
  whole-EnteredValid (writes false nonblock buf count) v =
      write_wake-IsValid k filling false buf count v
  whole-EnteredValid clears {dev} v = (clear_lem dev).0

  -- The end of a section that returns is a step of Stream.
  pub return_step :
      (s : System) (i : ℕ) (sec : Section) (ret : Ret) (sent : List ℕ) (dev0 : Fifo)
      → seen (s.process i) ≡ origin sec
      → Returns k sec dev0 s.dev ret sent
      → Stream.Reach k (stream_of s dev0)
      → Stream.Reach k (
          stream_of
            (record s {
              process = update s.process i idle;
              written = written_by k sec ret s.written;
              taken = taken_by sec sent s.taken;
            })
            s.dev)
  return_step s i (reads true nonblock buf count) ret sent dev0 at_i r reach =
      subst (Stream.Reach k)
        (system_path r.same_dev (seen-update s.process i idle) refl
          (ap (λ x. s.taken ++ x) r.same_sent))
        (Stream.next reach (Stream.call_read i nonblock buf count at_i r.by_whole))
  return_step s i (reads false nonblock buf count) ret sent dev0 at_i r reach =
      let same : read_wake k false buf count dev0 ≡ r.result = ground (arith, r.by_whole) in
      subst (Stream.Reach k)
        (system_path (ap (λ d. d.dev) same ∙ r.same_dev) (seen-update s.process i idle) refl
          (ap (λ x. s.taken ++ x.sent) same ∙ ap (λ x. s.taken ++ x) r.same_sent))
        (Stream.next reach (Stream.wake_read i false at_i))
  return_step s i (writes true nonblock buf count) ret sent dev0 at_i r reach =
      subst (Stream.Reach k)
        (system_path r.same_dev (seen-update s.process i idle)
          (ap (λ x. s.written ++ accepted k buf x) r.same_ret) refl)
        (Stream.next reach (Stream.call_write i nonblock buf count at_i r.by_whole))
  return_step s i (writes false nonblock buf count) ret sent dev0 at_i r reach =
      let same : write_wake k false buf count dev0 ≡ r.result = ground (arith, r.by_whole) in
      subst (Stream.Reach k)
        (system_path (ap (λ d. d.dev) same ∙ r.same_dev) (seen-update s.process i idle)
          (ap (λ x. s.written ++ accepted k buf x.ret) same
            ∙ ap (λ x. s.written ++ accepted k buf x) r.same_ret)
          refl)
        (Stream.next reach (Stream.wake_write i false at_i))
  return_step s i clears ret sent dev0 at_i r reach =
      let same : unlocked_ioctl fifo_clear dev0 ≡ r.result = ground (arith, r.by_whole) in
      subst (Stream.Reach k)
        (system_path (ap (λ d. d.dev) same ∙ r.same_dev) (seen_keep s.process i idle at_i) refl
          refl)
        (Stream.next reach (Stream.clear i at_i))

  -- A section that falls asleep.
  pub sleep_step :
      (s : System) (i : ℕ) (sec : Section) (dev0 : Fifo)
      → seen (s.process i) ≡ origin sec
      → At k sec dev0 s.dev Stage.sleeping
      → Stream.Reach k (stream_of s dev0)
      → Stream.Reach k
          (stream_of (record s { process = update s.process i (asleep (after_sleep sec)) }) s.dev)
  unfolding read_enter write_enter
  sleep_step s i (reads true true buf count) dev0 at_i (pre, e, same) reach =
      absurd (ground (arith, e))
  sleep_step s i (reads true false buf count) dev0 at_i (pre, e, same) reach =
      subst (Stream.Reach k)
        (system_path (sym same) (seen-update s.process i (asleep (reads false false buf count)))
          refl refl)
        (Stream.next reach (Stream.sleep_read i buf count at_i e))
  sleep_step s i (reads false nonblock buf count) dev0 at_i (pre, e, same) reach =
      absurd (ground (arith, e))
  sleep_step s i (writes true true buf count) dev0 at_i (pre, e, same) reach =
      absurd (ground (arith, e))
  sleep_step s i (writes true false buf count) dev0 at_i (pre, e, same) reach =
      subst (Stream.Reach k)
        (system_path (sym same) (seen-update s.process i (asleep (writes false false buf count)))
          refl refl)
        (Stream.next reach (Stream.sleep_write i buf count at_i e))
  sleep_step s i (writes false nonblock buf count) dev0 at_i (pre, e, same) reach =
      absurd (ground (arith, e))
  sleep_step s i clears dev0 at_i (pre, e, same) reach = absurd (ground (arith, e))

  -- A sleeper that has a signal returns.
  pub signal_step :
      (s : System) (i : ℕ) (sec : Section) (dev : Fifo)
      → s.process i ≡ asleep sec
      → is_entry sec ≡ false
      → Stream.Reach k (stream_of s dev)
      → Stream.Reach k (stream_of (record s { process = update s.process i idle }) dev)
  unfolding read_wake write_wake
  signal_step s i (reads true nonblock buf count) dev at_i later reach =
      absurd (ground (arith, later))
  signal_step s i (reads false nonblock buf count) dev at_i later reach =
      subst (Stream.Reach k)
        (system_path refl (seen-update s.process i idle) refl (append-nil s.taken))
        (Stream.next reach (Stream.wake_read i true (ap seen at_i)))
  signal_step s i (writes true nonblock buf count) dev at_i later reach =
      absurd (ground (arith, later))
  signal_step s i (writes false nonblock buf count) dev at_i later reach =
      subst (Stream.Reach k)
        (system_path refl (seen-update s.process i idle) (append-nil s.written) refl)
        (Stream.next reach (Stream.wake_write i true (ap seen at_i)))
  signal_step s i clears dev at_i later reach = absurd (ground (arith, later))
