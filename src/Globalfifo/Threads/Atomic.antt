-- ===== src/Globalfifo/Threads/Atomic.antt =====
-- globalfifo.c: because of the semaphore, the fine steps are those of Stream.
use lkm_practice.Base.{
  update_self, update_other, update_all, update_test, ℕ, ◌≡◌, ◌≢◌, refl, sym, ap, ◌∙◌, Bool, true,
  false, none, some, arith, inl, inr,
}
use mathlib.Core.Path.{subst, subst₂}
use lkm_practice.Kernel.{Uaccess, IsFilling}
use lkm_practice.Globalfifo.{Fifo}
use lkm_practice.Globalfifo.Invariant.{IsValid, EnteredValid}
use lkm_practice.Globalfifo.Conserve.{fresh_dev-IsValid}
use lkm_practice.Globalfifo.Stream
use lkm_practice.Globalfifo.Stream.{fresh_dev}
use lkm_practice.Globalfifo.Threads.{
  Section, Stage, start, returning, sleeping, Process, idle, waiting, inside, asleep, after_sleep,
  reads, writes, clears, is_entry, System, update, Step, calls, downs, works, ups, falls_asleep,
  wakes, signalled, fresh, Reach, begin, next,
}
use lkm_practice.Globalfifo.Threads.Sections.{At}
use lkm_practice.Globalfifo.Threads.Sections.Pieces.{Work-At}
use lkm_practice.Globalfifo.Threads.Steps.{
  seen, origin, stream_of, stream_keep, whole-EnteredValid, return_step, sleep_step, signal_step,
}

-- Whether a process holds the semaphore by where it is.
abbrev pub holds : Process → Bool
holds idle = false
holds (waiting sec) = false
holds (inside sec st) = true
holds (asleep sec) = false

-- A sleeper has been inside before.
abbrev pub Later : Process → Type 0
Later idle = Unit {0}
Later (waiting sec) = Unit {0}
Later (inside sec st) = Unit {0}
Later (asleep sec) = is_entry sec ≡ false

-- Nobody holds the semaphore and the system is one of Stream, or process `i` does, in a section that
-- found the device `dev0`, with which the system is one of Stream.
pub data Mutex (k : Uaccess) (s : System) : Type 0 where
  free : s.owner ≡ none → IsValid s.dev → Stream.Reach k (stream_of s s.dev) → Mutex k s
  held :
      (i : ℕ) (sec : Section) (st : Stage) (dev0 : Fifo)
      → s.owner ≡ some i
      → s.process i ≡ inside sec st
      → IsValid dev0
      → At k sec dev0 s.dev st
      → Stream.Reach k (stream_of s dev0)
      → Mutex k s

pub record Inv (k : Uaccess) (s : System) : Type 0 where
  pub later : (i : ℕ) → Later (s.process i)
  pub locked : (i : ℕ) → holds (s.process i) ≡ true → s.owner ≡ some i
  pub mutex : Mutex k s

origin-entry : (sec : Section) → is_entry sec ≡ true → Stream.idle ≡ origin sec
origin-entry (reads true nonblock buf count) e = refl
origin-entry (reads false nonblock buf count) e = absurd (ground (arith, e))
origin-entry (writes true nonblock buf count) e = refl
origin-entry (writes false nonblock buf count) e = absurd (ground (arith, e))
origin-entry clears e = refl

after_sleep-later :
    (k : Uaccess) (sec : Section) {dev0 dev : Fifo}
    → At k sec dev0 dev sleeping
    → is_entry (after_sleep sec) ≡ false
after_sleep-later k (reads entry nonblock buf count) h = refl
after_sleep-later k (writes entry nonblock buf count) h = refl
after_sleep-later k clears (pre, e, same) = absurd (ground (arith, e))

module _ (k : Uaccess) (filling : IsFilling k) where
  -- What is known when a process holds the semaphore.
  pub record Holder (s : System) (i : ℕ) (sec : Section) (st : Stage) : Type 0 where
    pub dev0 : Fifo
    pub owned : s.owner ≡ some i
    pub valid : IsValid dev0
    pub known : At k sec dev0 s.dev st
    pub reach : Stream.Reach k (stream_of s dev0)

  pub holder :
      {s : System} (i : ℕ) (sec : Section) (st : Stage)
      → Inv k s
      → s.process i ≡ inside sec st
      → Holder s i sec st
  holder {s} i sec st v at_i =
      let owned : s.owner ≡ some i = v.locked i (ap holds at_i) in
      elim v.mutex [
        | free unowned valid reach ↦ absurd (ground (arith, unowned, owned))
        | held h c t dev0 owned' at_h valid known reach ↦
            let same : h ≡ i = ground (arith, owned, owned') in
            let both : inside c t ≡ inside sec st = sym at_h ∙ ap s.process same ∙ at_i in
            let same_sec : c ≡ sec = ground (arith, both) in
            let same_stage : t ≡ st = ground (arith, both) in
            record {
              dev0 = dev0;
              owned = owned;
              valid = valid;
              known = subst₂ (λ x y. At k x dev0 s.dev y) same_sec same_stage known;
              reach = reach;
            }
      ]

  -- A process that does not hold the semaphore changes, and Stream does not see it.
  outside-Mutex :
      {s : System} (i : ℕ) (p : Process)
      → holds (s.process i) ≡ false
      → seen (s.process i) ≡ seen p
      → Mutex k s
      → Mutex k (record s { process = update s.process i p })
  outside-Mutex {s} i p out same (free unowned valid reach) =
      free unowned valid (subst (Stream.Reach k) (stream_keep s s.dev i p same) reach)
  outside-Mutex {s} i p out same (held h sec st dev0 owned at_h valid known reach) =
      let apart : i ≢ h =
        λ e. absurd (ground (arith, out, ap (λ n. holds (s.process n)) e, ap holds at_h)) in
      held h sec st dev0 owned (update_other s.process i p h apart ∙ at_h) valid known
        (subst (Stream.Reach k) (stream_keep s dev0 i p same) reach)

  signalled-Mutex :
      {s : System} (i : ℕ) (sec : Section)
      → s.process i ≡ asleep sec
      → is_entry sec ≡ false
      → Mutex k s
      → Mutex k (record s { process = update s.process i idle })
  signalled-Mutex {s} i sec at_i later (free unowned valid reach) =
      free unowned valid (signal_step k filling s i sec s.dev at_i later reach)
  signalled-Mutex {s} i sec at_i later (held h c st dev0 owned at_h valid known reach) =
      let apart : i ≢ h = λ e. absurd (ground (arith, at_i, ap s.process e, at_h)) in
      held h c st dev0 owned (update_other s.process i idle h apart ∙ at_h) valid known
        (signal_step k filling s i sec dev0 at_i later reach)

  -- The semaphore is given back.
  left-locked :
      {s : System} (i : ℕ) (p : Process)
      → Inv k s
      → s.owner ≡ some i
      → holds p ≡ false
      → (j : ℕ) → holds (update s.process i p j) ≡ true
      → none ≡ some j
  left-locked {s} i p v owned out j e = elim (update_test s.process i p holds j e) [
    | inl here ↦ absurd (ground (arith, here, out))
    | inr there ↦ absurd (there.0 (ground (arith, owned, v.locked j there.1)))
  ]

  -- A process that does not hold the semaphore changes, and does not hold it afterwards.
  outside-locked :
      {s : System} (i : ℕ) (p : Process)
      → Inv k s
      → holds p ≡ false
      → (j : ℕ) → holds (update s.process i p j) ≡ true
      → s.owner ≡ some j
  outside-locked {s} i p v out j e = elim (update_test s.process i p holds j e) [
    | inl here ↦ absurd (ground (arith, here, out))
    | inr there ↦ v.locked j there.1
  ]

  Step-Inv : {s t : System} → Inv k s → Step k s t → Inv k t
  Step-Inv {s} v (calls i sec at_i entry) = record {
    later = update_all s.process i (waiting sec) Later v.later tt;
    locked = outside-locked i (waiting sec) v refl;
    mutex =
        outside-Mutex i (waiting sec) (ap holds at_i) (ap seen at_i ∙ origin-entry sec entry)
          v.mutex;
  }
  Step-Inv {s} v (downs i sec at_i unowned) = record {
    later = update_all s.process i (inside sec start) Later v.later tt;
    locked = λ j e. elim (update_test s.process i (inside sec start) holds j e) [
      | inl here ↦ ap some here.0
      | inr there ↦ absurd (ground (arith, v.locked j there.1, unowned))
    ];
    mutex = elim v.mutex [
      | held h c st dev0 owned at_h valid known reach ↦ absurd (ground (arith, owned, unowned))
      | free unowned' valid reach ↦
          held i sec start s.dev refl (update_self s.process i (inside sec start)) valid refl
            (subst (Stream.Reach k) (stream_keep s s.dev i (inside sec start) (ap seen at_i)) reach)
    ];
  }
  Step-Inv {s} v (works i sec st st' dev' at_i work) =
      let h = holder i sec st v at_i in
      let p = inside sec st' in
      record {
        later = update_all s.process i p Later v.later tt;
        locked = λ j e. elim (update_test s.process i p holds j e) [
          | inl here ↦ h.owned ∙ ap some here.0
          | inr there ↦ v.locked j there.1
        ];
        mutex =
            held i sec st' h.dev0 h.owned (update_self s.process i p) h.valid
              (Work-At k filling h.valid work h.known)
              (subst (Stream.Reach k) (stream_keep s h.dev0 i p (ap seen at_i)) h.reach);
      }
  Step-Inv {s} v (ups i sec ret sent at_i) =
      let h = holder i sec (returning ret sent) v at_i in
      record {
        later = update_all s.process i idle Later v.later tt;
        locked = left-locked i idle v h.owned refl;
        mutex =
            free refl
              (subst IsValid h.known.same_dev
                (subst EnteredValid h.known.by_whole (whole-EnteredValid k filling sec h.valid)))
              (return_step k filling s i sec ret sent h.dev0 (ap seen at_i) h.known h.reach);
      }
  Step-Inv {s} v (falls_asleep i sec at_i) =
      let h = holder i sec sleeping v at_i in
      let p = asleep (after_sleep sec) in
      record {
        later = update_all s.process i p Later v.later (after_sleep-later k sec h.known);
        locked = left-locked i p v h.owned refl;
        mutex =
            free refl (subst IsValid (sym h.known.2) h.valid)
              (sleep_step k filling s i sec h.dev0 (ap seen at_i) h.known h.reach);
      }
  Step-Inv {s} v (wakes i sec at_i) = record {
    later = update_all s.process i (waiting sec) Later v.later tt;
    locked = outside-locked i (waiting sec) v refl;
    mutex = outside-Mutex i (waiting sec) (ap holds at_i) (ap seen at_i) v.mutex;
  }
  Step-Inv {s} v (signalled i sec at_i) = record {
    later = update_all s.process i idle Later v.later tt;
    locked = outside-locked i idle v refl;
    mutex = signalled-Mutex i sec at_i (rw at_i at (v.later i)) v.mutex;
  }

  fresh-Inv : Inv k fresh
  unfolding fresh Stream.fresh
  fresh-Inv = record {
    later = λ i. tt;
    locked = λ i h. absurd (ground (arith, h));
    mutex = free refl fresh_dev-IsValid (Stream.start);
  }

  pub Reach-Inv : {s : System} → Reach k s → Inv k s
  Reach-Inv begin = fresh-Inv
  Reach-Inv (next run step) = Step-Inv (Reach-Inv run) step

  -- However the pieces of the calls interleave, in every state in which nobody holds the semaphore,
  -- the device, the sleepers and the bytes that were taken in and handed out are those of a state of
  -- Stream, where each section is one step. copy_from_user fills all the bytes that it is to store.
  pub sections-Reach :
      {s : System} → Reach k s → s.owner ≡ none → Stream.Reach k (stream_of s s.dev)
  sections-Reach run unowned = elim (Reach-Inv run).mutex [
    | free unowned' valid reach ↦ reach
    | held h sec st dev0 owned at_h valid known reach ↦ absurd (ground (arith, owned, unowned))
  ]
