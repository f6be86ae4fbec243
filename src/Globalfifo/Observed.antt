-- ===== src/Globalfifo/Observed.antt =====
-- globalfifo.c: the device up to what its users can observe. The bytes of the array behind current_len
-- are left over from calls before.
mod Tests
use lkm_practice.Base.{
  ℕ, ◌-◌, ◌≤◌, ◌≡◌, refl, ap₂, Bool, List, [], ◌∷◌, ◌++◌, arith, length, take, replicate,
  length-append, length-replicate, take-append_length,
}
use mathlib.Core.Quot
use mathlib.Core.Quot.{Quot, Quot-set}
use mathlib.Core.HLevel.{Σ_prop_path}
use std.Path.{transport}
use std.Univalence.{ua, ua-β}
use mathlib.Core.List
use mathlib.Core.Equiv.{Iso, iso_to_equiv}
use native.Mathlib.Bridge.{le_prop}
use native.Mathlib.Nat.{ℕ_set}
use lkm_practice.Kernel.{Uaccess, IsFilling, CopiesDisjoint}
use lkm_practice.Globalfifo.{Fifo, KernelCall, read_copy, write_copy, size}
use lkm_practice.Globalfifo.Invariant.{IsValid, read_copy-IsValid, write_copy-IsValid}
use lkm_practice.Globalfifo.Queue.{contents, length-contents}

abbrev pub Device : Type 0
Device = (dev : Fifo) × IsValid dev

-- Two devices that hold the same bytes, and signal the same files.
abbrev pub SameView : Device → Device → Type 0
SameView a b = (contents a.0 ≡ contents b.0) × (a.0.async_queue ≡ b.0.async_queue)

-- The bounded queue that the driver promises, with the files.
abbrev pub BoundedQueue : Type 0
BoundedQueue = ((q : List ℕ) × (length q ≤ size)) × List ℕ

-- A device as its users see it.
abbrev pub seen : Device → Quot SameView
seen d = Quot.mk d

queue_path : (a b : BoundedQueue) → a.0.0 ≡ b.0.0 → a.1 ≡ b.1 → a ≡ b
queue_path a b q files = ap₂ (λ x y. (x, y)) (Σ_prop_path (λ l. le_prop) q) files

view_of : Device → BoundedQueue
view_of (dev, v) = ((contents dev, omega (arith, length-contents v)), dev.async_queue)

-- A device that holds a queue, with zeroes behind it.
device_of : BoundedQueue → Device
device_of ((q, small), files) = (
  record { current_len = length q; mem = q ++ replicate (size - length q) 0; async_queue = files },
  record {
    full_array = omega (
      arith,
      length-append q (replicate (size - length q) 0),
      length-replicate {A = ℕ} (size - length q) 0,
    );
    within = small;
  },
)

BoundedQueue-set : IsSet BoundedQueue
BoundedQueue-set = hlevel (List.is_set, ℕ_set, le_prop)

to : Quot SameView → BoundedQueue
unfolding view_of
to = Quot.lift BoundedQueue-set view_of (λ a b h. queue_path (view_of a) (view_of b) h.0 h.1)

from : BoundedQueue → Quot SameView
unfolding device_of
from b = Quot.mk (device_of b)

to-from : (b : BoundedQueue) → to (from b) ≡ b
unfolding to from contents
to-from ((q, small), files) =
    queue_path _ _ (take-append_length q (replicate (size - length q) 0)) refl

from-to : (d : Quot SameView) → from (to d) ≡ d
unfolding to from contents
from-to = Quot.ind (λ d. Quot-set _ _) (λ d. Quot.sound (take-append_length _ _, refl))

module _ (k : Uaccess) (disjoint : CopiesDisjoint k) (filling : IsFilling k) (pre : List KernelCall)
    (buf count : ℕ) where
  abbrev pub after_read : Device → Device
  after_read (dev, v) =
      ((read_copy k pre buf count dev).dev, read_copy-IsValid k filling pre buf count v)

  abbrev pub after_write : Device → Device
  after_write (dev, v) =
      ((write_copy k pre buf count dev).dev, write_copy-IsValid k filling pre buf count v)
