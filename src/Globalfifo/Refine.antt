-- ===== src/Globalfifo/Refine.antt =====
-- globalfifo.c: its read, write and poll do to the queue of the device's contents what the
-- specification says.
use lkm_practice.Base.{
  ℕ, ◌+◌, ◌-◌, ◌≤◌, ◌≡◌, refl, ◌∙◌, ap, sym, Bool, List, [], ◌∷◌, ◌++◌, arith, ltb, ◌==◌, length,
  take, drop, window, blit, min, Bool-cases, inl, inr, take-take, take-drop, length-take,
  length-window, take-blit_end, take-blit_before, take_all, drop_all, not,
}
use lkm_practice.Kernel.{Uaccess, IsFilling, CopiesDisjoint, ok, err, efault}
use lkm_practice.Globalfifo.{
  Fifo, KernelCall, down, enqueued, r_wait, w_wait, size, clamp, add32, sub32, read_copy,
  read_enter, read_wake, write_copy, write_enter, write_wake, Schedule, read, write, poll, is_nil,
}
use lkm_practice.Globalfifo.Invariant.{IsValid}
use lkm_practice.Globalfifo.Queue.{contents, length-contents, view, dequeue, enqueue, blocking}

-- What `read` needs of memcpy on a valid device: that it moves the bytes left over to the front.
abbrev pub MovesUp : Uaccess → ℕ → Fifo → Type 0
MovesUp k count dev =
    let n = clamp count dev.current_len in
    k.memcpy dev.mem 0 n (dev.current_len - n)
    ≡ blit dev.mem 0 (window n (dev.current_len - n) dev.mem)

-- The clamped count takes and drops of the array what the plain count does of the contents.
clamp-le : (count len : ℕ) → clamp count len ≤ len
clamp-le count len = ground arith

pub take-clamp :
    (count len : ℕ) (mem : List ℕ) → take (clamp count len) mem ≡ take count (take len mem)
take-clamp count len mem = elim (Bool-cases (ltb len count)) [
  | inl e ↦ rw e (sym (take_all count (take len mem) (ground (arith, length-take len mem))))
  | inr e ↦ rw e (sym (take-take count len mem (ground arith)))
]

drop-clamp :
    (count len : ℕ) (mem : List ℕ)
    → drop (clamp count len) (take len mem) ≡ drop count (take len mem)
drop-clamp count len mem = elim (Bool-cases (ltb len count)) [
  | inl e ↦
      rw (e, drop_all len (take len mem) (omega (arith, length-take len mem)))
        (sym (drop_all count (take len mem) (ground (arith, length-take len mem))))
  | inr e ↦ rw e
]

pub length-clamp :
    (count len : ℕ) (mem : List ℕ)
    → len ≤ length mem
    → length (take count (take len mem)) ≡ clamp count len
length-clamp count len mem h = ground (arith, length-take count (take len mem), length-take len mem)

-- After the move the front of the array holds what was left.
moved-contents :
    (mem : List ℕ) (n len : ℕ)
    → n ≤ len
    → len ≤ length mem
    → take (len - n) (blit mem 0 (window n (len - n) mem)) ≡ drop n (take len mem)
moved-contents mem n len h h' =
    let left : length (window n (len - n) mem) ≡ len - n =
      length-window n (len - n) mem (omega arith) in
    let e : 0 + length (window n (len - n) mem) ≡ len - n = omega (arith, left) in
    let whole : n + (len - n) ≡ len = omega arith in
    rw e at (take-blit_end mem 0 (window n (len - n) mem) (omega arith))
    ∙ (rw whole at (take-drop (len - n) n mem))

pub is_nil-length : (q : List ℕ) → is_nil q ≡ (length q == 0)
is_nil-length [] = refl
is_nil-length (x ∷ q) = ground arith

-- The documented memcpy does if the bytes left over are not more than those that go.
pub MovesUp-disjoint :
    (k : Uaccess) (count : ℕ) {dev : Fifo}
    → CopiesDisjoint k
    → IsValid dev
    → dev.current_len ≤ count + count
    → MovesUp k count dev
MovesUp-disjoint k count {dev} disjoint v half =
    let n = clamp count dev.current_len in
    disjoint dev.mem 0 n (dev.current_len - n) (inl (ground arith))
      (omega (arith, clamp-le count dev.current_len)) (ground arith)

module _ (k : Uaccess) where
  pub read_copy_refines :
      (pre : List KernelCall) (buf count : ℕ) {dev : Fifo}
      → IsValid dev
      → MovesUp k count dev
      → view (read_copy k pre buf count dev) ≡ dequeue k buf count (contents dev)
  unfolding read_copy contents
  read_copy_refines pre buf count {dev} v moves =
      let len = dev.current_len in
      let n = clamp count len in
      ground (
        arith,
        take-clamp count len dev.mem,
        drop-clamp count len dev.mem,
        length-clamp count len dev.mem,
        clamp-le count len,
        moved-contents dev.mem n len,
      )

  pub write_copy_refines :
      (pre : List KernelCall) (buf count : ℕ) {dev : Fifo}
      → IsFilling k
      → IsValid dev
      → view (write_copy k pre buf count dev) ≡ enqueue k buf count (contents dev)
  unfolding write_copy contents
  write_copy_refines pre buf count {dev} filling v =
      let len = dev.current_len in
      let n = clamp count (sub32 size len) in
      let bytes = (k.from_user buf n).1 in
      let room : n ≡ min count (size - length (take len dev.mem)) =
        ground (arith, length-take len dev.mem) in
      let sum : add32 len n ≡ len + length bytes = ground (arith, filling.fills buf n, room) in
      let whole : take (add32 len n) (blit dev.mem len bytes) ≡ take len dev.mem ++ bytes =
        rw sum (take-blit_end dev.mem len bytes (omega arith)) in
      elim (Bool-cases ((k.from_user buf n).0 == 0)) [
        | inl full ↦ rw (← room, full) (ap (λ q. (ok n, [], q)) whole)
        | inr missed ↦
            rw (← room, missed)
              (ap (λ q. (err efault, [], q)) (take-blit_before dev.mem len bytes (omega arith)))
      ]

  -- Both refinements of read go through what memcpy does on the device that is read.
  read_refines_of_moves :
      (sched : Schedule) (nonblock : Bool) (buf count : ℕ) {dev : Fifo}
      → ((d : Fifo) → IsValid d → IsValid (sched d).0)
      → IsValid dev
      → MovesUp k count dev
      → MovesUp k count (sched dev).0
      → let (dev', signal) = sched dev in
        view (read k sched nonblock buf count dev)
        ≡ blocking
            (is_nil (contents dev))
            nonblock
            signal
            (dequeue k buf count)
            (contents dev)
            (contents dev')
  unfolding read read_enter read_wake
  read_refines_of_moves sched nonblock buf count {dev} others v moves moves' = ground (
    arith,
    is_nil-length (contents dev),
    length-contents v,
    read_copy_refines (enqueued r_wait) buf count v moves,
    read_copy_refines (down ∷ []) buf count (others dev v) moves',
  )

  -- A read of a valid device does to the queue of its contents what the specification says, on
  -- every path: it waits only on an empty queue, gives up when it may not wait or a signal comes,
  -- and otherwise takes up to `count` bytes from the front, or none when copy_to_user fails. The
  -- conditions: `count` is at least half of what the device holds, at the call and again after a
  -- wait, and memcpy is right on ranges that do not overlap; other processes keep the device valid
  -- meanwhile.
  pub read_refines :
      (sched : Schedule) (nonblock : Bool) (buf count : ℕ) {dev : Fifo}
      → CopiesDisjoint k
      → ((d : Fifo) → IsValid d → IsValid (sched d).0)
      → IsValid dev
      → dev.current_len ≤ count + count
      → (sched dev).0.current_len ≤ count + count
      → let (dev', signal) = sched dev in
        view (read k sched nonblock buf count dev)
        ≡ blocking
            (is_nil (contents dev))
            nonblock
            signal
            (dequeue k buf count)
            (contents dev)
            (contents dev')
  read_refines sched nonblock buf count {dev} disjoint others v half half' =
      read_refines_of_moves sched nonblock buf count others v
        (MovesUp-disjoint k count disjoint v half)
        (MovesUp-disjoint k count disjoint (others dev v) half')

  -- A write of a valid device does to the queue of its contents what the specification says, on
  -- every path: it waits only on a queue of 4096 bytes, gives up when it may not wait or a signal
  -- comes, and otherwise appends as many of `count` bytes as there is room for, or none when
  -- copy_from_user fails. Other processes keep the device valid meanwhile.
  pub write_refines :
      (sched : Schedule) (nonblock : Bool) (buf count : ℕ) {dev : Fifo}
      → IsFilling k
      → ((d : Fifo) → IsValid d → IsValid (sched d).0)
      → IsValid dev
      → let (dev', signal) = sched dev in
        view (write k sched nonblock buf count dev)
        ≡ blocking
            (length (contents dev) == size)
            nonblock
            signal
            (enqueue k buf count)
            (contents dev)
            (contents dev')
  unfolding write write_enter write_wake
  write_refines sched nonblock buf count {dev} filling others v = ground (
    arith,
    length-contents v,
    write_copy_refines (enqueued w_wait) buf count filling v,
    write_copy_refines (down ∷ []) buf count filling (others dev v),
  )

-- poll reports exactly that a read would find a byte, and that a write would find room.
pub poll_lem :
    {dev : Fifo}
    → IsValid dev
    → let mask = (poll dev).0 in
      (mask.pollin ≡ not (is_nil (contents dev)))
      × (mask.pollrdnorm ≡ not (is_nil (contents dev)))
      × (mask.pollout ≡ ltb (length (contents dev)) size)
      × (mask.pollwrnorm ≡ ltb (length (contents dev)) size)
unfolding poll
poll_lem {dev} v =
    rw (is_nil-length (contents dev), length-contents v)
      (ground arith, ground arith, ground arith, ground arith)
