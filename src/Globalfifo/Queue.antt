-- ===== src/Globalfifo/Queue.antt =====
-- globalfifo.c against its specification: a queue of at most 4096 bytes, oldest first.
use lkm_practice.Base.{
  ℕ, ◌-◌, ◌≡◌, Bool, List, [], ◌++◌, arith, ◌==◌, length, take, drop, min, if◌then◌else◌,
  length-take, length-zeroes, refl,
}
use lkm_practice.Kernel.{Uaccess, Ret, ok, err, eagain, efault, erestartsys}
use lkm_practice.Globalfifo.{Fifo, Done, size, unlocked_ioctl, fifo_clear}
use lkm_practice.Globalfifo.Invariant.{IsValid}

-- The bytes that the device holds.
unfoldable pub contents : Fifo → List ℕ
contents dev = take dev.current_len dev.mem

pub length-contents : {dev : Fifo} → IsValid dev → length (contents dev) ≡ dev.current_len
unfolding contents
length-contents {dev} v = omega (arith, length-take dev.current_len dev.mem)

-- FIFO_CLEAR succeeds, and leaves an empty queue.
pub clear_lem :
    (dev : Fifo)
    → let d = unlocked_ioctl fifo_clear dev in
      IsValid d.dev × (contents d.dev ≡ []) × (d.ret ≡ ok 0)
unfolding unlocked_ioctl contents
clear_lem dev = (record { full_array = length-zeroes size; within = omega arith }, refl, refl)

-- What a caller sees of a call: the return value, the bytes it got, and the queue afterwards.
abbrev pub View : Type 0
View = Ret × List ℕ × List ℕ

abbrev pub view : Done → View
view d = (d.ret, d.sent, contents d.dev)

-- Taking up to `count` bytes from the front; nothing is lost when the user's buffer is bad.
abbrev pub dequeue : Uaccess → ℕ → ℕ → List ℕ → View
dequeue k buf count q =
    if k.to_user buf (take count q) == 0
    then (ok (length (take count q)), take count q, drop count q)
    else (err efault, [], q)

-- Appending as many of `count` bytes as there is room for.
abbrev pub enqueue : Uaccess → ℕ → ℕ → List ℕ → View
enqueue k buf count q =
    let n = min count (size - length q) in
    let (missed, bytes) = k.from_user buf n in
    if missed == 0 then (ok n, [], q ++ bytes) else (err efault, [], q)

-- A call that may sleep: `q` is the queue when it begins, `q'` the queue when it wakes up.
abbrev pub blocking : Bool → Bool → Bool → (List ℕ → View) → List ℕ → List ℕ → View
blocking must_wait nonblock signal body q q' =
    if must_wait
    then (if nonblock
        then (err eagain, [], q)
        else if signal
        then (err erestartsys, [], q')
        else body q')
    else body q
