-- ===== src/Globalfifo/Tests.antt =====
-- Runs of globalfifo.c, and its theorems at concrete inputs.
use lkm_practice.Base.{
  ℕ, ◌+◌, ◌≤◌, ◌≡◌, refl, true, false, List, [], ◌∷◌, ◌++◌, arith, ◌==◌, if◌then◌else◌, length,
  zeroes, blit,
}
use lkm_practice.Kernel.{ok, err, eagain, efault, enomem}
use lkm_practice.Kernel.Samples.{granted, mapped, unmapped, mapped-IsFilling, mapped-CopiesDisjoint}
use lkm_practice.Globalfifo.{
  Fifo, Schedule, enqueued, w_wait, is_nil, size, read, read_enter, read_wake, read_copy, write,
  write_enter, write_copy, unlocked_ioctl, poll,
}
use lkm_practice.Globalfifo.Invariant.{IsValid, handlers-IsValid}
use lkm_practice.Globalfifo.Semaphore.{balanced, handlers-balanced}
use lkm_practice.Globalfifo.Queue.{contents, view, blocking, dequeue, enqueue}
use lkm_practice.Globalfifo.Refine.{read_refines, write_refines}
use lkm_practice.Globalfifo.Stream.{
  System, Step, Reach, start, next, fresh, fresh_dev, finish_read, finish_write,
}
use lkm_practice.Globalfifo.Drain.{Reads, written_is_readable}
use lkm_practice.Globalfifo.Conserve.{AllTakeHalf, fresh_dev-IsValid, stream_conserved}
use lkm_practice.Globalfifo.Stream
use lkm_practice.Globalfifo.Load
use lkm_practice.Globalfifo.Load.{init_leaves_nothing, init-live_unlocked}
use lkm_practice.Globalfifo.Files.{Removes, File, FasyncHelper}

-- No other process runs, and no signal comes.
abbrev still : Schedule
still d = (d, false)

still-IsValid : (d : Fifo) → IsValid d → IsValid (still d).0
still-IsValid d v = v

-- Three bytes from the user's address 10.
abbrev stored : Fifo
stored = (write mapped still false 10 3 fresh_dev).dev

stored-contents : contents stored ≡ 10 ∷ 11 ∷ 12 ∷ []
unfolding contents write write_enter write_copy fresh_dev zeroes blit
stored-contents = refl

read_two : view (read mapped still false 0 2 stored) ≡ (ok 2, 10 ∷ 11 ∷ [], 12 ∷ [])
unfolding contents read read_enter read_copy write write_enter write_copy fresh_dev zeroes blit
read_two = refl

read_empty : (read mapped still true 0 2 fresh_dev).ret ≡ err eagain
unfolding read read_enter read_copy fresh_dev
read_empty = refl

write_bad_address : (write unmapped still true 0 2 fresh_dev).ret ≡ err efault
unfolding write write_enter write_copy fresh_dev
write_bad_address = refl

stored-IsValid : IsValid stored
stored-IsValid =
    (handlers-IsValid mapped mapped-IsFilling still false 10 3 1 still-IsValid fresh_dev-IsValid).1

stored-len : stored.current_len ≤ 2 + 2
unfolding write write_enter write_copy fresh_dev
stored-len = omega arith

read_refines_example :
    view (read mapped still false 0 2 stored)
    ≡ blocking
        (is_nil (contents stored))
        false
        false
        (dequeue mapped 0 2)
        (contents stored)
        (contents stored)
read_refines_example =
    read_refines mapped still false 0 2 mapped-CopiesDisjoint still-IsValid stored-IsValid
      stored-len stored-len

write_refines_example :
    view (write mapped still false 20 2 stored)
    ≡ blocking
        (length (contents stored) == size)
        false
        false
        (enqueue mapped 20 2)
        (contents stored)
        (contents stored)
write_refines_example =
    write_refines mapped still false 20 2 mapped-IsFilling still-IsValid stored-IsValid

handlers-balanced_example :
    (balanced false (read mapped still false 0 2 fresh_dev).log ≡ true)
    × (balanced false (write mapped still false 0 2 fresh_dev).log ≡ true)
    × (balanced false (unlocked_ioctl 1 fresh_dev).log ≡ true)
    × (balanced false (poll fresh_dev).1 ≡ true)
handlers-balanced_example = handlers-balanced mapped still false 0 2 fresh_dev 1

-- Process 1 finds the device empty and sleeps, process 2 writes three bytes, process 1 wakes up and
-- reads two of them.
abbrev slept : System
slept = record fresh { process = Stream.update fresh.process 1 (Stream.reading 0 2) }

abbrev filled : System
filled = finish_write mapped 10 2 (write_copy mapped (enqueued w_wait) 10 3 slept.dev) slept

abbrev handed : System
handed = finish_read 1 (read_wake mapped false 0 2 filled.dev) filled

handed-Reach : Reach mapped handed
unfolding fresh fresh_dev read_enter write_enter
handed-Reach =
    next
      (next (next start (Step.sleep_read 1 0 2 refl refl)) (Step.call_write 2 false 10 3 refl refl))
      (Step.wake_read 1 false refl)

handed-AllTakeHalf : AllTakeHalf handed-Reach
unfolding fresh fresh_dev read_enter write_enter write_copy handed-Reach
handed-AllTakeHalf = (((tt, tt), tt), omega arith)

handed_half : handed.dev.current_len ≤ 1 + 1
unfolding fresh fresh_dev write_copy read_wake read_copy
handed_half = omega arith

stream_conserved_example :
    (handed.written ≡ handed.taken ++ contents handed.dev)
    × (length handed.written ≤ length handed.taken + size)
stream_conserved_example =
    stream_conserved mapped mapped-CopiesDisjoint mapped-IsFilling handed-Reach handed-AllTakeHalf

handed_two : handed.taken ≡ 10 ∷ 11 ∷ []
unfolding fresh fresh_dev read_wake read_copy write_copy zeroes blit
handed_two = refl

fresh_dev-empty : contents fresh_dev ≡ []
unfolding contents fresh_dev
fresh_dev-empty = refl

abbrev full_dev : Fifo
full_dev = record fresh_dev { current_len = size }

full_dev-IsValid : IsValid full_dev
full_dev-IsValid = record { full_array = fresh_dev-IsValid.full_array; within = omega arith }

init_no_memory : (Load.init 300 (granted false)).ret ≡ err enomem
unfolding Load.init
init_no_memory = refl

-- fasync_helper with mode 0 on a list without doubles.
abbrev drop_file : ℕ → List ℕ → List ℕ
drop_file id [] = []
drop_file id (f ∷ fs) = if id == f then drop_file id fs else f ∷ drop_file id fs

abbrev helper : FasyncHelper
helper fd id mode queue = (ok 0, if mode == 0 then drop_file id queue else id ∷ queue)

helper-Removes : Removes helper
helper-Removes fd id [] = refl
helper-Removes fd id (f ∷ fs) = ground (arith, helper-Removes fd id fs)

abbrev file7 : File
file7 = record { id = 7; private_data = 1 }

abbrev watched : Fifo
watched = record fresh_dev { async_queue = 7 ∷ 8 ∷ [] }

idle_3 : handed.process 3 ≡ Stream.idle
unfolding fresh
idle_3 = refl

written_is_readable_example :
    (t : System) × Reads mapped 3 0 1 handed t
    × (t.taken ≡ handed.written)
    × (t.dev.current_len ≡ 0)
written_is_readable_example =
    written_is_readable mapped mapped-CopiesDisjoint mapped-IsFilling 3 0 1 (λ bytes. refl)
      (omega arith) handed-Reach handed-AllTakeHalf handed_half idle_3
