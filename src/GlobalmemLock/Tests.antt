-- ===== src/GlobalmemLock/Tests.antt =====
-- Runs of globalmem_lock.c, and its theorems at concrete inputs.
use lkm_practice.Base.{ℕ, ◌≡◌, refl, List, [], ◌∷◌, negsuc}
use lkm_practice.Kernel.{err, efault}
use lkm_practice.Kernel.Samples.{mapped, unmapped}
use lkm_practice.Globalmem
use lkm_practice.GlobalmemLock.{size, lock, unlock, unlocked_ioctl, read, write, llseek}
use lkm_practice.GlobalmemLock.Locking.{without_log, same_as_globalmem}
use lkm_practice.GlobalmemLock.Timer.{Timespec, timer_start, timer_end}

abbrev some_bytes : List ℕ
some_bytes = 1 ∷ 2 ∷ 3 ∷ []

read_fault :
    ((read unmapped 0 2 some_bytes 1).ret ≡ err efault)
    × ((read unmapped 0 2 some_bytes 1).log ≡ lock ∷ unlock ∷ [])
unfolding read
read_fault = (refl, refl)

same_as_globalmem_example :
    (without_log (read mapped 0 2 some_bytes 1) ≡ Globalmem.read size mapped 0 2 some_bytes 1)
    × (without_log (write mapped 0 2 some_bytes 1) ≡ Globalmem.write size mapped 0 2 some_bytes 1)
    × (without_log (unlocked_ioctl 1 some_bytes 1) ≡ Globalmem.compat_ioctl size 1 some_bytes 1)
    × (llseek (negsuc 0) 1 1 ≡ Globalmem.llseek size (negsuc 0) 1 1)
same_as_globalmem_example = same_as_globalmem mapped 0 2 1 some_bytes 1 (negsuc 0) 1

-- A handler that runs over the turn of a second seems to take a negative time.
abbrev before : Timespec
before = record { tv_sec = 5; tv_nsec = 999_999_900 }

abbrev after : Timespec
after = record { tv_sec = 6; tv_nsec = 100 }

turn_of_second : timer_end (timer_start before) after ≡ negsuc 999_999_799
unfolding timer_start timer_end
turn_of_second = refl
