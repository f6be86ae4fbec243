-- ===== src/Second.antt =====
-- second.c: a device whose timer counts seconds while it is open.
pub mod Timer
pub mod Count
pub mod Alive
pub mod Release
pub mod Load
mod Tests
use lkm_practice.Base.{ℕ, ◌+◌, ◌%◌, ◌^◌, Bool, Option, none, some, if◌then◌else◌, word64}
use lkm_practice.Kernel.{Ret, ok, err, efault}

-- struct second_dev: the bits of its atomic counter, and its timer, whose value of jiffies is kept
-- while it is pending.
pub record Dev : Type 0 where
  pub counter : ℕ
  pub s_timer : Option ℕ

-- second_timer_handler; HZ and jiffies are the kernel's.
unfoldable pub timer_handler : ℕ → ℕ → Dev → Dev
timer_handler hz jiffies dev = record {
  counter = (dev.counter + 1) % 2 ^ 32;
  s_timer = some (word64 (jiffies + hz));
}

-- second_open, which returns 0. It sets the timer up anew, which the kernel does not allow while it is
-- pending: that is `none`.
unfoldable pub open_file : ℕ → ℕ → Dev → Option Dev
open_file hz jiffies dev = elim dev.s_timer [
  | some e ↦ none
  | none ↦ some (record { counter = 0; s_timer = some (word64 (jiffies + hz)) })
]

-- second_release, which returns 0.
pub release : Dev → Dev
release dev = record dev { s_timer = none }

-- What a read returns, and the int that it puts into user space.
pub record Answer : Type 0 where
  pub ret : Ret
  pub sent : Option ℕ

-- second_read, of any number of bytes; `faults` is whether put_user fails.
unfoldable pub read : Bool → Dev → Answer
read faults dev =
    if faults
    then record { ret = err efault; sent = none }
    else record { ret = ok 4; sent = some dev.counter }
