-- ===== src/Kernel/Chrdev.antt =====
-- Registration of character devices: the calls that a driver's load and unload functions make, in
-- order, and what they leave registered.
use lkm_practice.Base.{
  ℕ, ◌+◌, Bool, true, false, ◌&&◌, List, [], ◌∷◌, ltb, leb, ◌==◌, if◌then◌else◌,
}
use lkm_practice.Kernel.Defs.{Ret}

-- `register` and `alloc` stand for calls that succeeded; the numbers are a major number, the first
-- minor number and the count of minor numbers.
pub data Call : Type 0 where
  register alloc unregister : ℕ → ℕ → ℕ → Call
  refused : Call
  kmalloc kmalloc_failed kfree : Call
  cdev_add cdev_add_failed cdev_del : ℕ → Call
  init_lock init_queue : Call

abbrev pub in_range : ℕ → ℕ → ℕ → Bool
in_range first n minor = leb first minor && ltb minor (first + n)

-- Whether the device number (major, minor) is taken after the calls, as the documentation of
-- register_chrdev_region and unregister_chrdev_region has it. The list is read from the front.
abbrev pub taken_by : ℕ → ℕ → Bool → List Call → Bool
taken_by major minor held [] = held
taken_by major minor held (Call.register m first n ∷ cs) =
    taken_by major minor (if m == major && in_range first n minor then true else held) cs
taken_by major minor held (Call.alloc m first n ∷ cs) =
    taken_by major minor (if m == major && in_range first n minor then true else held) cs
taken_by major minor held (Call.unregister m first n ∷ cs) =
    taken_by major minor (if m == major && in_range first n minor then false else held) cs
taken_by major minor held (c ∷ cs) = taken_by major minor held cs

-- kmalloc'ed structures that are not freed.
abbrev pub allocated : Bool → List Call → Bool
allocated held [] = held
allocated held (Call.kmalloc ∷ cs) = allocated true cs
allocated held (Call.kfree ∷ cs) = allocated false cs
allocated held (c ∷ cs) = allocated held cs

-- Whether a device can be opened while its lock is not initialised.
abbrev pub live_unlocked : List Call → Bool
live_unlocked [] = false
live_unlocked (Call.cdev_add i ∷ cs) = true
live_unlocked (Call.init_lock ∷ cs) = false
live_unlocked (c ∷ cs) = live_unlocked cs

-- What the kernel answers while a driver is loaded:
-- * `region`: the result of register_chrdev_region or alloc_chrdev_region;
-- * `major`: the major number of the device number after alloc_chrdev_region;
-- * `memory`: whether kmalloc gives memory;
-- * `cdev_fails`: whether cdev_add fails, for the device with each index.
pub record Answers : Type 0 where
  pub region : Ret
  pub major : ℕ
  pub memory : Bool
  pub cdev_fails : ℕ → Bool

abbrev pub initialises_lock : List Call → Bool
initialises_lock [] = false
initialises_lock (Call.init_lock ∷ cs) = true
initialises_lock (c ∷ cs) = initialises_lock cs
