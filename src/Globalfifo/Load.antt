-- ===== src/Globalfifo/Load.antt =====
-- globalfifo.c: loading and unloading the module (globalfifo_init, globalfifo_setup_cdev,
-- globalfifo_exit), as the calls that they make of the kernel.
use lkm_practice.Base.{
  ℕ, ◌≡◌, Bool, true, false, Option, none, some, List, [], ◌∷◌, ◌++◌, arith, ◌==◌, if◌then◌else◌,
  zeroes,
}
use lkm_practice.Kernel.{Ret, ok, err, enomem}
use lkm_practice.Kernel.Chrdev.{
  Answers, Call, register, alloc, unregister, refused, kmalloc, kmalloc_failed, kfree, cdev_add,
  cdev_add_failed, cdev_del, init_lock, init_queue, taken_by, allocated, live_unlocked,
}
use lkm_practice.Globalfifo.{Fifo, size}

-- What globalfifo_init leaves behind: its result, the module parameter, its calls, the device.
pub record Loaded : Type 0 where
  pub ret : Ret
  pub major : ℕ
  pub calls : List Call
  pub dev : Option Fifo

-- The error of cdev_add is only printed.
abbrev pub setup_cdev : Bool → ℕ → List Call
setup_cdev failed index = (if failed then cdev_add_failed index else cdev_add index) ∷ []

-- globalfifo_init past the registration of its device number, by `region`.
init_device : ℕ → Call → Answers → Loaded
init_device major region a =
    if a.memory
    then record {
      ret = ok 0;
      major = major;
      calls =
          region
          ∷ kmalloc
          ∷ (setup_cdev (a.cdev_fails 0) 0 ++ init_lock ∷ init_queue ∷ init_queue ∷ []);
      dev = some (record { current_len = 0; mem = zeroes size; async_queue = [] });
    }
    else record {
      ret = err enomem;
      major = major;
      calls = region ∷ kmalloc_failed ∷ unregister major 0 1 ∷ [];
      dev = none;
    }

-- `major` is the module parameter globalfifo_major; 0 asks for a dynamic number.
unfoldable pub init : ℕ → Answers → Loaded
unfolding init_device
init major a =
    let chosen = if major == 0 then a.major else major in
    let region = if major == 0 then alloc a.major 0 1 else register major 0 1 in
    elim a.region [
      | err e ↦ record { ret = err e; major = chosen; calls = refused ∷ []; dev = none }
      | ok n ↦ init_device chosen region a
    ]

pub exit : ℕ → List Call
exit major = cdev_del 0 ∷ kfree ∷ unregister major 0 1 ∷ []

-- What is left when loading failed, or when the module was loaded and unloaded.
abbrev pub leftover : Loaded → List Call
leftover l = elim l.ret [ err e ↦ l.calls | ok n ↦ l.calls ++ exit l.major ]

-- However the kernel answers, when globalfifo_init fails, and when it succeeds and globalfifo_exit
-- has run, no device number is left registered and no memory allocated.
pub init_leaves_nothing :
    (major : ℕ) (a : Answers) (m n : ℕ)
    → let calls = leftover (init major a) in
      (taken_by m n false calls ≡ false) × (allocated false calls ≡ false)
unfolding init exit
init_leaves_nothing major a m n = ground arith

-- When globalfifo_init succeeds and cdev_add did, the device is live, so that its handlers may
-- run, before its semaphore is initialised.
pub init-live_unlocked :
    (major : ℕ) (a : Answers)
    → (init major a).ret ≡ ok 0
    → a.cdev_fails 0 ≡ false
    → live_unlocked (init major a).calls ≡ true
unfolding init
init-live_unlocked major a loaded added = ground arith
