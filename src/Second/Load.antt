-- ===== src/Second/Load.antt =====
-- second.c: loading and unloading the module, as the calls that second_init and second_exit make.
use lkm_practice.Base.{
  ℕ, ◌≡◌, false, List, [], ◌∷◌, ◌++◌, arith, ◌==◌, if◌then◌else◌, Option, some, none,
}
use lkm_practice.Kernel.{Ret, ok, err, enomem}
use lkm_practice.Kernel.Chrdev.{
  Answers, Call, register, alloc, unregister, refused, kmalloc, kmalloc_failed, kfree, cdev_add,
  cdev_add_failed, cdev_del, taken_by, allocated,
}
use lkm_practice.Second.{Dev}

-- `devp` is the device as memset leaves it, if there was memory for it; `major` the value of
-- second_major.
pub record Loaded : Type 0 where
  pub ret : Ret
  pub major : ℕ
  pub calls : List Call
  pub devp : Option Dev

-- second_init past the registration of its device number, by `region`. The error of cdev_add is only
-- printed.
init_device : ℕ → Call → Answers → Loaded
init_device major region a =
    if a.memory
    then record {
      ret = ok 0;
      major = major;
      calls = region ∷ kmalloc ∷ (if a.cdev_fails 0 then cdev_add_failed 0 else cdev_add 0) ∷ [];
      devp = some (record { counter = 0; s_timer = none });
    }
    else record {
      ret = err enomem;
      major = major;
      calls = region ∷ kmalloc_failed ∷ unregister major 0 1 ∷ [];
      devp = none;
    }

-- `major` is the module parameter second_major; 0 asks for a number.
pub init : ℕ → Answers → Loaded
unfolding init_device
init major a =
    if major == 0
    then elim a.region [
      | err e ↦ record { ret = err e; major = a.major; calls = refused ∷ []; devp = none }
      | ok n ↦ init_device a.major (alloc a.major 0 1) a
    ]
    else elim a.region [
      | err e ↦ record { ret = err e; major = major; calls = refused ∷ []; devp = none }
      | ok n ↦ init_device major (register major 0 1) a
    ]

-- second_exit
pub exit : ℕ → List Call
exit major = cdev_del 0 ∷ kfree ∷ unregister major 0 1 ∷ []

-- What is left when loading failed, or when the module was loaded and unloaded.
abbrev pub leftover : Loaded → List Call
leftover l = elim l.ret [ err e ↦ l.calls | ok n ↦ l.calls ++ exit l.major ]

-- The device that a load which returned `r` leaves.
abbrev pub device_after : Ret → Option Dev
device_after (ok n) = some (record { counter = 0; s_timer = none })
device_after (err e) = none

-- However the kernel answers, loading that fails leaves no device number taken and no memory
-- allocated, and neither does loading that succeeds, followed by unloading; after a load there is a
-- device, with no timer and a counter of 0, exactly if it succeeded.
pub init-exit :
    (major : ℕ) (a : Answers) (m n : ℕ)
    → let l = init major a in
      (taken_by m n false (leftover l) ≡ false)
      × (allocated false (leftover l) ≡ false)
      × (l.devp ≡ device_after l.ret)
unfolding init init_device exit
init-exit major a m n = ground arith
