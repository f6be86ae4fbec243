-- ===== src/GlobalmemLock/Load.antt =====
-- globalmem_lock.c: loading and unloading the module, as the calls that globalmem_init,
-- globalmem_setup_cdev and globalmem_exit make of the kernel. The line
-- `init_MUTEX(&(globalmem_devp->mutex));` calls nothing, because init_MUTEX is defined as an empty
-- macro.
use lkm_practice.Base.{
  ℕ, ◌≡◌, Bool, false, List, [], ◌∷◌, ◌++◌, arith, ◌==◌, if◌then◌else◌, zeroes, Option, some, none,
}
use lkm_practice.Kernel.{Ret, ok, err, enomem}
use lkm_practice.Kernel.Chrdev.{
  Answers, Call, register, alloc, unregister, refused, kmalloc, kmalloc_failed, kfree, cdev_add,
  cdev_add_failed, cdev_del, taken_by, allocated, initialises_lock,
}
use lkm_practice.GlobalmemLock.{size}

pub record Loaded : Type 0 where
  pub ret : Ret
  pub major : ℕ
  pub calls : List Call
  pub mem : Option (List ℕ)

-- The error of cdev_add is ignored.
abbrev pub setup_cdev : Bool → ℕ → List Call
setup_cdev failed index = (if failed then cdev_add_failed index else cdev_add index) ∷ []

-- globalmem_init past the registration of its device number, by `region`.
init_device : ℕ → Call → Answers → Loaded
init_device major region a =
    if a.memory
    then record {
      ret = ok 0;
      major = major;
      calls = region ∷ kmalloc ∷ setup_cdev (a.cdev_fails 0) 0;
      mem = some (zeroes size);
    }
    else record {
      ret = err enomem;
      major = major;
      calls = region ∷ kmalloc_failed ∷ unregister major 0 1 ∷ [];
      mem = none;
    }

-- `major` is the module parameter globalmem_major; 0 asks for a dynamic number.
unfoldable pub init : ℕ → Answers → Loaded
unfolding init_device
init major a =
    let chosen = if major == 0 then a.major else major in
    let region = if major == 0 then alloc a.major 0 1 else register major 0 1 in
    elim a.region [
      | err e ↦ record { ret = err e; major = chosen; calls = refused ∷ []; mem = none }
      | ok n ↦ init_device chosen region a
    ]

unfoldable pub exit : ℕ → List Call
exit major = cdev_del 0 ∷ kfree ∷ unregister major 0 1 ∷ []

-- What is left when loading failed, or when the module was loaded and unloaded.
abbrev pub leftover : Loaded → List Call
leftover l = elim l.ret [ err e ↦ l.calls | ok n ↦ l.calls ++ exit l.major ]

-- However the kernel answers, a globalmem_init that fails, and one that succeeds followed by
-- globalmem_exit, leave no device number registered and no memory allocated; and globalmem_init
-- never initialises the lock of the device.
pub load_leaves_nothing :
    (major : ℕ) (a : Answers) (m n : ℕ)
    → let calls = leftover (init major a) in
      (taken_by m n false calls ≡ false)
      × (allocated false calls ≡ false)
      × (initialises_lock (init major a).calls ≡ false)
unfolding init exit
load_leaves_nothing major a m n = ground arith
