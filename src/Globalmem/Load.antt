-- ===== src/Globalmem/Load.antt =====
-- globalmem.c: loading and unloading the module, with its two devices, as the calls that
-- globalmem_init, globalmem_setup_cdev and globalmem_exit make of the kernel.
use lkm_practice.Base.{
  ℕ, ◌≡◌, ◌≢◌, Bool, true, false, List, [], ◌∷◌, ◌++◌, arith, ◌==◌, if◌then◌else◌, zeroes,
}
use lkm_practice.Kernel.{Ret, ok, err, enomem}
use lkm_practice.Kernel.Chrdev.{
  Answers, Call, register, alloc, unregister, refused, kmalloc, kmalloc_failed, kfree, cdev_add,
  cdev_add_failed, cdev_del, taken_by, allocated,
}

-- What globalmem_init leaves behind; `devices` are the zeroed memories, none if it fails.
pub record Loaded : Type 0 where
  pub ret : Ret
  pub major : ℕ
  pub calls : List Call
  pub devices : List (List ℕ)

-- The error of cdev_add is only printed.
abbrev pub setup_cdev : Bool → ℕ → List Call
setup_cdev failed index = (if failed then cdev_add_failed index else cdev_add index) ∷ []

-- globalmem_init past the registration of its device numbers, by `region`. Without memory it gives
-- one device number back.
init_devices : ℕ → ℕ → Call → Answers → Loaded
init_devices size major region a =
    if a.memory
    then record {
      ret = ok 0;
      major = major;
      calls = region ∷ kmalloc ∷ (setup_cdev (a.cdev_fails 0) 0 ++ setup_cdev (a.cdev_fails 1) 1);
      devices = zeroes size ∷ zeroes size ∷ [];
    }
    else record {
      ret = err enomem;
      major = major;
      calls = region ∷ kmalloc_failed ∷ unregister major 0 1 ∷ [];
      devices = [];
    }

-- `major` is the module parameter globalmem_major; 0 asks for a dynamic number.
unfoldable pub init : ℕ → ℕ → Answers → Loaded
unfolding init_devices
init size major a =
    let chosen = if major == 0 then a.major else major in
    let region = if major == 0 then alloc a.major 0 2 else register major 0 2 in
    elim a.region [
      | err e ↦ record { ret = err e; major = chosen; calls = refused ∷ []; devices = [] }
      | ok n ↦ init_devices size chosen region a
    ]

unfoldable pub exit : ℕ → List Call
exit major = cdev_del 0 ∷ cdev_del 1 ∷ kfree ∷ unregister major 0 2 ∷ []

-- After a successful globalmem_init and globalmem_exit no device number is left registered and no
-- memory allocated; nor are they after a globalmem_init whose registration failed.
pub init-exit_clean :
    (size major : ℕ) (a : Answers) (m n : ℕ)
    → (init size major a).ret ≢ err enomem
    → let l = init size major a in
      let calls : List Call = elim l.ret [ err e ↦ l.calls | ok r ↦ l.calls ++ exit l.major ] in
      (taken_by m n false calls ≡ false) × (allocated false calls ≡ false)
unfolding init exit
init-exit_clean size major a m n other = ground arith

-- A globalmem_init that gets its device numbers but no memory returns ENOMEM and gives back the
-- number of the first device only: the second, which it registered too, stays taken.
pub init_no_memory_leak :
    (size major r : ℕ) (a : Answers)
    → a.region ≡ ok r
    → a.memory ≡ false
    → let l = init size major a in
      (l.ret ≡ err enomem)
      × (taken_by l.major 0 false l.calls ≡ false)
      × (taken_by l.major 1 false l.calls ≡ true)
unfolding init
init_no_memory_leak size major r a granted poor = ground arith
