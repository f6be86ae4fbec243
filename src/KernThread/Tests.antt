-- ===== src/KernThread/Tests.antt =====
-- kern_thread.c: runs at concrete inputs.
use lkm_practice.Base.{◌≡◌, refl, false, [], ◌∷◌}
use lkm_practice.Kernel.{ok, err, enomem}
use lkm_practice.KernThread.{at_start, in_loop, World, kthread_func, schedule, init, exit}
use lkm_practice.KernThread.Forever.{runs, unloads, Reach, here, next}

-- Both threads have run, and the module is unloaded.
abbrev unloaded : World
unloaded = record { loaded = false; threads = in_loop ∷ in_loop ∷ [] }

both_run : Reach (init (ok 0) (ok 0)).world unloaded
unfolding init exit schedule kthread_func
both_run = next (next (next here (runs 1)) (runs 0)) (unloads refl)

first_left : (init (ok 0) (err enomem)).world.threads ≡ at_start ∷ []
unfolding init
first_left = refl
