-- ===== src/KernThread.antt =====
-- kern_thread.c: a module that starts two kernel threads, which never end.
pub mod Forever
mod Tests
use lkm_practice.Base.{ℕ, zero, suc, ◌+◌, Bool, true, false, List, [], ◌∷◌, if◌then◌else◌}
use lkm_practice.Kernel.{Ret, ok, err, Errno}

-- Where a thread is in kthread_func: at its start, in the loop, behind the loop, returned.
pub data Pc : Type 0 where
  at_start in_loop behind_loop : Pc
  returned : ℕ → Pc

-- One statement of kthread_func: the first message, a round of `while(1) schedule();`, the last
-- message with the return.
pub kthread_func : Pc → Pc
kthread_func at_start = in_loop
kthread_func in_loop = if true then in_loop else behind_loop
kthread_func behind_loop = returned 0
kthread_func (returned n) = returned n

-- Whether the module is loaded, and its threads.
pub record World : Type 0 where
  pub loaded : Bool
  pub threads : List Pc

pub record Started : Type 0 where
  pub ret : Ret
  pub world : World

-- init_func; `first` and `second` are the results of kthread_run. Where the second thread cannot be
-- started, the first one runs on, and the module is not loaded.
pub init : Ret → Ret → Started
init (err e) second = record { ret = err e; world = record { loaded = false; threads = [] } }
init (ok n) (err e) = record {
  ret = err e;
  world = record { loaded = false; threads = at_start ∷ [] };
}
init (ok n) (ok m) = record {
  ret = ok 0;
  world = record { loaded = true; threads = at_start ∷ at_start ∷ [] };
}

-- exit_func, after which the kernel removes the module's code. It only prints.
pub exit : World → World
exit w = record w { loaded = false }

-- The scheduler runs the thread with the index `i`.
pub schedule : ℕ → List Pc → List Pc
schedule i [] = []
schedule zero (t ∷ ts) = kthread_func t ∷ ts
schedule (suc i) (t ∷ ts) = t ∷ schedule i ts
