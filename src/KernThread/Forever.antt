-- ===== src/KernThread/Forever.antt =====
-- kern_thread.c: the threads outlive their module.
use lkm_practice.Base.{ℕ, zero, suc, ◌≡◌, refl, ap, ◌∙◌, true, List, [], ◌∷◌, length}
use lkm_practice.Kernel.{Ret, ok, err}
use lkm_practice.KernThread.{Pc, at_start, in_loop, kthread_func, World, init, exit, schedule}

-- What happens once init_func has run: threads are scheduled, in any order, and a module that is
-- loaded is unloaded.
pub data Step (s : World) : World → Type 0 where
  runs : (i : ℕ) → Step s (record s { threads = schedule i s.threads })
  unloads : s.loaded ≡ true → Step s (exit s)

pub data Reach (s : World) : World → Type 0 where
  here : Reach s s
  next : {t u : World} → Reach s t → Step t u → Reach s u

-- Each thread is before its loop or in it.
pub data Alive : List Pc → Type 0 where
  nobody : Alive []
  starting : {ts : List Pc} → Alive ts → Alive (at_start ∷ ts)
  looping : {ts : List Pc} → Alive ts → Alive (in_loop ∷ ts)

schedule-Alive :
    (i : ℕ) {ts : List Pc} → Alive ts → Alive (schedule i ts) × (length (schedule i ts) ≡ length ts)
unfolding schedule kthread_func
schedule-Alive i nobody = (nobody, refl)
schedule-Alive zero (starting rest) = (looping rest, refl)
schedule-Alive zero (looping rest) = (looping rest, refl)
schedule-Alive (suc i) (starting rest) =
    let (alive, same) = schedule-Alive i rest in (starting alive, ap suc same)
schedule-Alive (suc i) (looping rest) =
    let (alive, same) = schedule-Alive i rest in (looping alive, ap suc same)

Step-Alive :
    {s t : World}
    → Alive s.threads
    → Step s t
    → Alive t.threads × (length t.threads ≡ length s.threads)
unfolding exit
Step-Alive alive (runs i) = schedule-Alive i alive
Step-Alive alive (unloads loaded) = (alive, refl)

Reach-Alive :
    {s t : World}
    → Alive s.threads
    → Reach s t
    → Alive t.threads × (length t.threads ≡ length s.threads)
Reach-Alive alive here = (alive, refl)
Reach-Alive alive (next run step) =
    let (before, same) = Reach-Alive alive run in
    let (after, same') = Step-Alive before step in (after, same' ∙ same)

-- How many threads kthread_run started.
abbrev pub started : Ret → Ret → ℕ
started (err e) second = 0
started (ok n) (err e) = 1
started (ok n) (ok m) = 2

init-Alive :
    (first second : Ret)
    → Alive (init first second).world.threads
      × (length (init first second).world.threads ≡ started first second)
unfolding init
init-Alive (err e) second = (nobody, refl)
init-Alive (ok n) (err e) = (starting nobody, refl)
init-Alive (ok n) (ok m) = (starting (starting nobody), refl)

-- However the threads are scheduled, and whether the module is still loaded or not, none of the
-- threads that were started ends: after init_func, also one that failed, and after exit_func, they are
-- all still before their loop or in it, in the code of the module.
pub threads_stay :
    (first second : Ret) {t : World}
    → Reach (init first second).world t
    → Alive t.threads × (length t.threads ≡ started first second)
threads_stay first second run =
    let (begun, count) = init-Alive first second in
    let (alive, same) = Reach-Alive begun run in (alive, same ∙ count)
