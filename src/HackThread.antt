-- ===== src/HackThread.antt =====
-- hack_thread.c: a module that prints the first of the kernel's tasks while it is loaded.
use lkm_practice.Base.{
  ℕ, zero, suc, ◌+◌, ◌-◌, ◌≡◌, refl, ap, ◌∙◌, sym, List, [], ◌∷◌, ltb, if◌then◌else◌, take, arith,
  Bool-cases, inl, inr,
}

-- struct task_struct, the fields that are printed; the addresses of mm and active_mm.
pub record Task : Type 0 where
  pub pid : ℕ
  pub comm : List ℕ
  pub mm : ℕ
  pub active_mm : ℕ

-- The loop of hack_thread_init over the tasks that are left; `i` counts those before. There are far
-- fewer tasks than an int can count.
pub for_each_process : ℕ → List Task → List Task
for_each_process i [] = []
for_each_process i (task ∷ tasks) =
    let rest = for_each_process (i + 1) tasks in if ltb i 10 then task ∷ rest else rest

-- hack_thread_init: the tasks that it prints, for the kernel's init_task and its list of the others.
pub init : Task → List Task → List Task
init init_task tasks = init_task ∷ for_each_process 0 tasks

take_nil : (n : ℕ) → take {A = Task} n [] ≡ []
take_nil zero = refl
take_nil (suc n) = refl

for_each_process-take : (i : ℕ) (tasks : List Task) → for_each_process i tasks ≡ take (10 - i) tasks
unfolding for_each_process
for_each_process-take i [] = sym (take_nil (10 - i))
for_each_process-take i (task ∷ tasks) = elim (Bool-cases (ltb i 10)) [
  | inl early ↦
      let left : 10 - i ≡ suc (10 - (i + 1)) = ground arith in
      rw (early, left) (ap (λ r. task ∷ r) (for_each_process-take (i + 1) tasks))
  | inr late ↦
      let nothing : 10 - i ≡ 0 = ground arith in
      let nothing' : 10 - (i + 1) ≡ 0 = ground arith in
      rw (late, nothing) (for_each_process-take (i + 1) tasks ∙ ap (λ n. take n tasks) nothing')
]

-- Of all tasks the first ten are printed, after init_task.
init-take :
    (init_task : Task) (tasks : List Task) → init init_task tasks ≡ init_task ∷ take 10 tasks
unfolding init
init-take init_task tasks = ap (λ r. init_task ∷ r) (for_each_process-take 0 tasks)
