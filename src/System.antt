-- ===== src/System.antt =====
-- The kernel's tasks as one transition system: the table and the scheduler set up, and then timer
-- ticks, system calls and the making and ending of tasks, in any order.
use hobby_os_kernel.Common.{
  ℕ, ◌<◌, ◌≡◌, refl, ap, subst, ◌≢◌, true, false, List, [], ◌∷◌, Option, none, some, arith, ◌==◌,
}
use hobby_os_kernel.Frames.{Ram}
use hobby_os_kernel.Task.{TaskState, Kernel, state_number, task_table_init}
use hobby_os_kernel.Task.Slots.{unused}
use hobby_os_kernel.Task.Init.{
  stacked, task_table_init-Slots, task_table_init-others, task_table_init-unused,
}
use hobby_os_kernel.Scheduler.{kernel_of, scheduler_init, timer_tick_handler}
use hobby_os_kernel.Scheduler.Running.{Sane}
use hobby_os_kernel.Scheduler.Kept.{timer_tick_handler-Sane}
use hobby_os_kernel.Spawn.{Labels, task_create, task_create_kernel, task_destroy}
use hobby_os_kernel.Spawn.Kept.{Makes, task_create-Makes, task_destroy-Sane}
use hobby_os_kernel.Syscall.{syscall_dispatch, sys_wait}
use hobby_os_kernel.Syscall.Kept.{outcome_kernel, Sane-other}
use hobby_os_kernel.Syscall.Invariant.{CurrentLives, syscall_dispatch-Safe, sys_wait-Safe}

-- What may happen next.
pub data Step (k : Kernel) : Kernel → Type 0 where
  -- The timer's interrupt.
  tick : Step k (kernel_of (timer_tick_handler k))
  -- A system call of the current task, which is not dead; it ends or is suspended.
  call :
      (labels : Labels) (fuel regs : ℕ)
      → CurrentLives k
      → Step k (outcome_kernel (syscall_dispatch labels fuel regs k))
  -- A `sys_wait` that was suspended looks for a child again.
  wait_again :
      (fuel child_id : ℕ) → CurrentLives k → Step k (outcome_kernel (sys_wait fuel child_id k))
  -- Code that is not of the tasks' table: it changes memory, the page tables, and what is printed.
  other_code :
      (ram : Ram) (cr3 : ℕ) (written : List ℕ)
      → Step k (record k { ram = ram; cr3 = cr3; written = written })
  create : Step k (task_create k).1
  create_kernel : (labels : Labels) (entry : ℕ) → Step k (task_create_kernel labels entry k).1
  destroy :
      (t : ℕ)
      → t < 64
      → k.current_task ≢ some t
      → unused k.task_table t ≡ false
      → Step k (task_destroy (some t) k)
  -- The boot code makes a first task the current one.
  begin :
      (t : ℕ)
      → t < 64
      → unused k.task_table t ≡ false
      → k.current_task ≡ none
      → Step k (record k { current_task = some t })

-- The states after the set-up, in which no task is current.
pub data Reach : Kernel → Type 0 where
  boot : (k : Kernel) → k.current_task ≡ none → Reach (scheduler_init (task_table_init k))
  later : {k l : Kernel} → Reach k → Step k l → Reach l

boot-Sane :
    (k : Kernel) → k.current_task ≡ none → Sane (scheduler_init (task_table_init k)) (stacked 63 [])
unfolding scheduler_init
boot-Sane k start = record {
  slots = task_table_init-Slots k;
  current_small = λ c e. absurd (nobody e);
  current_used = λ c e. absurd (nobody e);
  single = λ i h runs. absurd (clash (k'.task_table i).state (task_table_init-unused k i h) runs);
  no_idle = refl;
}
  where
    k' : Kernel
    k' = task_table_init k

    nobody : {c : ℕ} → (task_table_init k).current_task ≡ some c → ⊥
    nobody e = cc (e, (task_table_init-others k).0, start)

    clash : (s : TaskState) → (state_number s == 0) ≡ true → (state_number s == 2) ≡ true → ⊥
    clash s h r = ground arith

Makes-Sane : (xs : List ℕ) (r : Option ℕ × Kernel) → Makes xs r → (ys : List ℕ) × Sane r.1 ys
Makes-Sane xs (none, k) s = (xs, s)
Makes-Sane xs (some t, k) (ys, e, s, ready) = (ys, s)

begin-Sane :
    {k : Kernel} {xs : List ℕ} (t : ℕ)
    → Sane k xs
    → t < 64
    → unused k.task_table t ≡ false
    → k.current_task ≡ none
    → Sane (record k { current_task = some t }) xs
begin-Sane {k} t s small used nobody = record {
  slots = s.slots;
  current_small = λ c e. subst (λ n. n < 64) (some_inj e) small;
  current_used = λ c e. subst (λ n. unused k.task_table n ≡ false) (some_inj e) used;
  single = λ i h runs. absurd (nothing_runs i (s.single i h runs));
  no_idle = s.no_idle;
}
  where
    value : Option ℕ → ℕ
    value none = 0
    value (some a) = a

    some_inj : {c : ℕ} → some t ≡ some c → t ≡ c
    some_inj e = ap value e

    nothing_runs : (i : ℕ) → k.current_task ≡ some i → ⊥
    nothing_runs i e = cc (e, nobody)

Step-Sane : {k l : Kernel} {xs : List ℕ} → Step k l → Sane k xs → (ys : List ℕ) × Sane l ys
Step-Sane {xs} tick s = (xs, timer_tick_handler-Sane s)
Step-Sane (call labels fuel regs lives) s = syscall_dispatch-Safe labels fuel regs s lives
Step-Sane (wait_again fuel child_id lives) s = sys_wait-Safe fuel child_id s lives
Step-Sane {xs} (other_code ram cr3 written) s = (xs, Sane-other ram cr3 written s)
Step-Sane {k} {xs} create s = Makes-Sane xs (task_create k) (task_create-Makes k xs s).0
Step-Sane {k} {xs} (create_kernel labels entry) s =
    Makes-Sane xs (task_create_kernel labels entry k) ((task_create-Makes k xs s).1 labels entry)
Step-Sane {k} {xs} (destroy t small other used) s =
    (t ∷ xs, (task_destroy-Sane k xs t s small other).1 used)
Step-Sane {xs} (begin t small used nobody) s = (xs, begin-Sane t s small used nobody)

-- In every state that the kernel reaches from its set-up, by timer ticks, system calls, code that
-- changes memory and the making and ending of tasks in any order, the invariant `Sane` holds: the free
-- list holds the unused slots from 1 on, each once, so that no slot is lost or handed out twice, the
-- current task is a used slot of the table, and no other task is in the state RUNNING.
pub Reach-Sane : {k : Kernel} → Reach k → (xs : List ℕ) × Sane k xs
Reach-Sane (boot k start) = (stacked 63 [], boot-Sane k start)
Reach-Sane (later r step) = let (xs, s) = Reach-Sane r in Step-Sane step s
