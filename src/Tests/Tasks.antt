-- ===== src/Tests/Tasks.antt =====
-- Concrete inputs for the theorems on tasks and the scheduler.
use hobby_os_kernel.Common.{
  ℕ, ◌+◌, ◌-◌, ◌%◌, ◌<◌, ◌≡◌, refl, ap, subst, ◌∙◌, ◌≢◌, true, false, [], ◌∷◌, Option, none, some,
  arith, if◌then◌else◌, ◌==◌, leb,
}
use hobby_os_kernel.Task.{Task, TaskState, Kernel, task_runnable, task_running, task_dead, blank}
use hobby_os_kernel.Task.Slots.{unused}
use hobby_os_kernel.Scheduler.{scheduler_pick_next}
use hobby_os_kernel.Scheduler.Pick.{runnable, IsNextOffset, picked, scheduler_pick_next-first}
use hobby_os_kernel.Scheduler.Turns.{runnable-HasTurn, HasTurn, TakesTurns}
use hobby_os_kernel.Scheduler.Running.{Sane, is_running}
use hobby_os_kernel.Spawn.{Labels, task_create, task_create_kernel, task_fork}
use hobby_os_kernel.Spawn.Kept.{Makes, task_create-Makes, task_fork-Makes}
use hobby_os_kernel.Tests.Paging.{cleared}

abbrev pub task_in : TaskState → ℕ → ℕ → Task
task_in s i parent = record (blank i none) {
  state = s;
  pml4 = some 20480;
  kstack_top = some 8192;
  parent_id = parent;
}

-- Slot 1 runs, slot 2 is runnable, slot 3 is free, and the others have ended.
abbrev table_of : ℕ → Task
table_of i =
    if i == 1
    then task_in task_running 1 0
    else (if i == 2
        then task_in task_runnable 2 1
        else (if leb 4 i then task_in task_dead i 1 else blank i none))

abbrev pub busy : Kernel
busy = record {
  task_table = table_of;
  task_free_list = some 3;
  current_task = some 1;
  idle_task = none;
  ticks = 19;
  cr3 = 20480;
  rsp0 = 0;
  ram = cleared;
  written = [];
}

abbrev pub value_or_0 : Option ℕ → ℕ
value_or_0 none = 0
value_or_0 (some n) = n

pub busy-Sane : Sane busy (3 ∷ [])
busy-Sane = record {
  slots = record {
    chain = (refl, refl);
    once = (refl, tt);
    inside = λ i h. ground (arith, h);
    listed = λ i h. ground (arith, h);
    reserved = refl;
  };
  current_small = λ c e. subst (λ n. n < 64) (ap value_or_0 e) (omega arith);
  current_used = λ c e. subst (λ n. unused table_of n ≡ false) (ap value_or_0 e) refl;
  single = λ i h r. ap some (only_one i r);
  no_idle = refl;
}
  where
    only_one : (i : ℕ) → is_running table_of i ≡ true → 1 ≡ i
    only_one i r = ground (arith, r)

abbrev pub some_labels : Labels
some_labels = record {
  hhdm_offset = 0xffff800000000000;
  syscall_entry_return = 5000;
  task_entry_trampoline = 6000;
}

task_create-Makes_example :
    Makes (3 ∷ []) (task_create busy)
    × ((labels : Labels) (entry : ℕ) → Makes (3 ∷ []) (task_create_kernel labels entry busy))
task_create-Makes_example = task_create-Makes busy (3 ∷ []) busy-Sane

task_fork-Makes_example : Makes (3 ∷ []) (task_fork some_labels 1 8192 busy)
task_fork-Makes_example = task_fork-Makes some_labels 1 8192 busy (3 ∷ []) busy-Sane

not_current : busy.current_task ≢ some 4
not_current e = absurd (omega (arith, ap value_or_0 e))

scheduler_pick_next-first_example :
    (offset : Option ℕ) × IsNextOffset busy 1 offset
    × (scheduler_pick_next (some 1) busy ≡ some (picked busy 1 offset))
scheduler_pick_next-first_example = scheduler_pick_next-first busy 1 (omega arith)

-- Task 2 is the only runnable one, so it is picked from every slot.
only_two : (i : ℕ) → runnable busy i ≡ true → i ≡ 2
only_two i r = ground (arith, r)

at_two : (n : ℕ) → 2 ≡ n → runnable busy n ≡ true
at_two n e = subst (λ m. runnable busy m ≡ true) e refl

picks_two : (c : ℕ) → c < 64 → scheduler_pick_next (some c) busy ≡ some 2
picks_two c h = let (o, first, e) = scheduler_pick_next-first busy c h in e ∙ ap some (two o first)
  where
    two : (o : Option ℕ) → IsNextOffset busy c o → picked busy c o ≡ 2
    two none first = absurd (cc (here, first ((65 - c) % 64 + 1) (omega arith) (omega arith)))
      where
        here : runnable busy ((c + ((65 - c) % 64 + 1)) % 64) ≡ true
        here = at_two ((c + ((65 - c) % 64 + 1)) % 64) (omega arith)
    two (some d) first = only_two ((c + d) % 64) first.2

abbrev turn_of : ℕ → ℕ
turn_of n = if n == 0 then 1 else 2

busy-TakesTurns : TakesTurns (λ n. busy) turn_of
busy-TakesTurns n = picks_two (turn_of n) (ground arith) ∙ ap some (ground arith)

runnable-HasTurn_example : HasTurn turn_of 0 64 2
runnable-HasTurn_example =
    runnable-HasTurn (λ n. busy) turn_of 2 busy-TakesTurns (omega arith) (λ n. refl) (omega arith)
