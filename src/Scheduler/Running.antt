-- ===== src/Scheduler/Running.antt =====
-- Which tasks run: the invariant of the table and of `current_task` under the switches.
use hobby_os_kernel.Common.{
  ℕ, ◌<◌, ◌≡◌, refl, sym, ap, ◌∙◌, subst, ◌⊎◌, ◌≢◌, inl, inr, Bool, true, false, Option, none, some,
  arith, ℕ_discrete, List,
}
use hobby_os_kernel.Task.{Task, Kernel, task_unused, task_running, in_state, set_task, update}
use hobby_os_kernel.Task.Slots.{unused, Slots, Slots-set_task, set_task_ne, set_task_self}
use hobby_os_kernel.Scheduler.{
  or_else, scheduler_pick_next, switch_address_space, set_stack, running,
}
use hobby_os_kernel.Scheduler.Pick.{runnable, IsNextOffset, picked, scheduler_pick_next-first}

abbrev pub is_running : (ℕ → Task) → ℕ → Bool
is_running table i = in_state task_running (table i)

-- The free slots are in order, the current task is a used slot of the table, no other task is in the
-- state RUNNING, and there is no idle task, since no code sets one.
pub record Sane (k : Kernel) (xs : List ℕ) : Type 0 where
  pub slots : Slots k.task_table k.task_free_list xs
  pub current_small : (c : ℕ) → k.current_task ≡ some c → c < 64
  pub current_used : (c : ℕ) → k.current_task ≡ some c → unused k.task_table c ≡ false
  pub single : (i : ℕ) → i < 64 → is_running k.task_table i ≡ true → k.current_task ≡ some i
  pub no_idle : k.idle_task ≡ none

-- The picked task is `c` itself, or a runnable task of the table.
abbrev pub CanRun : Kernel → ℕ → ℕ → Type 0
CanRun k c n = (n ≡ c) ⊎ ((n < 64) × (runnable k n ≡ true))

picked-CanRun :
    (k : Kernel) (c : ℕ) (o : Option ℕ)
    → k.idle_task ≡ none
    → IsNextOffset k c o
    → CanRun k c (picked k c o)
picked-CanRun k c none no_idle first = inl (ap (λ idle. or_else idle c) no_idle)
picked-CanRun k c (some d) no_idle first = inr (omega arith, first.2)

pub pick_next-CanRun :
    (k : Kernel) (c : ℕ)
    → c < 64
    → k.idle_task ≡ none
    → (n : ℕ) × (scheduler_pick_next (some c) k ≡ some n) × CanRun k c n
pick_next-CanRun k c small no_idle =
    let (o, first, e) = scheduler_pick_next-first k c small in
    (picked k c o, e, picked-CanRun k c o no_idle first)

-- A change to a used task that leaves it in use, and does not make it run.
pub Sane-update :
    {k : Kernel} {xs : List ℕ} {i : ℕ} (task : Task)
    → Sane k xs
    → i < 64
    → unused k.task_table i ≡ false
    → in_state task_unused task ≡ false
    → (in_state task_running task ≡ true → is_running k.task_table i ≡ true)
    → Sane (record k { task_table = set_task k.task_table i task }) xs
Sane-update {k} {xs} {i} task s small used still calm = record {
  slots = Slots-set_task task s.slots small used still;
  current_small = s.current_small;
  current_used = λ c e. elim (ℕ_discrete c i) [
    | yes here ↦ rw here (ap (in_state task_unused) (set_task_self k.task_table i task) ∙ still)
    | no ne ↦ ap (in_state task_unused) (set_task_ne k.task_table i c task ne) ∙ s.current_used c e
  ];
  single = λ j h runs. elim (ℕ_discrete j i) [
    | yes here ↦ s.single j h (
        subst (λ n. is_running k.task_table n ≡ true) (sym here)
          (calm (
            sym (ap (in_state task_running) (set_task_self k.task_table i task))
            ∙ subst (λ n. is_running (set_task k.task_table i task) n ≡ true) here runs)))
    | no ne ↦
        s.single j h
          (sym (ap (in_state task_running) (set_task_ne k.task_table i j task ne)) ∙ runs)
  ];
  no_idle = s.no_idle;
}

pub switch-Sane :
    (k : Kernel) (xs : List ℕ) (pml4 top : Option ℕ)
    → Sane k xs
    → Sane (set_stack top (switch_address_space pml4 k)) xs
switch-Sane k xs none none s = s
switch-Sane k xs none (some top) s = record {
  slots = s.slots;
  current_small = s.current_small;
  current_used = s.current_used;
  single = s.single;
  no_idle = s.no_idle;
}
switch-Sane k xs (some pml4) none s = record {
  slots = s.slots;
  current_small = s.current_small;
  current_used = s.current_used;
  single = s.single;
  no_idle = s.no_idle;
}
switch-Sane k xs (some pml4) (some top) s = record {
  slots = s.slots;
  current_small = s.current_small;
  current_used = s.current_used;
  single = s.single;
  no_idle = s.no_idle;
}

abbrev pub run_next : ℕ → Kernel → Kernel
run_next n k = record (update n running k) { current_task = some n }

-- The old task is not in the state RUNNING any more, so the new one may be.
pub run_next-Sane :
    {k : Kernel} {xs : List ℕ} (c n : ℕ)
    → Sane k xs
    → k.current_task ≡ some c
    → is_running k.task_table c ≡ false
    → n < 64
    → unused k.task_table n ≡ false
    → Sane (run_next n k) xs
run_next-Sane {k} {xs} c n s cur stopped small used = record {
  slots = Slots-set_task (running (k.task_table n)) s.slots small used refl;
  current_small = λ i e. subst (λ j. j < 64) (some_inj e) small;
  current_used = λ i e.
      subst (λ j. unused (run_next n k).task_table j ≡ false) (some_inj e)
        (ap (in_state task_unused) (set_task_self k.task_table n (running (k.task_table n))));
  single = λ j h runs. elim (ℕ_discrete j n) [
    | yes here ↦ ap some (sym here)
    | no ne ↦ absurd (others j h ne runs)
  ];
  no_idle = s.no_idle;
}
  where
    value : Option ℕ → ℕ
    value none = 0
    value (some a) = a

    some_inj : {i : ℕ} → some n ≡ some i → n ≡ i
    some_inj e = ap value e

    others : (j : ℕ) → j < 64 → j ≢ n → is_running (run_next n k).task_table j ≡ true → ⊥
    others j h ne runs = clash (s.single j h was) was
      where
        was : is_running k.task_table j ≡ true
        was =
            sym (
              ap (in_state task_running)
                (set_task_ne k.task_table n j (running (k.task_table n)) ne))
            ∙ runs

        clash : k.current_task ≡ some j → is_running k.task_table j ≡ true → ⊥
        clash e r = cc (e, cur, r, stopped)
