-- ===== src/Scheduler/Back.antt =====
-- task.c: the switch of a blocking task that comes back at once.
use hobby_os_kernel.Common.{
  ℕ, ◌+◌, ◌%◌, ◌<◌, ◌≡◌, ap, ◌∙◌, Bool, true, false, Option, none, some, arith, if◌then◌else◌, ◌==◌,
  ==_self, ℕ_discrete,
}
use hobby_os_kernel.Task.{Kernel, BlockReason, task_dead, task_runnable, in_state, update}
use hobby_os_kernel.Task.Slots.{set_task_self, set_task_ne}
use hobby_os_kernel.Scheduler.{
  Flow, same_task, switched, or_else, blocked, switch_from, task_block_and_switch,
  scheduler_pick_next, scheduler_switch_to,
}
use hobby_os_kernel.Scheduler.Running.{run_next}
use hobby_os_kernel.Scheduler.Pick.{runnable, IsNextOffset, picked, scheduler_pick_next-first}

-- The task `self` is current, and not dead.
abbrev pub Lives : ℕ → Kernel → Type 0
Lives self k = (k.current_task ≡ some self) × (in_state task_dead (k.task_table self) ≡ false)

-- The flow came back to `self`, alive.
abbrev pub BackTo : ℕ → Flow → Type 0
BackTo self (same_task k) = Lives self k
BackTo self (switched old new k) = Unit {0}

switch_to-BackTo : (self n : ℕ) (k : Kernel) → BackTo self (scheduler_switch_to self n k)
unfolding scheduler_switch_to
switch_to-BackTo self n k = tt

switch_from-BackTo :
    (self : ℕ) (o : Option ℕ) (k : Kernel) → Lives self k → BackTo self (switch_from self o k)
unfolding switch_from
switch_from-BackTo self none k l = l
switch_from-BackTo self (some n) k l =
    by_test (n == self) _ (switch_to-BackTo self n (run_next n k))
  where
    by_test : (b : Bool) (g : Flow) → BackTo self g → BackTo self (if b then same_task k else g)
    by_test true g h = l
    by_test false g h = h

pub block-BackTo :
    (k : Kernel) (self : ℕ) (reason : BlockReason) (peer buf len : ℕ)
    → k.current_task ≡ some self
    → BackTo self (task_block_and_switch self reason peer buf len k)
unfolding task_block_and_switch
block-BackTo k self reason peer buf len cur =
    switch_from-BackTo self (scheduler_pick_next (some self) waiting) waiting (
      cur,
      ap (in_state task_dead)
          (set_task_self k.task_table self (blocked reason peer buf len (k.task_table self))),
    )
  where
    waiting : Kernel
    waiting = update self (blocked reason peer buf len) k

module _ (k : Kernel) (self : ℕ) (reason : BlockReason) (peer buf len : ℕ) (small : self < 64)
    (no_idle : k.idle_task ≡ none) (none_ready : (i : ℕ) → i < 64 → runnable k i ≡ false) where
  abbrev waiting_self : Kernel
  waiting_self = update self (blocked reason peer buf len) k

  none_ready_now : (i : ℕ) → i < 64 → runnable waiting_self i ≡ false
  none_ready_now i h = elim (ℕ_discrete i self) [
    | yes e ↦ rw e (
        ap (in_state task_runnable)
          (set_task_self k.task_table self (blocked reason peer buf len (k.task_table self))))
    | no ne ↦
        ap (in_state task_runnable)
          (set_task_ne k.task_table self i (blocked reason peer buf len (k.task_table self)) ne)
        ∙ none_ready i h
  ]

  picks_self : (o : Option ℕ) → IsNextOffset waiting_self self o → picked waiting_self self o ≡ self
  picks_self none first = ap (λ idle. or_else idle self) no_idle
  picks_self (some d) first = absurd (cc (first.2, none_ready_now ((self + d) % 64) (omega arith)))

  -- With no runnable task and no idle task, a task that blocks goes on at once.
  pub block-alone : task_block_and_switch self reason peer buf len k ≡ same_task waiting_self
  unfolding task_block_and_switch switch_from
  block-alone =
      let (o, first, e) = scheduler_pick_next-first waiting_self self small in
      ap (λ p. switch_from self p waiting_self) (e ∙ ap some (picks_self o first))
      ∙ ap
          (λ b.
            if b
            then same_task waiting_self
            else scheduler_switch_to self self (run_next self waiting_self))
          (==_self self)
