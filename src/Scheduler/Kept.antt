-- ===== src/Scheduler/Kept.antt =====
-- The switches of task.c and timer.c, and the invariant of the tasks.
use hobby_os_kernel.Common.{
  ℕ, ◌+◌, ◌%◌, ◌≡◌, refl, sym, ap, ◌∙◌, subst, ◌≢◌, inl, inr, Bool, true, false, not, Option, none,
  some, arith, ℕ_discrete, List, if◌then◌else◌, ◌==◌, ==_self, ==_ne, Bool-cases,
}
use hobby_os_kernel.Word.{u64}
use hobby_os_kernel.Task.{
  Task, Kernel, BlockReason, TaskState, task_unused, task_running, in_state, update, state_number,
}
use hobby_os_kernel.Task.Slots.{unused, set_task_ne, set_task_self}
use hobby_os_kernel.Scheduler.{
  Flow, kernel_of, same_task, scheduler_switch_to, blocked, switch_from, task_block_and_switch,
  preempted, preempt, preempt_current, timer_tick_handler,
}
use hobby_os_kernel.Scheduler.Running.{
  is_running, Sane, CanRun, pick_next-CanRun, Sane-update, switch-Sane, run_next, run_next-Sane,
}

switch_to-Sane :
    (c n : ℕ) (k : Kernel) (xs : List ℕ)
    → Sane k xs
    → Sane (kernel_of (scheduler_switch_to c n k)) xs
unfolding scheduler_switch_to
switch_to-Sane c n k xs s = switch-Sane k xs (k.task_table n).pml4 (k.task_table n).kstack_top s

runnable_used : (s : TaskState) → (state_number s == 1) ≡ true → (state_number s == 0) ≡ false
runnable_used s h = ground arith

switch_from-Sane :
    (k : Kernel) (xs : List ℕ) (c n : ℕ)
    → Sane k xs
    → k.current_task ≡ some c
    → is_running k.task_table c ≡ false
    → CanRun k c n
    → Sane (kernel_of (switch_from c (some n) k)) xs
unfolding switch_from
switch_from-Sane k xs c n s cur stopped (inl same) = rw same (rw (==_self c) s)
switch_from-Sane k xs c n s cur stopped (inr (small, ready)) = elim (ℕ_discrete n c) [
  | yes same ↦ rw same (rw (==_self c) s)
  | no ne ↦ rw (==_ne n c ne) (
      switch_to-Sane c n (run_next n k) xs
        (run_next-Sane c n s cur stopped small (runnable_used (k.task_table n).state ready)))
]

-- Called for the current task, `task_block_and_switch` keeps the invariant `Sane`, whether it switches
-- or finds no other task to run.
pub task_block_and_switch-Sane :
    {k : Kernel} {xs : List ℕ} (self : ℕ) (reason : BlockReason) (peer buf len : ℕ)
    → Sane k xs
    → k.current_task ≡ some self
    → Sane (kernel_of (task_block_and_switch self reason peer buf len k)) xs
unfolding task_block_and_switch
task_block_and_switch-Sane {k} {xs} self reason peer buf len s cur =
    let (n, e, can) = pick_next-CanRun waiting self (s.current_small self cur) s.no_idle in
    subst (λ p. Sane (kernel_of (switch_from self p waiting)) xs) (sym e)
      (switch_from-Sane waiting xs self n sane cur stopped can)
  where
    waiting : Kernel
    waiting = update self (blocked reason peer buf len) k

    sane : Sane waiting xs
    sane =
        Sane-update (blocked reason peer buf len (k.task_table self)) s (s.current_small self cur)
          (s.current_used self cur) refl λ e. absurd (cc e)

    stopped : is_running waiting.task_table self ≡ false
    stopped =
        ap (in_state task_running)
          (set_task_self k.task_table self (blocked reason peer buf len (k.task_table self)))

preempted_used :
    (t : Task) → in_state task_unused t ≡ false → in_state task_unused (preempted t) ≡ false
preempted_used t h = elim (Bool-cases (in_state task_running t)) [
  | inl runs ↦ rw runs refl
  | inr rests ↦ rw rests h
]

preempted_stops : (t : Task) → in_state task_running (preempted t) ≡ false
preempted_stops t = elim (Bool-cases (in_state task_running t)) [
  | inl runs ↦ rw runs refl
  | inr rests ↦ rw rests rests
]

if-Sane :
    (b : Bool) (f g : Flow) (xs : List ℕ)
    → (b ≡ true → Sane (kernel_of f) xs)
    → (b ≡ false → Sane (kernel_of g) xs)
    → Sane (kernel_of (if b then f else g)) xs
if-Sane true f g xs yes_case no_case = yes_case refl
if-Sane false f g xs yes_case no_case = no_case refl

preempt-Sane :
    {k : Kernel} {xs : List ℕ} (c n : ℕ)
    → Sane k xs
    → k.current_task ≡ some c
    → CanRun k c n
    → Sane (kernel_of (preempt c (some n) k)) xs
unfolding preempt
preempt-Sane {k} {xs} c n s cur (inl same) = rw same (rw (==_self c) s)
preempt-Sane {k} {xs} c n s cur (inr (small, ready)) =
    if-Sane (n == c) (same_task k) (scheduler_switch_to c n (run_next n (update c preempted k))) xs
      (λ _. s)
      λ ne. switch_to-Sane c n (run_next n (update c preempted k)) xs (
        run_next-Sane c n resting cur stopped small
          (still_used λ e. absurd (ground (arith, ne, e))))
  where
    resting : Sane (update c preempted k) xs
    resting =
        Sane-update (preempted (k.task_table c)) s (s.current_small c cur) (s.current_used c cur)
          (preempted_used (k.task_table c) (s.current_used c cur))
          λ e. absurd (cc (e, preempted_stops (k.task_table c)))

    stopped : is_running (update c preempted k).task_table c ≡ false
    stopped =
        ap (in_state task_running) (set_task_self k.task_table c (preempted (k.task_table c)))
        ∙ preempted_stops (k.task_table c)

    still_used : n ≢ c → unused (update c preempted k).task_table n ≡ false
    still_used ne =
        ap (in_state task_unused) (set_task_ne k.task_table c n (preempted (k.task_table c)) ne)
        ∙ runnable_used (k.task_table n).state ready

ticked-Sane : {k : Kernel} {xs : List ℕ} (n : ℕ) → Sane k xs → Sane (record k { ticks = n }) xs
ticked-Sane n s = record {
  slots = s.slots;
  current_small = s.current_small;
  current_used = s.current_used;
  single = s.single;
  no_idle = s.no_idle;
}

preempt_current-Sane :
    {k : Kernel} {xs : List ℕ} (c : Option ℕ)
    → Sane k xs
    → k.current_task ≡ c
    → Sane (kernel_of (preempt_current c k)) xs
unfolding preempt_current
preempt_current-Sane none s cur = s
preempt_current-Sane {k} {xs} (some c) s cur =
    let (n, e, can) = pick_next-CanRun k c (s.current_small c cur) s.no_idle in
    subst (λ p. Sane (kernel_of (preempt c p k)) xs) (sym e) (preempt-Sane c n s cur can)

-- A timer tick keeps the invariant `Sane`, whether or not it ends a time slice and switches.
pub timer_tick_handler-Sane :
    {k : Kernel} {xs : List ℕ} → Sane k xs → Sane (kernel_of (timer_tick_handler k)) xs
unfolding timer_tick_handler
timer_tick_handler-Sane {k} {xs} s = elim (Bool-cases (not (u64 (k.ticks + 1) % 20 == 0))) [
  | inl going ↦ rw going (ticked-Sane (u64 (k.ticks + 1)) s)
  | inr over ↦
      rw over (preempt_current-Sane k.current_task (ticked-Sane (u64 (k.ticks + 1)) s) refl)
]
