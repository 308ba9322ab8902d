-- ===== src/Scheduler.antt =====
-- scheduler.c, the switch of task.c that blocks the current task, and the tick of timer.c.
-- `context_switch`, which is assembly, saves the old task's registers and goes on with the new
-- task's: a function that calls it ends in `switched`, with the two tasks and the kernel at the call.
pub mod Pick
pub mod Turns
pub mod Running
pub mod Kept
pub mod Back
use hobby_os_kernel.Common.{
  ℕ, zero, suc, ◌+◌, ◌-◌, ◌%◌, Bool, true, false, not, ◌&&◌, ◌||◌, Option, none, some,
  if◌then◌else◌, ◌==◌,
}
use hobby_os_kernel.Word.{u64}
use hobby_os_kernel.Frames.{is_some}
use hobby_os_kernel.Task.{
  Task, Kernel, BlockReason, task_runnable, task_running, task_blocked, in_state, update, find_from,
  on_task, task_table_ptr, task_table_size,
}

pub data Flow : Type 0 where
  same_task : Kernel → Flow
  switched : (old new : ℕ) → Kernel → Flow

-- The kernel at the end, whichever task goes on.
abbrev pub kernel_of : Flow → Kernel
kernel_of (same_task k) = k
kernel_of (switched old new k) = k

abbrev pub or_else {ℓ} : {A : Type ℓ} → Option A → A → A
or_else none d = d
or_else (some a) d = a

abbrev pub points_to : ℕ → Option ℕ → Bool
points_to t none = false
points_to t (some i) = i == t

-- The index of a pointer into the table, and 0 for another.
pub index_of : ℕ → ℕ
index_of t = or_else (find_from task_table_size 0 λ i. points_to t (task_table_ptr i)) 0

unfoldable pub scheduler_init : Kernel → Kernel
scheduler_init k = record k { idle_task = none }

pub scheduler_set_idle_task : Option ℕ → Kernel → Kernel
scheduler_set_idle_task t k = record k { idle_task = t }

abbrev start_index : Option ℕ → ℕ
start_index none = 0
start_index (some t) = index_of t

-- What is picked when no task of the table is runnable.
fall_back : Option ℕ → Kernel → Option ℕ
fall_back current k =
    if on_task k.task_table (in_state task_runnable) current
    then current
    else (if is_some k.idle_task then k.idle_task else current)

-- The task at the offset that the loop found, if it found one.
abbrev pub at_offset : ℕ → Option ℕ → Option ℕ → Option ℕ
at_offset start none other = other
at_offset start (some offset) other = task_table_ptr ((start + offset) % task_table_size)

pub scheduler_pick_next : Option ℕ → Kernel → Option ℕ
unfolding fall_back
scheduler_pick_next current k =
    at_offset (start_index current)
      (find_from task_table_size 1 λ offset.
        on_task k.task_table (in_state task_runnable)
          (task_table_ptr ((start_index current + offset) % task_table_size)))
      (fall_back current k)

abbrev switch_address_space : Option ℕ → Kernel → Kernel
switch_address_space none k = k
switch_address_space (some pml4) k = record k { cr3 = pml4 }

abbrev set_stack : Option ℕ → Kernel → Kernel
set_stack none k = k
set_stack (some top) k = record k { rsp0 = top }

pub scheduler_switch_to : ℕ → ℕ → Kernel → Flow
scheduler_switch_to old new k =
    switched old new
      (set_stack (k.task_table new).kstack_top (switch_address_space (k.task_table new).pml4 k))

abbrev pub blocked : BlockReason → ℕ → ℕ → ℕ → Task → Task
blocked reason peer buf len t = record t {
  state = task_blocked;
  block_reason = reason;
  ipc_peer = peer;
  ipc_buf = buf;
  ipc_len = len;
}

abbrev pub running : Task → Task
running t = record t { state = task_running }

-- `scheduler_pick_next` returns no NULL for a task that is there.
switch_from : ℕ → Option ℕ → Kernel → Flow
switch_from self none k = same_task k
switch_from self (some next) k =
    if next == self
    then same_task k
    else scheduler_switch_to self next (update next running (record k { current_task = some next }))

-- `self` is `current_task`, which each caller has found not to be NULL.
pub task_block_and_switch : ℕ → BlockReason → ℕ → ℕ → ℕ → Kernel → Flow
unfolding switch_from
task_block_and_switch self reason peer buf len k =
    let k' = update self (blocked reason peer buf len) k in
    switch_from self (scheduler_pick_next (some self) k') k'

-- `TIME_SLICE_TICKS`
abbrev pub time_slice_ticks : ℕ
time_slice_ticks = 20

abbrev pub preempted : Task → Task
preempted t = if in_state task_running t then record t { state = task_runnable } else t

preempt : ℕ → Option ℕ → Kernel → Flow
preempt prev none k = same_task k
preempt prev (some next) k =
    if next == prev
    then same_task k
    else scheduler_switch_to prev next
        (record (update next running (update prev preempted k)) { current_task = some next })

preempt_current : Option ℕ → Kernel → Flow
preempt_current none k = same_task k
preempt_current (some prev) k = preempt prev (scheduler_pick_next (some prev) k) k

-- The end-of-interrupt command that goes to the interrupt controller first is left out.
pub timer_tick_handler : Kernel → Flow
unfolding preempt_current
timer_tick_handler k =
    let k' = record k { ticks = u64 (k.ticks + 1) } in
    if not (u64 (k.ticks + 1) % time_slice_ticks == 0)
    then same_task k'
    else preempt_current k.current_task k'
