-- ===== src/Tests/Calls.antt =====
-- Concrete inputs for the theorems on system calls.
use hobby_os_kernel.Common.{
  ℕ, ◌≡◌, refl, sym, ap, subst, ◌∙◌, true, false, none, some, arith, if◌then◌else◌, ◌==◌,
}
use hobby_os_kernel.Task.{
  Task, Kernel, task_runnable, task_running, task_dead, task_blocked, block_on_wait, ipc_any_sender,
  blank, in_state,
}
use hobby_os_kernel.Syscall.{halted, syscall_dispatch, sys_exit}
use hobby_os_kernel.Syscall.Kept.{Safe}
use hobby_os_kernel.Syscall.Invariant.{CurrentLives, syscall_dispatch-Safe}
use hobby_os_kernel.Syscall.Wait.{UniqueIds, sys_exit-wakes_parent}
use hobby_os_kernel.Tests.Tasks.{busy, busy-Sane, some_labels, task_in, value_or_0}

busy-CurrentLives : CurrentLives busy
busy-CurrentLives c e =
    subst (λ n. in_state task_dead (busy.task_table n) ≡ false) (ap value_or_0 e) refl

syscall_dispatch-Safe_example : Safe (syscall_dispatch some_labels 3 8032 busy)
syscall_dispatch-Safe_example = syscall_dispatch-Safe some_labels 3 8032 busy-Sane busy-CurrentLives

-- Task 2 runs, and its parent, task 1, waits for any child.
abbrev family : ℕ → Task
family i =
    if i == 1
    then record (task_in task_blocked 1 0) {
      block_reason = block_on_wait;
      ipc_peer = ipc_any_sender;
    }
    else (if i == 2 then task_in task_running 2 1 else blank i none)

abbrev waiting_family : Kernel
waiting_family = record busy { task_table = family; current_task = some 2 }

family_id : (i : ℕ) → (family i).task_id ≡ i
family_id i = ground arith

family-UniqueIds : UniqueIds family
family-UniqueIds i j h k e = sym (family_id i) ∙ e ∙ family_id j

sys_exit-wakes_parent_example :
    (k' : Kernel) × (sys_exit 7 waiting_family ≡ halted k')
    × (in_state task_runnable (k'.task_table 1) ≡ true)
    × (in_state task_dead (k'.task_table 2) ≡ true)
    × ((k'.task_table 2).exit_code ≡ 7)
sys_exit-wakes_parent_example =
    sys_exit-wakes_parent waiting_family 2 1 7 (omega arith) (omega arith) (omega arith)
      family-UniqueIds refl refl
