-- ===== src/Syscall/Ipc.antt =====
-- A receive that finds neither a message nor another task to run.
use hobby_os_kernel.Common.{ℕ, ◌<◌, ◌≡◌, true, false, none}
use hobby_os_kernel.Uaccess.{uva_check_range}
use hobby_os_kernel.Task.{Task, Kernel, block_on_recv, update, find_task}
use hobby_os_kernel.Scheduler.{blocked}
use hobby_os_kernel.Scheduler.Pick.{runnable}
use hobby_os_kernel.Spawn.{pml4_of}
use hobby_os_kernel.Syscall.{Outcome, clip, sends_to, recv_from_sender}

module _ (k : Kernel) (self from_id user_buf len : ℕ) (small : self < 64)
    (no_idle : k.idle_task ≡ none) (none_ready : (i : ℕ) → i < 64 → runnable k i ≡ false)
    (none_sends : (i : ℕ)
      → i < 64
      → sends_to (k.task_table self).task_id from_id (clip 256 len) k.ram (k.task_table i) ≡ false)
    (allowed : uva_check_range (pml4_of (k.task_table self)) user_buf (clip 256 len) true k.ram
      ≡ true) where
  abbrev blocked_self : Kernel
  blocked_self = update self (blocked block_on_recv from_id user_buf (clip 256 len)) k

  abbrev received_by_self : Outcome
  received_by_self =
      recv_from_sender self
        (find_task k.task_table (sends_to (k.task_table self).task_id from_id (clip 256 len) k.ram))
        from_id user_buf (clip 256 len) k
