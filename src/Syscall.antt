-- ===== src/Syscall.antt =====
-- syscall.c. A handler is a function of the kernel that returns an outcome: the value for rax, the
-- wait of a task that was switched from, a page fault of the kernel's access to user memory, or the
-- halt that follows an exit. The messages that handlers print for themselves are left out.
pub mod UserMemory
pub mod Ipc
pub mod Wait
pub mod Kept
pub mod Invariant
use hobby_os_kernel.Common.{
  ℕ, zero, suc, ◌+◌, ◌-◌, ◌*◌, ◌^◌, Bool, true, false, not, ◌&&◌, ◌||◌, List, [], ◌∷◌, ◌++◌, Option,
  none, some, if◌then◌else◌, ◌==◌, ltb,
}
use hobby_os_kernel.Word.{u64}
use hobby_os_kernel.Memory.{Mem, store8, load64, store64}
use hobby_os_kernel.Frames.{Ram, is_some}
use hobby_os_kernel.Paging.Walk.{get_current_pml4}
use hobby_os_kernel.Paging.Walk.Lookup.{translate}
use hobby_os_kernel.Uaccess.{uva_check_range}
use hobby_os_kernel.Task.{
  Task, Kernel, BlockReason, task_unused, task_blocked, task_dead, block_on_recv, block_on_send,
  block_on_wait, ipc_any_sender, in_state, blocked_on, update, find_task, task_find_by_id,
  task_wake,
}
use hobby_os_kernel.Scheduler.{Flow, same_task, switched, task_block_and_switch}
use hobby_os_kernel.Spawn.{Labels, with_bytes, pml4_of, task_fork, task_destroy}

-- `suspended old new` has called `context_switch`. When the old task goes on, it returns the
-- `ipc_len` of its task, or looks for a child again. `unfinished` says that the fuel ran out.
pub data Outcome : Type 0 where
  returned : ℕ → Kernel → Outcome
  suspended : (old new : ℕ) → Kernel → Outcome
  faulted : Kernel → Outcome
  halted : Kernel → Outcome
  unfinished : Kernel → Outcome

-- `(uint64_t)-1`
abbrev pub failure : ℕ
failure = 2 ^ 64 - 1

-- `for (i = i; i < i + n; i++) buf[i] = src[i];` in the address space of `pml4`; `none` is a fault.
abbrev read_byte : Option ℕ → Mem → Option (List ℕ) → Option (List ℕ)
read_byte none m rest = none
read_byte (some phys) m none = none
read_byte (some phys) m (some bytes) = some (m phys ∷ bytes)

unfoldable pub read_user : ℕ → ℕ → ℕ → Mem → Option (List ℕ)
read_user pml4 zero src m = some []
read_user pml4 (suc n) src m =
    read_byte (translate m pml4 src) m (read_user pml4 n (u64 (src + 1)) m)

-- `for (i = 0; …; i++) dst[i] = bytes[i];` likewise.
abbrev write_byte : Option ℕ → ℕ → Mem → Option Mem
write_byte none b m = none
write_byte (some phys) b m = some (store8 m phys b)

abbrev and_write : Option Mem → (Mem → Option Mem) → Option Mem
and_write none f = none
and_write (some m) f = f m

unfoldable pub write_user : ℕ → ℕ → List ℕ → Mem → Option Mem
write_user pml4 dst [] m = some m
write_user pml4 dst (b ∷ bytes) m =
    and_write (write_byte (translate m pml4 dst) b m) λ m'. write_user pml4 (u64 (dst + 1)) bytes m'

abbrev pub min : ℕ → ℕ → ℕ
min a b = if ltb a b then a else b

abbrev pub clip : ℕ → ℕ → ℕ
clip limit len = if ltb limit len then limit else len

-- What `kprintf("%s", buf)` sends: the bytes before the first NUL.
pub text_of : List ℕ → List ℕ
text_of [] = []
text_of (b ∷ bytes) = if b == 0 then [] else b ∷ text_of bytes

write_out : ℕ → Option (List ℕ) → Kernel → Outcome
write_out len none k = faulted k
write_out len (some buf) k = returned len (record k { written = k.written ++ text_of buf })

pub write_from : Option ℕ → ℕ → ℕ → Kernel → Outcome
write_from none user_ptr len k = returned failure k
write_from (some self) user_ptr len k =
    if not (uva_check_range (pml4_of (k.task_table self)) user_ptr len false k.ram)
    then returned failure k
    else write_out len (read_user (get_current_pml4 k.cr3) len user_ptr k.ram.bytes) k

pub sys_write : ℕ → ℕ → Kernel → Outcome
unfolding write_from
sys_write user_ptr len k = write_from k.current_task user_ptr (clip 255 len) k

-- `return (long)current_task->ipc_len` after the switch has come back to `self`.
abbrev pub ipc_result : ℕ → Kernel → ℕ
ipc_result self k = (k.task_table self).ipc_len

abbrev pub after_block : ℕ → Flow → Outcome
after_block self (same_task k) = returned (ipc_result self k) k
after_block self (switched old new k) = suspended old new k

-- The test that `target` waits for a message from the task `self`.
abbrev pub accepts : ℕ → Task → Bool
accepts sender_id t =
    in_state task_blocked t
    && (blocked_on block_on_recv t && (t.ipc_peer == ipc_any_sender || t.ipc_peer == sender_id))

-- The copied message is written, and both address spaces are as before.
abbrev pub with_cr3 : ℕ → Kernel → Kernel
with_cr3 pml4 k = record k { cr3 = pml4 }

delivered : ℕ → ℕ → ℕ → Option Mem → Kernel → Outcome
delivered target len sender_pml4 none k = faulted (with_cr3 (pml4_of (k.task_table target)) k)
delivered target len sender_pml4 (some m) k =
    returned len (task_wake target (with_cr3 sender_pml4 (with_bytes m k)))

deliver : ℕ → ℕ → Option (List ℕ) → Kernel → Outcome
deliver target len none k = faulted k
deliver target len (some tmp) k =
    let t = k.task_table target in
    delivered target len (get_current_pml4 k.cr3) (write_user (pml4_of t) t.ipc_buf tmp k.ram.bytes)
      k

send_now : ℕ → ℕ → ℕ → Kernel → Outcome
send_now target user_buf copy_len k =
    let t = k.task_table target in
    if not (uva_check_range (pml4_of t) t.ipc_buf copy_len true k.ram)
    then returned failure k
    else deliver target copy_len (read_user (get_current_pml4 k.cr3) copy_len user_buf k.ram.bytes)
        k

send_to : ℕ → Option ℕ → ℕ → ℕ → ℕ → Kernel → Outcome
send_to self none target_id user_buf len k = returned failure k
send_to self (some target) target_id user_buf len k =
    if accepts (k.task_table self).task_id (k.task_table target)
    then send_now target user_buf (min len (k.task_table target).ipc_len) k
    else after_block self (task_block_and_switch self block_on_send target_id user_buf len k)

pub send_from : Option ℕ → ℕ → ℕ → ℕ → Kernel → Outcome
send_from none target_id user_buf len k = returned failure k
send_from (some self) target_id user_buf len k =
    if not (uva_check_range (pml4_of (k.task_table self)) user_buf len false k.ram)
    then returned failure k
    else send_to self (task_find_by_id target_id k) target_id user_buf len k

pub sys_send : ℕ → ℕ → ℕ → Kernel → Outcome
unfolding send_from
sys_send target_id user_buf len k = send_from k.current_task target_id user_buf (clip 256 len) k

-- The tests of the loop over the senders, the check of the sender's buffer included.
abbrev pub sends_to : ℕ → ℕ → ℕ → Ram → Task → Bool
sends_to receiver_id from_id len s t =
    in_state task_blocked t
    && (blocked_on block_on_send t
        && (t.ipc_peer == receiver_id
            && ((from_id == ipc_any_sender || t.task_id == from_id)
                && uva_check_range (pml4_of t) t.ipc_buf (min len t.ipc_len) false s)))

abbrev pub with_ipc_len : ℕ → Task → Task
with_ipc_len len t = record t { ipc_len = len }

pub received : ℕ → ℕ → Option Mem → Kernel → Outcome
received sender len none k = faulted k
received sender len (some m) k =
    returned len (task_wake sender (update sender (with_ipc_len len) (with_bytes m k)))

-- The message was read in the sender's address space; the receiver's is active again.
receive : ℕ → ℕ → ℕ → Option (List ℕ) → Kernel → Outcome
receive sender user_buf len none k = faulted (with_cr3 (pml4_of (k.task_table sender)) k)
receive sender user_buf len (some tmp) k =
    let receiver_pml4 = get_current_pml4 k.cr3 in
    received sender len (write_user (get_current_pml4 receiver_pml4) user_buf tmp k.ram.bytes)
      (with_cr3 receiver_pml4 k)

recv_from_sender : ℕ → Option ℕ → ℕ → ℕ → ℕ → Kernel → Outcome
recv_from_sender self none from_id user_buf len k =
    after_block self (task_block_and_switch self block_on_recv from_id user_buf len k)
recv_from_sender self (some sender) from_id user_buf len k =
    let t = k.task_table sender in
    let copy_len = min len t.ipc_len in
    receive sender user_buf copy_len (read_user (pml4_of t) copy_len t.ipc_buf k.ram.bytes) k

recv_for : Option ℕ → ℕ → ℕ → ℕ → Kernel → Outcome
recv_for none from_id user_buf len k = returned failure k
recv_for (some self) from_id user_buf len k =
    if not (uva_check_range (pml4_of (k.task_table self)) user_buf len true k.ram)
    then returned failure k
    else recv_from_sender self
        (find_task k.task_table (sends_to (k.task_table self).task_id from_id len k.ram)) from_id
        user_buf len k

pub sys_recv : ℕ → ℕ → ℕ → Kernel → Outcome
unfolding recv_for
sys_recv from_id user_buf len k = recv_for k.current_task from_id user_buf (clip 256 len) k

abbrev pub dead : ℕ → Task → Task
dead code t = record t { exit_code = code; state = task_dead }

-- The parent that waits for the task `child`, or for any child.
abbrev pub waits_for : Task → Task → Bool
waits_for child t =
    in_state task_blocked t
    && (blocked_on block_on_wait t
        && (t.task_id == child.parent_id
            && (t.ipc_peer == ipc_any_sender || t.ipc_peer == child.task_id)))

wake_waiting : Option ℕ → Kernel → Kernel
wake_waiting none k = k
wake_waiting (some t) k = task_wake t k

exit_task : Option ℕ → ℕ → Kernel → Kernel
exit_task none code k = k
exit_task (some self) code k =
    let k' = update self (dead code) k in
    wake_waiting (find_task k'.task_table (waits_for (k'.task_table self))) k'

-- The task halts, with interrupts on, until the timer switches away from it.
pub sys_exit : ℕ → Kernel → Outcome
unfolding exit_task
sys_exit code k = halted (exit_task k.current_task code k)

-- The tests that both loops of `sys_wait` make.
abbrev pub child_of : ℕ → ℕ → Task → Bool
child_of parent_id child_id t =
    not (in_state task_unused t)
    && (t.parent_id == parent_id && (child_id == ipc_any_sender || t.task_id == child_id))

abbrev pub dead_child_of : ℕ → ℕ → Task → Bool
dead_child_of parent_id child_id t = child_of parent_id child_id t && in_state task_dead t

-- `task_block_and_switch` came back at once, and the loop goes on.
abbrev pub again : Flow → (Kernel → Outcome) → Outcome
again (same_task k) loop = loop k
again (switched old new k) loop = suspended old new k

wait_blocks : ℕ → ℕ → Bool → (Kernel → Outcome) → Kernel → Outcome
wait_blocks self child_id false loop k = returned failure k
wait_blocks self child_id true loop k =
    again (task_block_and_switch self block_on_wait child_id 0 0 k) loop

-- One round: the first loop's find, then the second's.
wait_round : ℕ → ℕ → Option ℕ → (Kernel → Outcome) → Kernel → Outcome
wait_round self child_id (some t) loop k =
    returned (k.task_table t).task_id (task_destroy (some t) k)
wait_round self child_id none loop k =
    wait_blocks self child_id
      (is_some (find_task k.task_table (child_of (k.task_table self).task_id child_id))) loop k

wait_loop : ℕ → ℕ → ℕ → Kernel → Outcome
wait_loop zero self child_id k = unfinished k
wait_loop (suc fuel) self child_id k =
    wait_round self child_id
      (find_task k.task_table (dead_child_of (k.task_table self).task_id child_id))
      (λ k'. wait_loop fuel self child_id k') k

wait_as : ℕ → Option ℕ → ℕ → Kernel → Outcome
wait_as fuel none child_id k = returned failure k
wait_as fuel (some self) child_id k = wait_loop fuel self child_id k

pub sys_wait : ℕ → ℕ → Kernel → Outcome
unfolding wait_as
sys_wait fuel child_id k = wait_as fuel k.current_task child_id k

forked_child : Option ℕ × Kernel → Outcome
forked_child (none, k) = returned failure k
forked_child (some child, k) = returned (k.task_table child).task_id k

fork_as : Labels → Option ℕ → ℕ → Kernel → Outcome
fork_as labels none regs k = returned failure k
fork_as labels (some self) regs k = forked_child (task_fork labels self regs k)

pub sys_fork : Labels → ℕ → Kernel → Outcome
unfolding fork_as
sys_fork labels regs k = fork_as labels k.current_task regs k

-- `regs->rax = (uint64_t)ret`
abbrev pub set_rax : ℕ → Outcome → Outcome
set_rax regs (returned ret k) = returned ret (with_bytes (store64 k.ram.bytes regs ret) k)
set_rax regs (suspended old new k) = suspended old new k
set_rax regs (faulted k) = faulted k
set_rax regs (halted k) = halted k
set_rax regs (unfinished k) = unfinished k

-- The `switch` over `regs->rax`; the arguments stand in rdi, rsi and rdx.
pub dispatch : Labels → ℕ → ℕ → ℕ → ℕ → ℕ → ℕ → Kernel → Outcome
dispatch labels fuel regs rax rdi rsi rdx k =
    if rax == 0
    then sys_write rdi rsi k
    else (if rax == 1
        then sys_exit rdi k
        else (if rax == 2
            then sys_fork labels regs k
            else (if rax == 3
                then sys_send rdi rsi rdx k
                else (if rax == 4
                    then sys_recv rdi rsi rdx k
                    else (if rax == 5 then sys_wait fuel rdi k else returned failure k)))))

pub syscall_dispatch : Labels → ℕ → ℕ → Kernel → Outcome
syscall_dispatch labels fuel regs k =
    let m = k.ram.bytes in
    set_rax regs (
      dispatch labels fuel regs (load64 m regs) (load64 m (regs + 40)) (load64 m (regs + 32))
        (load64 m (regs + 24)) k)
