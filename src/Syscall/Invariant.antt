-- ===== src/Syscall/Invariant.antt =====
-- syscall.c: the dispatcher and the calls that receive, exit, wait and fork, and the invariant of
-- the tasks.
use hobby_os_kernel.Common.{
  ℕ, zero, suc, ◌+◌, ◌<◌, ◌≡◌, refl, sym, ap, ◌∙◌, subst, ◌≢◌, Bool, true, false, not, List, ◌∷◌,
  Option, none, some, arith, ◌==◌,
}
use hobby_os_kernel.Memory.{load64, store64}
use hobby_os_kernel.Frames.{is_some}
use hobby_os_kernel.Uaccess.{uva_check_range}
use hobby_os_kernel.Paging.Walk.{get_current_pml4}
use hobby_os_kernel.Task.{
  Task, Kernel, task_dead, in_state, update, find_task, block_on_recv, block_on_wait,
}
use hobby_os_kernel.Task.Slots.{unused}
use hobby_os_kernel.Scheduler.{Flow, same_task, switched, kernel_of, task_block_and_switch}
use hobby_os_kernel.Scheduler.Running.{Sane, Sane-update}
use hobby_os_kernel.Scheduler.Back.{Lives, BackTo, block-BackTo}
use hobby_os_kernel.Scheduler.Kept.{task_block_and_switch-Sane}
use hobby_os_kernel.Spawn.{Labels, pml4_of, task_fork}
use hobby_os_kernel.Spawn.Kept.{Makes, task_fork-Makes, task_destroy-Sane}
use hobby_os_kernel.Syscall.{
  Outcome, returned, suspended, faulted, halted, unfinished, sys_write, clip, sys_send, sends_to,
  receive, recv_from_sender, recv_for, sys_recv, dead, waits_for, wake_waiting, exit_task, sys_exit,
  child_of, dead_child_of, again, wait_blocks, wait_round, wait_loop, wait_as, sys_wait,
  forked_child, fork_as, sys_fork, set_rax, dispatch, syscall_dispatch,
}
use hobby_os_kernel.Syscall.Kept.{
  Safe, Sane-other, wake-Sane, if-Safe, found-passes, write_from-Safe, after_block-Safe,
  send_from-Safe, received-Safe,
}

module _ {k : Kernel} {xs : List ℕ} (s : Sane k xs) where
  receive-Safe :
      (t user_buf len : ℕ) (o : Option (List ℕ))
      → t < 64
      → unused k.task_table t ≡ false
      → Safe (receive t user_buf len o k)
  unfolding receive
  receive-Safe t user_buf len none small used = (xs, Sane-other k.ram _ k.written s)
  receive-Safe t user_buf len (some tmp) small used =
      received-Safe (Sane-other k.ram (get_current_pml4 k.cr3) k.written s) t small used len _

  recv_from_sender-Safe :
      (self from_id user_buf len id : ℕ) (o : Option ℕ)
      → find_task k.task_table (sends_to id from_id len k.ram) ≡ o
      → k.current_task ≡ some self
      → Safe (recv_from_sender self o from_id user_buf len k)
  unfolding recv_from_sender
  recv_from_sender-Safe self from_id user_buf len id none e cur =
      after_block-Safe s self block_on_recv from_id user_buf len cur
  recv_from_sender-Safe self from_id user_buf len id (some t) e cur =
      let (small, passes) = found-passes k (sends_to id from_id len k.ram) t e in
      receive-Safe t user_buf _ _ small (ground arith)

  recv_for-Safe :
      (c : Option ℕ) (from_id user_buf len : ℕ)
      → k.current_task ≡ c
      → Safe (recv_for c from_id user_buf len k)
  unfolding recv_for
  recv_for-Safe none from_id user_buf len cur = (xs, s)
  recv_for-Safe (some self) from_id user_buf len cur =
      if-Safe (not (uva_check_range (pml4_of (k.task_table self)) user_buf len true k.ram)) _ _
        (xs, s)
        λ _. recv_from_sender-Safe self from_id user_buf len (k.task_table self).task_id _ refl cur

  wake_waiting-Sane :
      (child : Task) (o : Option ℕ)
      → find_task k.task_table (waits_for child) ≡ o
      → Sane (wake_waiting o k) xs
  unfolding wake_waiting
  wake_waiting-Sane child none e = s
  wake_waiting-Sane child (some t) e =
      let (small, passes) = found-passes k (waits_for child) t e in
      wake-Sane t s small (ground arith)

  forked-Safe : (r : Option ℕ × Kernel) → Makes xs r → Safe (forked_child r)
  unfolding forked_child
  forked-Safe (none, k') h = (xs, h)
  forked-Safe (some t, k') (ys, e, h, r) = (ys, h)

  fork_as-Safe : (labels : Labels) (c : Option ℕ) (regs : ℕ) → Safe (fork_as labels c regs k)
  unfolding fork_as
  fork_as-Safe labels none regs = (xs, s)
  fork_as-Safe labels (some self) regs =
      forked-Safe (task_fork labels self regs k) (task_fork-Makes labels self regs k xs s)

-- The exit of the current task keeps the invariant.
exit_task-Sane :
    {k : Kernel} {xs : List ℕ} (c : Option ℕ) (code : ℕ)
    → Sane k xs
    → k.current_task ≡ c
    → Sane (exit_task c code k) xs
unfolding exit_task
exit_task-Sane none code s cur = s
exit_task-Sane {k} (some self) code s cur =
    wake_waiting-Sane
      (Sane-update (dead code (k.task_table self)) s (s.current_small self cur)
        (s.current_used self cur) refl λ e. absurd (cc e))
      ((update self (dead code) k).task_table self) _ refl

again-Safe :
    {xs : List ℕ} (self : ℕ) (f : Flow) (loop : Kernel → Outcome)
    → Sane (kernel_of f) xs
    → BackTo self f
    → ((k : Kernel) → Sane k xs → Lives self k → Safe (loop k))
    → Safe (again f loop)
again-Safe self (same_task k) loop s back h = h k s back
again-Safe {xs} self (switched old new k) loop s back h = (xs, s)

wait_round-Safe :
    {xs : List ℕ} (self child_id id : ℕ) (o : Option ℕ) (loop : Kernel → Outcome) (k : Kernel)
    → Sane k xs
    → Lives self k
    → find_task k.task_table (dead_child_of id child_id) ≡ o
    → ((k : Kernel) → Sane k xs → Lives self k → Safe (loop k))
    → Safe (wait_round self child_id o loop k)
unfolding wait_round wait_blocks
wait_round-Safe {xs} self child_id id none loop k s l e h =
    by_child (is_some (find_task k.task_table (child_of (k.task_table self).task_id child_id)))
  where
    by_child : (b : Bool) → Safe (wait_blocks self child_id b loop k)
    by_child false = (xs, s)
    by_child true =
        again-Safe self (task_block_and_switch self block_on_wait child_id 0 0 k) loop
          (task_block_and_switch-Sane self block_on_wait child_id 0 0 s l.0)
          (block-BackTo k self block_on_wait child_id 0 0 l.0) h
wait_round-Safe {xs} self child_id id (some t) loop k s l e h =
    let (small, passes) = found-passes k (dead_child_of id child_id) t e in
    (t ∷ xs, (task_destroy-Sane k xs t s small (other (is_dead passes))).1 (ground arith))
  where
    is_dead :
        dead_child_of id child_id (k.task_table t) ≡ true
        → in_state task_dead (k.task_table t) ≡ true
    is_dead p = ground arith

    value : Option ℕ → ℕ
    value none = 0
    value (some a) = a

    clash : {b : Bool} → b ≡ false → b ≡ true → ⊥
    clash p q = cc (p, q)

    other : in_state task_dead (k.task_table t) ≡ true → k.current_task ≢ some t
    other d c =
        clash
          (subst (λ n. in_state task_dead (k.task_table n) ≡ false) (ap value (sym l.0 ∙ c)) l.1) d

wait_loop-Safe :
    {xs : List ℕ} (fuel self child_id : ℕ) (k : Kernel)
    → Sane k xs
    → Lives self k
    → Safe (wait_loop fuel self child_id k)
unfolding wait_loop
wait_loop-Safe {xs} zero self child_id k s l = (xs, s)
wait_loop-Safe (suc fuel) self child_id k s l =
    wait_round-Safe self child_id (k.task_table self).task_id _ _ k s l refl
      λ k' s' l'. wait_loop-Safe fuel self child_id k' s' l'

-- The current task, if there is one, is not dead: a dead task makes no system call.
abbrev pub CurrentLives : Kernel → Type 0
CurrentLives k = (c : ℕ) → k.current_task ≡ some c → in_state task_dead (k.task_table c) ≡ false

wait_as-Safe :
    {k : Kernel} {xs : List ℕ} (fuel : ℕ) (c : Option ℕ) (child_id : ℕ)
    → Sane k xs
    → CurrentLives k
    → k.current_task ≡ c
    → Safe (wait_as fuel c child_id k)
unfolding wait_as
wait_as-Safe {k} {xs} fuel none child_id s lives cur = (xs, s)
wait_as-Safe {k} fuel (some self) child_id s lives cur =
    wait_loop-Safe fuel self child_id k s (cur, lives self cur)

pub sys_wait-Safe :
    {k : Kernel} {xs : List ℕ} (fuel child_id : ℕ)
    → Sane k xs
    → CurrentLives k
    → Safe (sys_wait fuel child_id k)
unfolding sys_wait
sys_wait-Safe {k} fuel child_id s lives = wait_as-Safe fuel k.current_task child_id s lives refl

set_rax-Safe : (regs : ℕ) (o : Outcome) → Safe o → Safe (set_rax regs o)
set_rax-Safe regs (returned ret k) (ys, h) =
    (ys, Sane-other (record k.ram { bytes = store64 k.ram.bytes regs ret }) k.cr3 k.written h)
set_rax-Safe regs (suspended old new k) h = h
set_rax-Safe regs (faulted k) h = h
set_rax-Safe regs (halted k) h = h
set_rax-Safe regs (unfinished k) h = h

dispatch-Safe :
    {k : Kernel} {xs : List ℕ} (labels : Labels) (fuel regs rax rdi rsi rdx : ℕ)
    → Sane k xs
    → CurrentLives k
    → Safe (dispatch labels fuel regs rax rdi rsi rdx k)
unfolding dispatch sys_write sys_exit sys_fork sys_send sys_recv sys_wait
dispatch-Safe {k} {xs} labels fuel regs rax rdi rsi rdx s lives =
    if-Safe (rax == 0) _ _ (write_from-Safe s k.current_task rdi (clip 255 rsi)) λ _.
      if-Safe (rax == 1) _ _ (xs, exit_task-Sane k.current_task rdi s refl)
        λ _. if-Safe (rax == 2) _ _ (fork_as-Safe s labels k.current_task regs) λ _.
          if-Safe (rax == 3) _ _ (send_from-Safe s k.current_task rdi rsi (clip 256 rdx) refl) λ _.
            if-Safe (rax == 4) _ _ (recv_for-Safe s k.current_task rdi rsi (clip 256 rdx) refl) λ _.
              if-Safe (rax == 5) _ _ (wait_as-Safe fuel k.current_task rdi s lives refl)
                λ _. (xs, s)

-- A system call of a current task that is not dead keeps the invariant `Sane`, for every number,
-- arguments and contents of memory, and whichever way it ends: the free list holds the unused slots,
-- each once, the current task is a used slot, and no other task is in the state RUNNING.
pub syscall_dispatch-Safe :
    {k : Kernel} {xs : List ℕ} (labels : Labels) (fuel regs : ℕ)
    → Sane k xs
    → CurrentLives k
    → Safe (syscall_dispatch labels fuel regs k)
unfolding syscall_dispatch
syscall_dispatch-Safe {k} labels fuel regs s lives =
    set_rax-Safe regs
      (dispatch labels fuel regs (load64 k.ram.bytes regs) (load64 k.ram.bytes (regs + 40))
        (load64 k.ram.bytes (regs + 32)) (load64 k.ram.bytes (regs + 24)) k)
      (dispatch-Safe labels fuel regs (load64 k.ram.bytes regs) (load64 k.ram.bytes (regs + 40))
        (load64 k.ram.bytes (regs + 32)) (load64 k.ram.bytes (regs + 24)) s lives)
