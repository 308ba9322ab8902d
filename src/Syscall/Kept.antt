-- ===== src/Syscall/Kept.antt =====
-- syscall.c: the calls that write and send, and the invariant of the tasks.
use hobby_os_kernel.Common.{
  ℕ, ◌<◌, ◌≡◌, refl, ap, ◌∙◌, subst, Bool, true, false, not, List, Option, none, some, arith,
  if◌then◌else◌, ◌==◌,
}
use hobby_os_kernel.Memory.{Mem}
use hobby_os_kernel.Frames.{Ram}
use hobby_os_kernel.Uaccess.{uva_check_range}
use hobby_os_kernel.Paging.Walk.{get_current_pml4}
use hobby_os_kernel.Task.{
  Task, TaskState, Kernel, BlockReason, task_unused, in_state, state_number, find_task,
  task_find_by_id, task_wake, woken, block_on_send,
}
use hobby_os_kernel.Task.Table.{IsFirst, find_task-IsFirst}
use hobby_os_kernel.Task.Slots.{unused, set_task_self}
use hobby_os_kernel.Scheduler.{Flow, same_task, switched, kernel_of, task_block_and_switch}
use hobby_os_kernel.Scheduler.Running.{Sane, Sane-update}
use hobby_os_kernel.Scheduler.Kept.{task_block_and_switch-Sane}
use hobby_os_kernel.Spawn.{pml4_of}
use hobby_os_kernel.Syscall.{
  Outcome, returned, suspended, faulted, halted, unfinished, read_user, min, write_out, write_from,
  after_block, accepts, delivered, deliver, send_now, send_to, send_from, with_ipc_len, received,
}

abbrev pub outcome_kernel : Outcome → Kernel
outcome_kernel (returned ret k) = k
outcome_kernel (suspended old new k) = k
outcome_kernel (faulted k) = k
outcome_kernel (halted k) = k
outcome_kernel (unfinished k) = k

-- The invariant holds at the end, for some list of free slots.
abbrev pub Safe : Outcome → Type 0
Safe o = (ys : List ℕ) × Sane (outcome_kernel o) ys

-- The invariant is about the tasks alone.
pub Sane-other :
    {k : Kernel} {xs : List ℕ} (s : Ram) (cr3 : ℕ) (written : List ℕ)
    → Sane k xs
    → Sane (record k { ram = s; cr3 = cr3; written = written }) xs
Sane-other s cr3 written h = record {
  slots = h.slots;
  current_small = h.current_small;
  current_used = h.current_used;
  single = h.single;
  no_idle = h.no_idle;
}

blocked_used : (s : TaskState) → (state_number s == 3) ≡ true → (state_number s == 0) ≡ false
blocked_used s h = ground arith

-- Waking a used task keeps the invariant.
pub wake-Sane :
    {k : Kernel} {xs : List ℕ} (t : ℕ)
    → Sane k xs
    → t < 64
    → unused k.task_table t ≡ false
    → Sane (task_wake t k) xs
unfolding task_wake
wake-Sane {k} t s small used =
    Sane-update (woken (k.task_table t)) s small used refl λ e. absurd (cc e)

pub if-Safe : (b : Bool) (f g : Outcome) → Safe f → (b ≡ false → Safe g) → Safe (if b then f else g)
if-Safe true f g h h' = h
if-Safe false f g h h' = h' refl

-- The task that a search found, which passes the test.
pub found-passes :
    (k : Kernel) (test : Task → Bool) (t : ℕ)
    → find_task k.task_table test ≡ some t
    → (t < 64) × (test (k.task_table t) ≡ true)
found-passes k test t e = (h.1, h.2)
  where
    h : IsFirst 0 64 (λ i. test (k.task_table i)) (some t)
    h = subst (IsFirst 0 64 (λ i. test (k.task_table i))) e (find_task-IsFirst k.task_table test)

module _ {k : Kernel} {xs : List ℕ} (s : Sane k xs) where
  write_out-Safe : (len : ℕ) (o : Option (List ℕ)) → Safe (write_out len o k)
  unfolding write_out
  write_out-Safe len none = (xs, s)
  write_out-Safe len (some buf) = (xs, Sane-other k.ram k.cr3 _ s)

  pub write_from-Safe : (c : Option ℕ) (user_ptr len : ℕ) → Safe (write_from c user_ptr len k)
  unfolding write_from
  write_from-Safe none user_ptr len = (xs, s)
  write_from-Safe (some self) user_ptr len =
      if-Safe (not (uva_check_range (pml4_of (k.task_table self)) user_ptr len false k.ram)) _ _
        (xs, s)
        λ _. write_out-Safe len (read_user (get_current_pml4 k.cr3) len user_ptr k.ram.bytes)

  pub after_block-Safe :
      (self : ℕ) (reason : BlockReason) (peer buf len : ℕ)
      → k.current_task ≡ some self
      → Safe (after_block self (task_block_and_switch self reason peer buf len k))
  after_block-Safe self reason peer buf len cur =
      by_flow self (task_block_and_switch self reason peer buf len k)
        (task_block_and_switch-Sane self reason peer buf len s cur)
    where
      by_flow : (self : ℕ) (f : Flow) → Sane (kernel_of f) xs → Safe (after_block self f)
      by_flow self (same_task k') h = (xs, h)
      by_flow self (switched old new k') h = (xs, h)

  module _ (t : ℕ) (small : t < 64) (used : unused k.task_table t ≡ false) where
    delivered-Safe : (len pml4 : ℕ) (o : Option Mem) → Safe (delivered t len pml4 o k)
    unfolding delivered
    delivered-Safe len pml4 none = (xs, Sane-other k.ram _ k.written s)
    delivered-Safe len pml4 (some m) =
        (xs, wake-Sane t (Sane-other (record k.ram { bytes = m }) pml4 k.written s) small used)

    deliver-Safe : (len : ℕ) (o : Option (List ℕ)) → Safe (deliver t len o k)
    unfolding deliver
    deliver-Safe len none = (xs, s)
    deliver-Safe len (some tmp) = delivered-Safe len _ _

    send_now-Safe : (user_buf len : ℕ) → Safe (send_now t user_buf len k)
    unfolding send_now
    send_now-Safe user_buf len =
        if-Safe
          (not (uva_check_range (pml4_of (k.task_table t)) (k.task_table t).ipc_buf len true k.ram))
          _ _ (xs, s) λ _. deliver-Safe len _

    pub received-Safe : (len : ℕ) (o : Option Mem) → Safe (received t len o k)
    unfolding received
    received-Safe len none = (xs, s)
    received-Safe len (some m) = (
      xs,
      wake-Sane t
          (Sane-update (with_ipc_len len (k.task_table t))
            (Sane-other (record k.ram { bytes = m }) k.cr3 k.written s) small used used (λ e. e))
          small
          (ap (in_state task_unused)
              (set_task_self k.task_table t (with_ipc_len len (k.task_table t)))
            ∙ used),
    )

  send_to-Safe :
      (self target_id user_buf len : ℕ) (o : Option ℕ)
      → task_find_by_id target_id k ≡ o
      → k.current_task ≡ some self
      → Safe (send_to self o target_id user_buf len k)
  unfolding send_to task_find_by_id
  send_to-Safe self target_id user_buf len none e cur = (xs, s)
  send_to-Safe self target_id user_buf len (some t) e cur =
      if-Safe' (accepts (k.task_table self).task_id (k.task_table t)) _ _
        (let (small, passes) = found-passes k _ t e in
          send_now-Safe t small (ground arith) user_buf (min len (k.task_table t).ipc_len))
        (after_block-Safe self block_on_send target_id user_buf len cur)
    where
      if-Safe' : (b : Bool) (f g : Outcome) → Safe f → Safe g → Safe (if b then f else g)
      if-Safe' b f g h h' = if-Safe b f g h λ _. h'

  pub send_from-Safe :
      (c : Option ℕ) (target_id user_buf len : ℕ)
      → k.current_task ≡ c
      → Safe (send_from c target_id user_buf len k)
  unfolding send_from
  send_from-Safe none target_id user_buf len cur = (xs, s)
  send_from-Safe (some self) target_id user_buf len cur =
      if-Safe (not (uva_check_range (pml4_of (k.task_table self)) user_buf len false k.ram)) _ _
        (xs, s) λ _. send_to-Safe self target_id user_buf len (task_find_by_id target_id k) refl cur
