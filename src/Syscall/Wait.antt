-- ===== src/Syscall/Wait.antt =====
-- A parent and its children: `sys_exit` and `sys_wait`.
use hobby_os_kernel.Common.{
  ℕ, ◌<◌, ◌≡◌, sym, ap, ◌∙◌, subst, ◌≢◌, Bool, true, Option, none, some, arith, ℕ_discrete,
}
use hobby_os_kernel.Task.{
  Task, Kernel, task_runnable, task_dead, task_blocked, in_state, update, set_task, find_task,
  task_wake, woken,
}
use hobby_os_kernel.Task.Table.{IsFirst, find_task-IsFirst}
use hobby_os_kernel.Task.Slots.{set_task_self, set_task_ne}
use hobby_os_kernel.Syscall.{halted, dead, waits_for, wake_waiting, exit_task, sys_exit}

-- The slots of the table hold different identities.
abbrev pub UniqueIds : (ℕ → Task) → Type 0
UniqueIds table = (i j : ℕ) → i < 64 → j < 64 → (table i).task_id ≡ (table j).task_id → i ≡ j

-- The only task that passes a test is the one that a search finds.
find_task-only :
    (table : ℕ → Task) (test : Task → Bool) (p : ℕ)
    → p < 64
    → test (table p) ≡ true
    → ((i : ℕ) → i < 64 → test (table i) ≡ true → i ≡ p)
    → find_task table test ≡ some p
find_task-only table test p small hit only =
    by_result (find_task table test) (find_task-IsFirst table test)
  where
    by_result : (o : Option ℕ) → IsFirst 0 64 (λ i. test (table i)) o → o ≡ some p
    by_result none first = absurd (cc (hit, first p (omega arith) small))
    by_result (some i) first = ap some (only i first.1 first.2)

module _ (k : Kernel) (c p code : ℕ) (small : p < 64) (small_c : c < 64) (ne : p ≢ c)
    (unique : UniqueIds k.task_table)
    (waits : waits_for (k.task_table c) (k.task_table p) ≡ true) where
  abbrev dying : Task
  dying = dead code (k.task_table c)

  abbrev after : ℕ → Task
  after = set_task k.task_table c dying

  parent_waits : waits_for (after c) (after p) ≡ true
  parent_waits =
      rw (set_task_self k.task_table c dying, set_task_ne k.task_table c p dying ne) waits

  only_parent : (i : ℕ) → i < 64 → waits_for (after c) (after i) ≡ true → i ≡ p
  only_parent i h w = elim (ℕ_discrete i c) [
    | yes same ↦ absurd (not_blocked (subst (λ n. waits_for (after c) (after n) ≡ true) same w))
    | no other ↦ unique i p h small (
        same_id (subst (λ t. waits_for t (after i) ≡ true) (set_task_self k.task_table c dying) w)
          other)
  ]
    where
      blocked_of : (t u : Task) → waits_for t u ≡ true → in_state task_blocked u ≡ true
      blocked_of t u w = ground arith

      not_blocked : waits_for (after c) (after c) ≡ true → ⊥
      not_blocked w = cc (
        blocked_of (after c) (after c) w,
        ap (in_state task_blocked) (set_task_self k.task_table c dying),
      )

      id_of : (t u : Task) → waits_for t u ≡ true → u.task_id ≡ t.parent_id
      id_of t u w = ground arith

      same_id :
          waits_for dying (after i) ≡ true
          → i ≢ c
          → (k.task_table i).task_id ≡ (k.task_table p).task_id
      same_id w other =
          ap (λ t. t.task_id) (sym (set_task_ne k.task_table c i dying other))
          ∙ id_of dying (after i) w
          ∙ sym (id_of (k.task_table c) (k.task_table p) waits)

  -- The exit of a task wakes the parent that waits for it: afterwards the parent is runnable, and the
  -- task is dead with its exit code kept.
  pub sys_exit-wakes_parent :
      k.current_task ≡ some c
      → (k' : Kernel) × (sys_exit code k ≡ halted k')
        × (in_state task_runnable (k'.task_table p) ≡ true)
        × (in_state task_dead (k'.task_table c) ≡ true)
        × ((k'.task_table c).exit_code ≡ code)
  unfolding sys_exit exit_task wake_waiting task_wake
  sys_exit-wakes_parent cur = (
    task_wake p (update c (dead code) k),
    ap (λ o. halted (exit_task o code k)) cur
        ∙ ap (λ o. halted (wake_waiting o (update c (dead code) k)))
            (find_task-only after (waits_for (after c)) p small parent_waits only_parent),
    ap (in_state task_runnable) (set_task_self after p (woken (after p))),
    ap (in_state task_dead) kept,
    ap (λ t. t.exit_code) kept,
  )
    where
      kept : set_task after p (woken (after p)) c ≡ dying
      kept =
          set_task_ne after p c (woken (after p)) (λ e. ne (sym e))
          ∙ set_task_self k.task_table c dying
