-- ===== src/Scheduler/Pick.antt =====
-- Which task `scheduler_pick_next` picks.
use hobby_os_kernel.Common.{
  ℕ, ◌+◌, ◌%◌, ◌<◌, ◌≡◌, refl, ap, ◌∙◌, subst, fun_ext, Bool, false, Option, none, some, arith,
  if◌then◌else◌, ==_self,
}
use hobby_os_kernel.Frames.{is_some}
use hobby_os_kernel.Task.{Kernel, task_runnable, in_state, find_from, on_task, task_table_ptr}
use hobby_os_kernel.Task.Table.{IsFirst, find_from-IsFirst, table_ptr_lem}
use hobby_os_kernel.Scheduler.{
  or_else, points_to, index_of, fall_back, at_offset, scheduler_pick_next,
}

abbrev pub runnable : Kernel → ℕ → Bool
runnable k i = in_state task_runnable (k.task_table i)

index_of_found :
    (t : ℕ) (o : Option ℕ)
    → t < 64
    → IsFirst 0 64 (λ i. points_to t (task_table_ptr i)) o
    → or_else o 0 ≡ t
index_of_found t none small h =
    absurd (cc (h t (omega arith) small, ap (points_to t) (table_ptr_lem t small), ==_self t))
index_of_found t (some i) small h = ground (arith, ap (points_to t) (table_ptr_lem i h.1), h.2)

pub index_of_lem : (t : ℕ) → t < 64 → index_of t ≡ t
unfolding index_of
index_of_lem t small = index_of_found t _ small (find_from-IsFirst 64 0 _)

-- The offset of the first runnable task behind `c`, in the order round the table: 64 is `c` itself.
abbrev pub IsNextOffset : Kernel → ℕ → Option ℕ → Type 0
IsNextOffset k c = IsFirst 1 65 (λ offset. runnable k ((c + offset) % 64))

-- The task at that offset; without a runnable task the idle task, if there is one, or `c`.
abbrev pub picked : Kernel → ℕ → Option ℕ → ℕ
picked k c (some offset) = (c + offset) % 64
picked k c none = or_else k.idle_task c

slot_runnable :
    (k : Kernel) (i : ℕ)
    → on_task k.task_table (in_state task_runnable) (task_table_ptr (i % 64)) ≡ runnable k (i % 64)
slot_runnable k i =
    ap (on_task k.task_table (in_state task_runnable)) (table_ptr_lem (i % 64) (omega arith))

fall_back_lem :
    (k : Kernel) (c : ℕ)
    → runnable k c ≡ false
    → fall_back (some c) k ≡ some (or_else k.idle_task c)
unfolding fall_back
fall_back_lem k c h = rw h (idle_or k.idle_task)
  where
    idle_or : (idle : Option ℕ) → (if is_some idle then idle else some c) ≡ some (or_else idle c)
    idle_or none = refl
    idle_or (some t) = refl

at_offset-picked :
    (k : Kernel) (c : ℕ) (o : Option ℕ)
    → c < 64
    → IsNextOffset k c o
    → at_offset c o (fall_back (some c) k) ≡ some (picked k c o)
at_offset-picked k c none small h =
    fall_back_lem k c
      (subst (λ n. runnable k n ≡ false) (omega arith) (h 64 (omega arith) (omega arith)))
at_offset-picked k c (some offset) small h = table_ptr_lem ((c + offset) % 64) (omega arith)

-- For a task `c` of the table `scheduler_pick_next` returns the first runnable task behind it, in the
-- order round the table and with `c` as the last, and without one the idle task or `c`.
pub scheduler_pick_next-first :
    (k : Kernel) (c : ℕ)
    → c < 64
    → (offset : Option ℕ) × IsNextOffset k c offset
      × (scheduler_pick_next (some c) k ≡ some (picked k c offset))
unfolding scheduler_pick_next
scheduler_pick_next-first k c small = rw (index_of_lem c small) (
  found,
  first,
  ap (λ test. at_offset c (find_from 64 1 test) (fall_back (some c) k)) same_test
      ∙ at_offset-picked k c found small first,
)
  where
    same_test :
        ◌≡◌ {A = ℕ → Bool}
          (λ offset.
            on_task k.task_table (in_state task_runnable) (task_table_ptr ((c + offset) % 64)))
          (λ offset. runnable k ((c + offset) % 64))
    same_test = fun_ext λ offset. slot_runnable k (c + offset)

    found : Option ℕ
    found = find_from 64 1 (λ offset. runnable k ((c + offset) % 64))

    first : IsNextOffset k c found
    first = find_from-IsFirst 64 1 (λ offset. runnable k ((c + offset) % 64))
