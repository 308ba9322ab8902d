-- ===== src/Spawn/Holding.antt =====
-- The invariant while a slot is off the free list and its task is being set up.
use hobby_os_kernel.Common.{
  ℕ, ◌<◌, ◌≡◌, refl, sym, ap, ◌∙◌, subst, ◌≢◌, Bool, true, false, List, [], ◌∷◌, Option, none, some,
  arith, ℕ_discrete,
}
use hobby_os_kernel.Task.{
  Task, Kernel, task_unused, task_running, in_state, set_task, unlink, slot_head, task_slot_alloc,
  released, task_slot_free,
}
use hobby_os_kernel.Task.Slots.{
  unused, Detached, Detached-set_task, Detached-fill, task_slot_free-Slots, Slots-first,
  slot_alloc-some, slot_alloc-none, set_task_ne, set_task_self, unused-set_task_ne,
  unused-set_task_self,
}
use hobby_os_kernel.Scheduler.Running.{is_running, Sane}

pub record Holding (table : ℕ → Task) (free current idle : Option ℕ) (xs : List ℕ) (t : ℕ)
    : Type 0 where
  pub detached : Detached table free xs t
  pub current_small : (c : ℕ) → current ≡ some c → c < 64
  pub current_used : (c : ℕ) → current ≡ some c → unused table c ≡ false
  pub current_other : (c : ℕ) → current ≡ some c → c ≢ t
  pub single : (i : ℕ) → i < 64 → i ≢ t → is_running table i ≡ true → current ≡ some i
  pub no_idle : idle ≡ none

module _ {table : ℕ → Task} {free current idle : Option ℕ} {xs : List ℕ} {t : ℕ} where
  pub Holding-set_task :
      (task : Task)
      → Holding table free current idle xs t
      → Holding (set_task table t task) free current idle xs t
  Holding-set_task task h = record {
    detached = Detached-set_task task h.detached;
    current_small = h.current_small;
    current_used =
        λ c e. unused-set_task_ne table t task c (h.current_other c e) ∙ h.current_used c e;
    current_other = h.current_other;
    single = λ i small ne runs.
        h.single i small ne
          (sym (ap (in_state task_running) (set_task_ne table t i task ne)) ∙ runs);
    no_idle = h.no_idle;
  }

-- Once its task is in use, and does not run, the slot is one of the others.
pub Holding-fill :
    {k : Kernel} {xs : List ℕ} {t : ℕ} (task : Task)
    → Holding k.task_table k.task_free_list k.current_task k.idle_task xs t
    → in_state task_unused task ≡ false
    → in_state task_running task ≡ false
    → Sane (record k { task_table = set_task k.task_table t task }) xs
Holding-fill {k} {xs} {t} task h used rests = record {
  slots =
      Detached-fill (Detached-set_task task h.detached)
        (unused-set_task_self k.task_table t task ∙ used);
  current_small = h.current_small;
  current_used =
      λ c e. unused-set_task_ne k.task_table t task c (h.current_other c e) ∙ h.current_used c e;
  single = λ i small runs. elim (ℕ_discrete i t) [
    | yes e ↦
        absurd (never (subst (λ n. is_running (set_task k.task_table t task) n ≡ true) e runs))
    | no ne ↦
        h.single i small ne
          (sym (ap (in_state task_running) (set_task_ne k.task_table t i task ne)) ∙ runs)
  ];
  no_idle = h.no_idle;
}
  where
    never : is_running (set_task k.task_table t task) t ≡ true → ⊥
    never e = cc (e, ap (in_state task_running) (set_task_self k.task_table t task), rests)

-- The slot goes back to the front of the list.
pub Holding-free :
    (k : Kernel) (xs : List ℕ) (t : ℕ)
    → Holding k.task_table k.task_free_list k.current_task k.idle_task xs t
    → Sane (task_slot_free t k) (t ∷ xs)
unfolding task_slot_free
Holding-free k xs t h = record {
  slots = unfold task_slot_free in task_slot_free-Slots k xs t h.detached;
  current_small = h.current_small;
  current_used =
      λ c e. unused-set_task_ne k.task_table t freed c (h.current_other c e) ∙ h.current_used c e;
  single = λ i small runs. elim (ℕ_discrete i t) [
    | yes e ↦
        absurd (never (subst (λ n. is_running (set_task k.task_table t freed) n ≡ true) e runs))
    | no ne ↦
        h.single i small ne
          (sym (ap (in_state task_running) (set_task_ne k.task_table t i freed ne)) ∙ runs)
  ];
  no_idle = h.no_idle;
}
  where
    freed : Task
    freed = released k.task_free_list (k.task_table t)

    never : is_running (set_task k.task_table t freed) t ≡ true → ⊥
    never e = cc (e, ap (in_state task_running) (set_task_self k.task_table t freed))

-- What `task_slot_alloc` leaves.
abbrev pub Held : List ℕ → Option ℕ × Kernel → Type 0
Held xs (none, k) = Sane k xs
Held xs (some t, k) =
    (ys : List ℕ) × (xs ≡ t ∷ ys)
    × Holding k.task_table k.task_free_list k.current_task k.idle_task ys t

module _ {k : Kernel} {x : ℕ} {xs : List ℕ} (s : Sane k (x ∷ xs)) where
  x_unused : unused k.task_table x ≡ true
  x_unused = ground (arith, s.slots.listed x (s.slots.inside x (ground arith)))

  other : (c : ℕ) → k.current_task ≡ some c → c ≢ x
  other c e same =
      clash (s.current_used c e) (subst (λ n. unused k.task_table n ≡ true) (sym same) x_unused)
    where
      clash : {b : Bool} → b ≡ false → b ≡ true → ⊥
      clash e f = cc (e, f)

  first-Holding :
      Holding
        (set_task k.task_table x (unlink (k.task_table x)))
        (k.task_table x).next_free
        k.current_task
        k.idle_task
        xs
        x
  first-Holding = Holding-set_task (unlink (k.task_table x)) record {
    detached = Slots-first s.slots;
    current_small = s.current_small;
    current_used = s.current_used;
    current_other = other;
    single = λ i small ne runs. s.single i small runs;
    no_idle = s.no_idle;
  }

pub task_slot_alloc-Held : (k : Kernel) (xs : List ℕ) → Sane k xs → Held xs (task_slot_alloc k)
task_slot_alloc-Held k [] s = rw (slot_alloc-none k s.slots.chain) s
task_slot_alloc-Held k (x ∷ xs) s =
    subst (Held (x ∷ xs)) (sym (slot_alloc-some k x s.slots.chain.0))
      (unfold slot_head in (xs, refl, first-Holding s))
