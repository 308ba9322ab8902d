-- ===== src/Spawn/Kept.antt =====
-- Making and ending tasks, and the invariant of the tasks.
use hobby_os_kernel.Common.{
  ℕ, ◌<◌, ◌≡◌, refl, sym, ap, ◌∙◌, subst, ◌≢◌, Bool, true, false, List, ◌∷◌, Option, none, some,
  if◌then◌else◌,
}
use hobby_os_kernel.Frames.{Ram, page_alloc, page2pa}
use hobby_os_kernel.Paging.Walk.{get_current_pml4, Result, vmm_new_address_space}
use hobby_os_kernel.Paging.Clone.{vmm_copy_address_space}
use hobby_os_kernel.Task.{
  Task, Kernel, task_unused, task_running, task_runnable, in_state, update, set_task,
  task_slot_alloc, task_slot_free,
}
use hobby_os_kernel.Task.Slots.{unused, Slots-used, set_task_self}
use hobby_os_kernel.Scheduler.Running.{Sane}
use hobby_os_kernel.Spawn.{
  Labels, with_ram, with_stack, kstack_page, task_kstack_alloc, created, give_up, create_stack,
  create_space, create_slot, task_create, stripped, destroy_task, task_destroy, fork_stack,
  fork_space, fork_slot, task_fork, forked, pml4_of, with_bytes, create_kernel_stack,
  create_kernel_slot, task_create_kernel, task_stack_init, created_kernel, with_rsp, frame_sp,
  stack_top,
}
use hobby_os_kernel.Spawn.Holding.{
  Holding, Holding-set_task, Holding-fill, Holding-free, Held, task_slot_alloc-Held,
}

-- What making a task comes to: NULL with the same free slots, or the first free slot, then runnable.
abbrev pub Makes : List ℕ → Option ℕ × Kernel → Type 0
Makes xs (none, k) = Sane k xs
Makes xs (some t, k) =
    (ys : List ℕ) × (xs ≡ t ∷ ys) × Sane k ys × (in_state task_runnable (k.task_table t) ≡ true)

abbrev HoldsSlot : List ℕ → ℕ → Bool × Kernel → Type 0
HoldsSlot ys t (b, k) = Holding k.task_table k.task_free_list k.current_task k.idle_task ys t

kstack_page-Holds :
    (ys : List ℕ) (t : ℕ) (r : Option ℕ × Ram) (k : Kernel)
    → HoldsSlot ys t (false, k)
    → HoldsSlot ys t (kstack_page t r k)
unfolding kstack_page
kstack_page-Holds ys t (none, s) k h = h
kstack_page-Holds ys t (some pp, s) k h =
    Holding-set_task (with_stack (page2pa pp) (k.task_table t)) h

kstack_alloc-Holds :
    (ys : List ℕ) (t : ℕ) (k : Kernel)
    → HoldsSlot ys t (false, k)
    → HoldsSlot ys t (task_kstack_alloc t k)
unfolding task_kstack_alloc
kstack_alloc-Holds ys t k h = kstack_page-Holds ys t (page_alloc 1 k.ram) k h

module _ {xs ys : List ℕ} {t : ℕ} (e : xs ≡ t ∷ ys) where
  give_up-Makes : (k : Kernel) → HoldsSlot ys t (false, k) → Makes xs (give_up t k)
  give_up-Makes k h = subst (Sane (task_slot_free t k)) (sym e) (Holding-free k ys t h)

  fill-Makes :
      (k : Kernel) (task : Task)
      → HoldsSlot ys t (true, k)
      → in_state task_unused task ≡ false
      → in_state task_running task ≡ false
      → in_state task_runnable task ≡ true
      → Makes xs (some t, record k { task_table = set_task k.task_table t task })
  fill-Makes k task h used rests ready = (
    ys,
    e,
    Holding-fill task h used rests,
    ap (in_state task_runnable) (set_task_self k.task_table t task) ∙ ready,
  )

  create_stack-Makes :
      (pml4 : ℕ) (r : Bool × Kernel) → HoldsSlot ys t r → Makes xs (create_stack t pml4 r)
  unfolding create_stack
  create_stack-Makes pml4 (false, k) h = give_up-Makes k h
  create_stack-Makes pml4 (true, k) h =
      fill-Makes k (created pml4 (k.task_table t)) h refl refl refl

  create_space-Makes :
      (k : Kernel) (r : Result) → HoldsSlot ys t (false, k) → Makes xs (create_space t k r)
  unfolding create_space
  create_space-Makes k (none, s) h = give_up-Makes (with_ram s k) h
  create_space-Makes k (some pml4, s) h =
      create_stack-Makes pml4 (task_kstack_alloc t (with_ram s k))
        (kstack_alloc-Holds ys t (with_ram s k) h)

  fork_stack-Makes :
      (labels : Labels) (parent parent_regs pml4 : ℕ) (r : Bool × Kernel)
      → HoldsSlot ys t r
      → Makes xs (fork_stack labels parent parent_regs t pml4 r)
  unfolding fork_stack
  fork_stack-Makes labels parent parent_regs pml4 (false, k) h = give_up-Makes k h
  fork_stack-Makes labels parent parent_regs pml4 (true, k) h =
      fill-Makes (with_bytes _ k) (forked pml4 _ _ (k.task_table t)) h refl refl refl

  fork_space-Makes :
      (labels : Labels) (parent parent_regs : ℕ) (k : Kernel) (r : Result)
      → HoldsSlot ys t (false, k)
      → Makes xs (fork_space labels parent parent_regs t k r)
  unfolding fork_space
  fork_space-Makes labels parent parent_regs k (none, s) h = give_up-Makes (with_ram s k) h
  fork_space-Makes labels parent parent_regs k (some pml4, s) h =
      fork_stack-Makes labels parent parent_regs pml4 (task_kstack_alloc t (with_ram s k))
        (kstack_alloc-Holds ys t (with_ram s k) h)

-- The stack of a kernel task is laid out after the rest of its record.
create_kernel_stack-Makes :
    {xs ys : List ℕ} {t : ℕ} (e : xs ≡ t ∷ ys) (labels : Labels) (entry : ℕ) (r : Bool × Kernel)
    → HoldsSlot ys t r
    → Makes xs (create_kernel_stack labels t entry r)
unfolding create_kernel_stack task_stack_init
create_kernel_stack-Makes e labels entry (false, k) h = give_up-Makes e k h
create_kernel_stack-Makes {xs} {ys} {t} e labels entry (true, k) h =
    fill-Makes e (with_bytes _ made) (with_rsp (frame_sp (stack_top t made)) (made.task_table t))
      (Holding-set_task (created_kernel (get_current_pml4 k.cr3) (k.task_table t)) h)
      (ap (in_state task_unused) own) (ap (in_state task_running) own)
      (ap (in_state task_runnable) own)
  where
    made : Kernel
    made = update t (created_kernel (get_current_pml4 k.cr3)) k

    own : made.task_table t ≡ created_kernel (get_current_pml4 k.cr3) (k.task_table t)
    own = set_task_self k.task_table t (created_kernel (get_current_pml4 k.cr3) (k.task_table t))

create_kernel_slot-Makes :
    (labels : Labels) (entry : ℕ) (xs : List ℕ) (r : Option ℕ × Kernel)
    → Held xs r
    → Makes xs (create_kernel_slot labels entry r)
unfolding create_kernel_slot
create_kernel_slot-Makes labels entry xs (none, k) h = h
create_kernel_slot-Makes labels entry xs (some t, k) (ys, e, h) =
    create_kernel_stack-Makes e labels entry (task_kstack_alloc t k) (kstack_alloc-Holds ys t k h)

create_slot-Makes : (xs : List ℕ) (r : Option ℕ × Kernel) → Held xs r → Makes xs (create_slot r)
unfolding create_slot
create_slot-Makes xs (none, k) h = h
create_slot-Makes xs (some t, k) (ys, e, h) =
    create_space-Makes e k (vmm_new_address_space k.cr3 k.ram) h

-- `task_create` and `task_create_kernel` keep the invariant `Sane`. Each returns NULL, with the free slots as
-- before, or the first free slot, whose task is then runnable.
pub task_create-Makes :
    (k : Kernel) (xs : List ℕ)
    → Sane k xs
    → Makes xs (task_create k)
      × ((labels : Labels) (entry : ℕ) → Makes xs (task_create_kernel labels entry k))
unfolding task_create task_create_kernel
task_create-Makes k xs s = (
  create_slot-Makes xs (task_slot_alloc k) (task_slot_alloc-Held k xs s),
  (λ labels entry.
      create_kernel_slot-Makes labels entry xs (task_slot_alloc k) (task_slot_alloc-Held k xs s)),
)

fork_slot-Makes :
    (labels : Labels) (parent parent_regs : ℕ) (xs : List ℕ) (r : Option ℕ × Kernel)
    → Held xs r
    → Makes xs (fork_slot labels parent parent_regs r)
unfolding fork_slot
fork_slot-Makes labels parent parent_regs xs (none, k) h = h
fork_slot-Makes labels parent parent_regs xs (some t, k) (ys, e, h) =
    fork_space-Makes e labels parent parent_regs k
      (vmm_copy_address_space (pml4_of (k.task_table parent)) k.ram) h

-- `task_fork` keeps the invariant `Sane`. It returns NULL, with the free slots as before, or the first free
-- slot, whose task is then runnable.
pub task_fork-Makes :
    (labels : Labels) (parent parent_regs : ℕ) (k : Kernel) (xs : List ℕ)
    → Sane k xs
    → Makes xs (task_fork labels parent parent_regs k)
unfolding task_fork
task_fork-Makes labels parent parent_regs k xs s =
    fork_slot-Makes labels parent parent_regs xs (task_slot_alloc k) (task_slot_alloc-Held k xs s)

used_again :
    {k : Kernel} {xs : List ℕ} {t : ℕ}
    → Sane k xs
    → t < 64
    → unused k.task_table t ≡ false
    → k.current_task ≢ some t
    → HoldsSlot xs t (false, k)
used_again {k} {xs} {t} s small used ne = record {
  detached = Slots-used s.slots small used;
  current_small = s.current_small;
  current_used = s.current_used;
  current_other = λ c e same. ne (e ∙ ap some same);
  single = λ i h n runs. s.single i h runs;
  no_idle = s.no_idle;
}

-- The end of a used task other than the current one keeps the invariant `Sane`: its slot becomes the first
-- free one. For an unused task nothing changes.
pub task_destroy-Sane :
    (k : Kernel) (xs : List ℕ) (t : ℕ)
    → Sane k xs
    → t < 64
    → k.current_task ≢ some t
    → (unused k.task_table t ≡ true → task_destroy (some t) k ≡ k)
      × (unused k.task_table t ≡ false → Sane (task_destroy (some t) k) (t ∷ xs))
unfolding task_destroy destroy_task
task_destroy-Sane k xs t s small ne = (
  (λ e. ap (λ b. if b then k else task_slot_free t (update t stripped k)) e),
  λ used.
      subst (λ b. Sane (if b then k else task_slot_free t (update t stripped k)) (t ∷ xs))
        (sym used)
        (Holding-free (update t stripped k) xs t
          (Holding-set_task (stripped (k.task_table t)) (used_again s small used ne))),
)
