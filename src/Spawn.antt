-- ===== src/Spawn.antt =====
-- task.c: the creation of tasks, their first stack frames, and their end.
pub mod Holding
pub mod Kept
pub mod Frame
use hobby_os_kernel.Common.{
  ℕ, zero, suc, ◌+◌, ◌-◌, ◌*◌, Bool, true, false, not, List, [], ◌∷◌, Option, none, some,
  if◌then◌else◌,
}
use hobby_os_kernel.Word.{u64}
use hobby_os_kernel.Memory.{Mem, memcpy, memset, store64, load64}
use hobby_os_kernel.Frames.{Ram, page2pa, page_alloc}
use hobby_os_kernel.Paging.Walk.{Result, get_current_pml4, vmm_new_address_space}
use hobby_os_kernel.Paging.Clone.{vmm_copy_address_space}
use hobby_os_kernel.Scheduler.{or_else}
use hobby_os_kernel.Task.{
  Task, Kernel, task_unused, task_runnable, no_parent, in_state, update, task_slot_alloc,
  task_slot_free,
}

-- The offset of the direct map, and the labels of the assembly that a new task starts in.
pub record Labels : Type 0 where
  pub hhdm_offset : ℕ
  pub syscall_entry_return : ℕ
  pub task_entry_trampoline : ℕ

abbrev pub with_ram : Ram → Kernel → Kernel
with_ram s k = record k { ram = s }

abbrev pub store_word : ℕ → ℕ → Mem → Mem
store_word a v m = store64 m a v

-- `sp[i] = words[i]`
pub store_words : ℕ → List ℕ → Mem → Mem
store_words sp [] m = m
store_words sp (w ∷ ws) m = store_words (sp + 8) ws (store_word sp w m)

abbrev pub with_stack : ℕ → Task → Task
with_stack base t = record t { kstack = some base; kstack_top = some (base + 4096) }

kstack_page : ℕ → Option ℕ × Ram → Kernel → Bool × Kernel
kstack_page t (none, s) k = (false, with_ram s k)
kstack_page t (some pp, s) k = (true, update t (with_stack (page2pa pp)) (with_ram s k))

-- One page, although task.h speaks of two.
pub task_kstack_alloc : ℕ → Kernel → Bool × Kernel
unfolding kstack_page
task_kstack_alloc t k = kstack_page t (page_alloc 1 k.ram) k

abbrev pub created : ℕ → Task → Task
created pml4 t = record t {
  pml4 = some pml4;
  state = task_runnable;
  context_rsp = 0;
  parent_id = no_parent;
  exit_code = 0;
}

abbrev pub give_up : ℕ → Kernel → Option ℕ × Kernel
give_up t k = (none, task_slot_free t k)

-- The end of `task_create`, once the stack was asked for.
create_stack : ℕ → ℕ → Bool × Kernel → Option ℕ × Kernel
create_stack t pml4 (false, k) = give_up t k
create_stack t pml4 (true, k) = (some t, update t (created pml4) k)

create_space : ℕ → Kernel → Result → Option ℕ × Kernel
create_space t k (none, s) = give_up t (with_ram s k)
create_space t k (some pml4, s) = create_stack t pml4 (task_kstack_alloc t (with_ram s k))

create_slot : Option ℕ × Kernel → Option ℕ × Kernel
create_slot (none, k) = (none, k)
create_slot (some t, k) = create_space t k (vmm_new_address_space k.cr3 k.ram)

pub task_create : Kernel → Option ℕ × Kernel
task_create k = create_slot (task_slot_alloc k)

-- A return address and the six registers that `context_switch` pops, r15 first, below `sp`.
pub push_frame : ℕ → ℕ → ℕ → Mem → Mem
push_frame sp ret r12 m =
    store_words (sp - 8 - 8 * 6) (0 ∷ 0 ∷ 0 ∷ r12 ∷ 0 ∷ 0 ∷ []) (store_word (sp - 8) ret m)

-- The stack pointer that `push_frame` leaves.
abbrev pub frame_sp : ℕ → ℕ
frame_sp sp = sp - 8 - 8 * 6

abbrev pub with_bytes : Mem → Kernel → Kernel
with_bytes m k = record k { ram = record k.ram { bytes = m } }

abbrev pub with_rsp : ℕ → Task → Task
with_rsp sp t = record t { context_rsp = sp }

-- The task has a kernel stack when this is called.
abbrev pub stack_top : ℕ → Kernel → ℕ
stack_top t k = or_else (k.task_table t).kstack_top 0

pub task_stack_init : Labels → ℕ → ℕ → Kernel → Kernel
task_stack_init labels t entry k =
    update t (with_rsp (frame_sp (stack_top t k)))
      (with_bytes (push_frame (stack_top t k) labels.task_entry_trampoline entry k.ram.bytes) k)

abbrev pub created_kernel : ℕ → Task → Task
created_kernel pml4 t = record t {
  pml4 = some pml4;
  state = task_runnable;
  parent_id = no_parent;
  exit_code = 0;
}

create_kernel_stack : Labels → ℕ → ℕ → Bool × Kernel → Option ℕ × Kernel
create_kernel_stack labels t entry (false, k) = give_up t k
create_kernel_stack labels t entry (true, k) =
    (some t, task_stack_init labels t entry (update t (created_kernel (get_current_pml4 k.cr3)) k))

create_kernel_slot : Labels → ℕ → Option ℕ × Kernel → Option ℕ × Kernel
create_kernel_slot labels entry (none, k) = (none, k)
create_kernel_slot labels entry (some t, k) =
    create_kernel_stack labels t entry (task_kstack_alloc t k)

pub task_create_kernel : Labels → ℕ → Kernel → Option ℕ × Kernel
task_create_kernel labels entry k = create_kernel_slot labels entry (task_slot_alloc k)

abbrev pub stripped : Task → Task
stripped t = record t { pml4 = none; kstack = none; kstack_top = none; context_rsp = 0 }

-- The pages of the task are not freed.
destroy_task : ℕ → Kernel → Kernel
destroy_task t k =
    if in_state task_unused (k.task_table t) then k else task_slot_free t (update t stripped k)

pub task_destroy : Option ℕ → Kernel → Kernel
task_destroy none k = k
task_destroy (some t) k = destroy_task t k

-- `sizeof(struct syscall_regs)`, and the offsets of the fields that the kernel reads or writes.
abbrev pub regs_size : ℕ
regs_size = 160

abbrev pub rax_at : ℕ → ℕ
rax_at regs = regs

-- Copies the parent's registers, with 0 in rax, and has the child return from the system call.
pub fork_frame : Labels → ℕ → ℕ → Mem → Mem
fork_frame labels regs parent_regs m =
    push_frame regs labels.syscall_entry_return (u64 (regs + labels.hhdm_offset))
      (store_word (rax_at regs) 0 (memcpy regs parent_regs regs_size m))

abbrev pub forked : ℕ → ℕ → ℕ → Task → Task
forked pml4 parent_id sp t = record t {
  pml4 = some pml4;
  parent_id = parent_id;
  exit_code = 0;
  context_rsp = sp;
  state = task_runnable;
}

fork_stack : Labels → ℕ → ℕ → ℕ → ℕ → Bool × Kernel → Option ℕ × Kernel
fork_stack labels parent parent_regs child pml4 (false, k) = give_up child k
fork_stack labels parent parent_regs child pml4 (true, k) =
    let regs = stack_top child k - regs_size in
    (
      some child,
      update child (forked pml4 (k.task_table parent).task_id (frame_sp regs))
          (with_bytes (fork_frame labels regs parent_regs k.ram.bytes) k),
    )

fork_space : Labels → ℕ → ℕ → ℕ → Kernel → Result → Option ℕ × Kernel
fork_space labels parent parent_regs child k (none, s) = give_up child (with_ram s k)
fork_space labels parent parent_regs child k (some pml4, s) =
    fork_stack labels parent parent_regs child pml4 (task_kstack_alloc child (with_ram s k))

-- A task in use has a page table.
abbrev pub pml4_of : Task → ℕ
pml4_of t = or_else t.pml4 0

fork_slot : Labels → ℕ → ℕ → Option ℕ × Kernel → Option ℕ × Kernel
fork_slot labels parent parent_regs (none, k) = (none, k)
fork_slot labels parent parent_regs (some child, k) =
    fork_space labels parent parent_regs child k
      (vmm_copy_address_space (pml4_of (k.task_table parent)) k.ram)

pub task_fork : Labels → ℕ → ℕ → Kernel → Option ℕ × Kernel
task_fork labels parent parent_regs k = fork_slot labels parent parent_regs (task_slot_alloc k)

-- The registers with which a new user task returns from its first "system call".
pub user_frame : Labels → ℕ → ℕ → ℕ → Mem → Mem
user_frame labels regs entry user_stack_top m =
    push_frame regs labels.syscall_entry_return (u64 (regs + labels.hhdm_offset)) (
      store_words (regs + 120) (entry ∷ 0x23 ∷ 0x202 ∷ user_stack_top ∷ 0x1B ∷ [])
        (memset regs 0 regs_size m))

abbrev pub prepared : ℕ → Task → Task
prepared sp t = record t { context_rsp = sp; state = task_runnable }

pub task_prepare_user_entry : Labels → ℕ → ℕ → ℕ → Kernel → Kernel
task_prepare_user_entry labels t entry user_stack_top k =
    let regs = stack_top t k - regs_size in
    update t (prepared (frame_sp regs))
      (with_bytes (user_frame labels regs entry user_stack_top k.ram.bytes) k)
