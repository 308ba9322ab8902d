-- ===== src/Task.antt =====
-- task.c and task.h: the task table and its slots. A pointer `&task_table[i]` is the index `i`. A
-- page table or a kernel stack is the physical address that its pointer into the direct map stands
-- for. `Kernel` holds the variables that task.c, scheduler.c and timer.c keep, with the registers that
-- they set; the table's lock is held with interrupts off, so a critical section is one step.

pub mod Table
pub mod Slots
pub mod Init
use hobby_os_kernel.Common.{
  ℕ, zero, suc, ◌+◌, ◌-◌, ◌^◌, Bool, true, false, not, ◌&&◌, ◌||◌, List, Option, none, some,
  if◌then◌else◌, ◌==◌, leb,
}
use hobby_os_kernel.Frames.{Ram}

pub data TaskState : Type 0 where
  task_unused task_runnable task_running task_blocked task_dead : TaskState

pub data BlockReason : Type 0 where
  block_none block_on_recv block_on_send block_on_wait : BlockReason

abbrev pub state_number : TaskState → ℕ
state_number task_unused = 0
state_number task_runnable = 1
state_number task_running = 2
state_number task_blocked = 3
state_number task_dead = 4

abbrev pub reason_number : BlockReason → ℕ
reason_number block_none = 0
reason_number block_on_recv = 1
reason_number block_on_send = 2
reason_number block_on_wait = 3

abbrev pub max_tasks : ℕ
max_tasks = 64

-- `IPC_ANY_SENDER`
abbrev pub ipc_any_sender : ℕ
ipc_any_sender = 0xFFFFFFFFFFFFFFFF

-- `(uint64_t)-1`
abbrev pub no_parent : ℕ
no_parent = 2 ^ 64 - 1

pub record Task : Type 0 where
  pub task_id : ℕ
  pub pml4 : Option ℕ
  pub state : TaskState
  pub next_free : Option ℕ
  pub context_rsp : ℕ
  pub kstack : Option ℕ
  pub kstack_top : Option ℕ
  pub block_reason : BlockReason
  pub ipc_peer : ℕ
  pub ipc_buf : ℕ
  pub ipc_len : ℕ
  pub parent_id : ℕ
  pub exit_code : ℕ

pub record Kernel : Type 0 where
  pub task_table : ℕ → Task
  pub task_free_list : Option ℕ
  pub current_task : Option ℕ
  pub idle_task : Option ℕ
  pub ticks : ℕ
  pub cr3 : ℕ
  pub rsp0 : ℕ
  pub ram : Ram
  pub written : List ℕ

-- `t->state == s`
abbrev pub in_state : TaskState → Task → Bool
in_state s t = state_number t.state == state_number s

-- `t->block_reason == r`
abbrev pub blocked_on : BlockReason → Task → Bool
blocked_on r t = reason_number t.block_reason == reason_number r

abbrev pub set_task : (ℕ → Task) → ℕ → Task → ℕ → Task
set_task table i t j = if j == i then t else table j

-- A change to the task in slot `i`.
abbrev pub update : ℕ → (Task → Task) → Kernel → Kernel
update i f k = record k { task_table = set_task k.task_table i (f (k.task_table i)) }

-- What `task_table_init` makes of slot `i`.
abbrev pub blank : ℕ → Option ℕ → Task
blank i link = record {
  task_id = i;
  pml4 = none;
  state = task_unused;
  next_free = link;
  context_rsp = 0;
  kstack = none;
  kstack_top = none;
  block_reason = block_none;
  ipc_peer = 0;
  ipc_buf = 0;
  ipc_len = 0;
  parent_id = no_parent;
  exit_code = 0;
}

-- Slot `i` becomes the first free slot.
abbrev pub init_slot : ℕ → Kernel → Kernel
init_slot i k = record k {
  task_table = set_task k.task_table i (blank i k.task_free_list);
  task_free_list = some i;
}

-- `for (i = i; i >= 1; i--)`
init_loop : ℕ → Kernel → Kernel
init_loop zero k = k
init_loop (suc i) k = init_loop i (init_slot (suc i) k)

pub task_table_init : Kernel → Kernel
task_table_init k =
    init_loop (max_tasks - 1)
      (record k { task_table = set_task k.task_table 0 (blank 0 none); task_free_list = none })

abbrev pub unlink : Task → Task
unlink t = record t { next_free = none }

-- `task_slot_alloc`, with the head of the free list read.
unfoldable pub slot_head : Option ℕ → Kernel → Option ℕ × Kernel
slot_head none k = (none, k)
slot_head (some t) k =
    (some t, update t unlink (record k { task_free_list = (k.task_table t).next_free }))

pub task_slot_alloc : Kernel → Option ℕ × Kernel
unfolding slot_head
task_slot_alloc k = slot_head k.task_free_list k

abbrev pub released : Option ℕ → Task → Task
released link t = record t {
  state = task_unused;
  block_reason = block_none;
  parent_id = no_parent;
  exit_code = 0;
  next_free = link;
}

unfoldable pub task_slot_free : ℕ → Kernel → Kernel
task_slot_free t k = record (update t (released k.task_free_list) k) { task_free_list = some t }

abbrev pub task_table_size : ℕ
task_table_size = max_tasks

unfoldable pub task_table_ptr : ℕ → Option ℕ
task_table_ptr index = if leb max_tasks index then none else some index

-- The first of the `rounds` numbers from `i` on that passes the test.
unfoldable pub find_from : ℕ → ℕ → (ℕ → Bool) → Option ℕ
find_from zero i test = none
find_from (suc rounds) i test =
    let rest = find_from rounds (i + 1) test in if test i then some i else rest

-- A test of the task that a pointer leads to; NULL is passed over.
abbrev pub on_task : (ℕ → Task) → (Task → Bool) → Option ℕ → Bool
on_task table test none = false
on_task table test (some t) = test (table t)

-- `for (i = 0; i < task_table_size(); i++)`, ended at the first task that passes the test.
unfoldable pub find_task : (ℕ → Task) → (Task → Bool) → Option ℕ
find_task table test = find_from task_table_size 0 λ i. on_task table test (task_table_ptr i)

unfoldable pub task_find_by_id : ℕ → Kernel → Option ℕ
task_find_by_id id k = find_task k.task_table λ t. not (in_state task_unused t) && (t.task_id == id)

abbrev pub woken : Task → Task
woken t = record t { state = task_runnable; block_reason = block_none }

unfoldable pub task_wake : ℕ → Kernel → Kernel
task_wake t k = update t woken k
