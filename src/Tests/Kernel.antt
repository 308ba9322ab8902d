-- ===== src/Tests/Kernel.antt =====
-- Concrete inputs for the theorems on the whole kernel and on its locks.
use hobby_os_kernel.Common.{
  ℕ, ◌≡◌, refl, ◌≢◌, ◌⊎◌, ◌&&◌, true, false, if◌then◌else◌, Option, none, List,
}
use hobby_os_kernel.Frames.{is_some}
use hobby_os_kernel.Task.{Kernel, task_table_init}
use hobby_os_kernel.Scheduler.{kernel_of, scheduler_init, timer_tick_handler}
use hobby_os_kernel.Scheduler.Running.{Sane}
use hobby_os_kernel.Spawn.{task_create}
use hobby_os_kernel.System.{Reach, boot, tick, create, Reach-Sane}
use hobby_os_kernel.Spinlock.{
  System, outside, spinlock_init, advance, interrupts_on, next_at, try_acquire,
  save_and_disable_interrupts,
}
use hobby_os_kernel.Spinlock.Guards as Guards
use hobby_os_kernel.Spinlock.Guards.{holds, owns, Reach-guards, Reach-spins}
use hobby_os_kernel.Tests.Tasks.{busy}

abbrev fresh : Kernel
fresh = record busy { current_task = none }

abbrev first_task : Kernel
first_task = (task_create (scheduler_init (task_table_init fresh))).1

Reach-Sane_example : (xs : List ℕ) × Sane (kernel_of (timer_tick_handler first_task)) xs
Reach-Sane_example = Reach-Sane (Reach.later (Reach.later (boot fresh refl) create) tick)

-- Every processor is outside the lock's functions, with its interrupts on.
abbrev quiet : System
quiet = record { locked = 1; cpu = λ i. record { rflags = 514; place = outside } }

-- Processor 0 holds the lock, and processor 1 spins.
abbrev contended : System
contended = advance 1 (advance 1 (advance 0 (advance 0 (spinlock_init quiet))))

contended-Reach : Guards.Reach contended
contended-Reach =
    Guards.Reach.later
      (Guards.Reach.later
        (Guards.Reach.later
          (Guards.Reach.later (Guards.Reach.start quiet (λ i. refl)) (Guards.Step.go 0))
          (Guards.Step.go 0))
        (Guards.Step.go 1))
      (Guards.Step.go 1)

Reach-guards_example :
    (owner : Option ℕ) × ((i : ℕ) → holds contended i ≡ owns owner i)
    × (contended.locked ≡ (if is_some owner then 1 else 0))
    × ((i : ℕ) → holds contended i && interrupts_on (contended.cpu i).rflags ≡ false)
Reach-guards_example = Reach-guards contended-Reach

Reach-spins_example :
    (holds (advance 1 contended) 1 ≡ true) ⊎ ((j : ℕ) × (j ≢ 1) × (holds contended j ≡ true))
unfolding advance next_at try_acquire save_and_disable_interrupts spinlock_init
Reach-spins_example = Reach-spins 1 514 contended-Reach refl
