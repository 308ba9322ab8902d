-- ===== src/Tests/Ipc.antt =====
-- A concrete input for the receive with nobody to wait for: an address space that maps every page.
use hobby_os_kernel.Common.{ℕ, ◌%◌, if◌then◌else◌, ◌==◌}
use hobby_os_kernel.Memory.{Mem}
use hobby_os_kernel.Frames.{Ram}
use hobby_os_kernel.Task.{Task, Kernel, task_running, task_dead}
use hobby_os_kernel.Tests.Paging.{cleared}
use hobby_os_kernel.Tests.Tasks.{busy, task_in}

-- Every word is 0x5007, so that the table at 0x5000 is its own child at every level.
abbrev every_word : Mem
every_word q = if q % 8 == 0 then 7 else (if q % 8 == 1 then 0x50 else 0)

abbrev mapped : Ram
mapped = record cleared { bytes = every_word }

-- Task 1 runs, and every other task has ended.
abbrev last_task : ℕ → Task
last_task i = if i == 1 then task_in task_running 1 0 else task_in task_dead i 1

abbrev lone : Kernel
lone = record busy { task_table = last_task; ram = mapped }
