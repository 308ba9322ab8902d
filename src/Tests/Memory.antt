-- ===== src/Tests/Memory.antt =====
-- Concrete inputs for the theorems on memory, the heap and the boot allocator.
use hobby_os_kernel.Common.{ℕ, ◌+◌, ◌%◌, ◌≡◌, true, false, List, [], ◌∷◌, some}
use hobby_os_kernel.Memory.{Mem, memmove}
use hobby_os_kernel.Memory.Copy.{copied, memmove_lem}
use hobby_os_kernel.Kheap.{Block, Heap, kfree}
use hobby_os_kernel.Kheap.Owners.{owners, kfree-owners}
use hobby_os_kernel.BootAlloc.{MemmapEntry, Pmm}
use hobby_os_kernel.BootAlloc.Regions.{Outcome}
use hobby_os_kernel.Tests.Paging.{cleared}

-- The byte at each address is the low byte of the address.
abbrev pub counting : Mem
counting q = q % 256

memmove_lem_example : memmove 102 100 8 counting 104 ≡ copied 102 100 8 counting 104
memmove_lem_example = memmove_lem 102 100 8 counting 104

abbrev two_blocks : List Block
two_blocks =
    record { addr = 1000; size = 64; free = true }
    ∷ record { addr = 1088; size = 32; free = false }
    ∷ []

abbrev small_heap : Heap
small_heap = record { heap_next = 2000; heap_end = 2000; free_list = two_blocks; ram = cleared }

kfree-owners_example :
    owners (kfree (some 1112) small_heap).free_list 1100 ≡ owners small_heap.free_list 1100
kfree-owners_example = kfree-owners (some 1112) small_heap 1100

-- One usable region.
abbrev pub one_region : List MemmapEntry
one_region = record { base = 4096; extent = 40960; type = 0 } ∷ []

abbrev at_start : Pmm
at_start = record { memmap = one_region; current_region = 0; next_free = 4096 }

abbrev later : ℕ → Pmm
later n = record { memmap = one_region; current_region = 0; next_free = 4096 + n }
