-- ===== src/Syscall/UserMemory.antt =====
-- syscall.c: the kernel's reads of user memory, and `sys_write`.
use hobby_os_kernel.Common.{ℕ, ◌+◌, ◌^◌, ◌<◌, ◌≡◌, List, [], ◌∷◌, ◌++◌, some, ◌⊎◌, length}
use hobby_os_kernel.Memory.{Mem}
use hobby_os_kernel.Paging.Walk.{get_current_pml4}
use hobby_os_kernel.Paging.Walk.Lookup.{translate}
use hobby_os_kernel.Task.{Kernel}
use hobby_os_kernel.Spawn.{pml4_of}
use hobby_os_kernel.Syscall.{Outcome, returned, failure, read_user, text_of}

-- The bytes are those at the physical addresses that the range from `src` on is mapped to.
abbrev pub ComeFrom : Mem → ℕ → ℕ → List ℕ → Type 0
ComeFrom m pml4 src [] = Unit {0}
ComeFrom m pml4 src (b ∷ bytes) =
    ((phys : ℕ) × (translate m pml4 src ≡ some phys) × (b ≡ m phys))
    × ComeFrom m pml4 (src + 1) bytes

abbrev pub Copies : Mem → ℕ → ℕ → ℕ → Type 0
Copies m pml4 src n =
    (bytes : List ℕ) × (read_user pml4 n src m ≡ some bytes)
    × (length bytes ≡ n)
    × ComeFrom m pml4 src bytes

-- What `sys_write` may come to for the task `self`: a refusal that changes nothing, or the number of
-- bytes written, with the text of the user's bytes sent on.
abbrev pub Writes : Kernel → ℕ → ℕ → ℕ → Outcome → Type 0
Writes k pml4 user_ptr len o =
    (o ≡ returned failure k)
    ⊎ ((bytes : List ℕ) × (length bytes ≡ len)
        × ComeFrom k.ram.bytes pml4 user_ptr bytes
        × (o ≡ returned len (record k { written = k.written ++ text_of bytes })))

module _ (k : Kernel) (self user_ptr len : ℕ) (hu : user_ptr < 2 ^ 64) (small : len < 2 ^ 64)
    (active : get_current_pml4 k.cr3 ≡ pml4_of (k.task_table self)) where
  abbrev own_pml4 : ℕ
  own_pml4 = pml4_of (k.task_table self)
