-- ===== src/Kheap/Alloc.antt =====
-- What `kmalloc` returns, from the blocks of the heap and from new pages.
use hobby_os_kernel.Common.{
  ℕ, ◌+◌, ◌*◌, ◌/◌, ◌≡◌, ◌⊎◌, ◌&&◌, Option, none, some, if◌then◌else◌, ltb, leb,
}
use hobby_os_kernel.Kheap.{Heap}
use hobby_os_kernel.Kheap.Owners.{owners, Holds}

-- 1 if the address lies in the `n` bytes from `base` on.
abbrev pub in_range : ℕ → ℕ → ℕ → ℕ
in_range base n a = if leb base a && ltb a (base + n) then 1 else 0

-- The number of pages for a block of the size, header included.
abbrev pub pages_for : ℕ → ℕ
pages_for size = (size + 24 + 4095) / 4096

-- What a request for `size` bytes may come to: NULL with the blocks as before, or a block in use of
-- that size at least, either cut out of the blocks, with the owners that each address had, or at the
-- old end of the heap, with the new pages as an owner more.
abbrev pub Allocated : ℕ → Heap → Option ℕ × Heap → Type 0
Allocated size h (none, h') = h'.free_list ≡ h.free_list
Allocated size h (some p, h') =
    (addr : ℕ) × (p ≡ addr + 24)
    × Holds addr size h'.free_list
    × (((a : ℕ) → owners h'.free_list a ≡ owners h.free_list a)
        ⊎ ((a : ℕ)
            → owners h'.free_list a
              ≡ in_range h.heap_next (pages_for size * 4096) a + owners h.free_list a))
