-- ===== src/Paging/Clone.antt =====
-- paging.c: the copy of an address space that `task_fork` makes.
use hobby_os_kernel.Common.{
  ℕ, zero, suc, ◌+◌, ◌-◌, bit_and, Bool, true, false, not, Option, none, some, if◌then◌else◌,
}
use hobby_os_kernel.Memory.{memcpy}
use hobby_os_kernel.Frames.{Ram, page2pa, page_alloc}
use hobby_os_kernel.Paging.Entry.{present, pte_get_addr}
use hobby_os_kernel.Paging.RoundTrip.{compose_vaddr}
use hobby_os_kernel.Paging.Walk.{
  kernel_pml4_start, entry_at, load_entry, Result, copy_entries, vmm_map,
}

-- Whether to go on, and the memory so far.
abbrev pub Progress : Type 0
Progress = Bool × Ram

abbrev pub go_on : Progress → (Ram → Progress) → Progress
go_on (true, s) k = k s
go_on (false, s) k = (false, s)

-- `for (i = i; i < i + rounds; i++)` over the entries of a table, with the entries that are not
-- present passed over. The body gets the index and the entry.
each_present : ℕ → ℕ → ℕ → (ℕ → ℕ → Ram → Progress) → Ram → Progress
each_present zero i table body s = (true, s)
each_present (suc rounds) i table body s =
    let entry = load_entry s (entry_at table i) in
    go_on (if not (present entry) then (true, s) else body i entry s)
      λ s. each_present rounds (i + 1) table body s

-- The body of the innermost loop: a new page with the bytes of the parent's, mapped in the child.
copy_page : ℕ → ℕ → ℕ → Option ℕ × Ram → Progress
copy_page child vaddr parent_pte (none, s) = (false, s)
copy_page child vaddr parent_pte (some pp, s) = (
  true,
  vmm_map child vaddr (page2pa pp) (bit_and parent_pte 0xFFF)
      (record s { bytes = memcpy (page2pa pp) (pte_get_addr parent_pte) 4096 s.bytes }),
)

-- The four nested loops.
copy_user_half : ℕ → ℕ → Ram → Progress
copy_user_half child parent s =
    each_present kernel_pml4_start 0 parent
      (λ i4 e4 s.
        each_present 512 0 (pte_get_addr e4)
          (λ i3 e3 s.
            each_present 512 0 (pte_get_addr e3)
              (λ i2 e2 s.
                each_present 512 0 (pte_get_addr e2)
                  (λ i1 e1 s. copy_page child (compose_vaddr i4 i3 i2 i1) e1 (page_alloc 0 s)) s)
              s)
          s)
      s

-- `return child_pml4`, or the `return NULL` of the innermost loop.
finish_copy : ℕ → Progress → Result
finish_copy child (true, s) = (some child, s)
finish_copy child (false, s) = (none, s)

copy_into : ℕ → Result → Result
copy_into parent (none, s) = (none, s)
copy_into parent (some pp, s) =
    let child = page2pa pp in
    finish_copy child (
      copy_user_half child parent
        (copy_entries (512 - kernel_pml4_start) kernel_pml4_start parent child s))

pub vmm_copy_address_space : ℕ → Ram → Result
vmm_copy_address_space parent_pml4 s = copy_into parent_pml4 (page_alloc 1 s)
