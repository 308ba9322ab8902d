-- ===== src/Paging/Walk.antt =====
-- The page table walk and the operations on address spaces of paging.c. A pointer into the direct map
-- is the physical address that it stands for, so a table is the address of its first entry.
pub mod Lookup
pub mod Path
pub mod Create
pub mod Levels
pub mod Map
pub mod Space
use hobby_os_kernel.Common.{
  ℕ, zero, suc, ◌+◌, ◌-◌, ◌*◌, ◌%◌, ◌^◌, bit_and, bit_or, Bool, true, false, not, Option, none,
  some, if◌then◌else◌, ◌==◌, leb, ltb, ◌<<◌,
}
use hobby_os_kernel.Memory.{Mem, load64, store64, memcpy}
use hobby_os_kernel.Frames.{Ram, page2pa, page_alloc}
use hobby_os_kernel.Paging.Entry.{
  present, pte_get_addr, pte_make, pml4_index, pdpt_index, pd_index, pt_index,
}
use hobby_os_kernel.Paging.RoundTrip.{compose_vaddr}

-- `KERNEL_PML4_START`
abbrev pub kernel_pml4_start : ℕ
kernel_pml4_start = 256

-- `PTE_ADDR_MASK`
abbrev pub pte_addr_mask : ℕ
pte_addr_mask = 0x000FFFFFFFFFF000

-- `&table->entries[i]`
abbrev pub entry_at : ℕ → ℕ → ℕ
entry_at table i = table + 8 * i

abbrev pub load_entry : Ram → ℕ → ℕ
load_entry s slot = load64 s.bytes slot

abbrev pub store_entry : ℕ → ℕ → Ram → Ram
store_entry slot v s = record s { bytes = store64 s.bytes slot v }

-- Present, writable and user-accessible.
abbrev pub table_flags : ℕ
table_flags = bit_or (bit_or (bit_or 0 (1 << 0)) (1 << 1)) (1 << 2)

-- What a walk returns: an address, or NULL.
abbrev pub Result : Type 0
Result = Option ℕ × Ram

abbrev pub and_then : Result → (ℕ → Ram → Result) → Result
and_then (none, s) k = (none, s)
and_then (some t, s) k = k t s

-- The new table's page goes into the entry at `slot`.
attach : ℕ → Result → Result
attach slot (none, s) = (none, s)
attach slot (some pp, s) =
    let s' = store_entry slot (pte_make (page2pa pp) table_flags) s in
    (some (pte_get_addr (load_entry s' slot)), s')

-- One level of the walk: the table that the entry at `slot` leads to, made if it is missing.
pub level : ℕ → Bool → Ram → Result
unfolding attach
level slot create s =
    if not (present (load_entry s slot))
    then (if not create then (none, s) else attach slot (page_alloc 1 s))
    else (some (pte_get_addr (load_entry s slot)), s)

-- The address of the entry that maps `vaddr`, in the last of the four tables.
pub vmm_walk : ℕ → ℕ → Bool → Ram → Result
vmm_walk pml4 vaddr create s =
    and_then (level (entry_at pml4 (pml4_index vaddr)) create s) λ pdpt s.
      and_then (level (entry_at pdpt (pdpt_index vaddr)) create s) λ pd s.
        and_then (level (entry_at pd (pd_index vaddr)) create s)
          λ pt s. (some (entry_at pt (pt_index vaddr)), s)

unfoldable pub write_entry : ℕ → ℕ → Result → Ram
write_entry phys_addr flags (none, s) = s
write_entry phys_addr flags (some slot, s) = store_entry slot (pte_make phys_addr flags) s

unfoldable pub vmm_map : ℕ → ℕ → ℕ → ℕ → Ram → Ram
unfolding write_entry
vmm_map pml4 vaddr phys_addr flags s = write_entry phys_addr flags (vmm_walk pml4 vaddr true s)

unfoldable pub clear_entry : Result → Ram
clear_entry (none, s) = s
clear_entry (some slot, s) = if not (present (load_entry s slot)) then s else store_entry slot 0 s

-- The flush of the translation buffer that ends it changes no memory.
unfoldable pub vmm_unmap : ℕ → ℕ → Ram → Ram
unfolding clear_entry
vmm_unmap pml4 vaddr s = clear_entry (vmm_walk pml4 vaddr false s)

-- `cr3` names the active top-level table.
unfoldable pub get_current_pml4 : ℕ → ℕ
get_current_pml4 cr3 = bit_and cr3 pte_addr_mask

-- `for (i = i; i < 512; i++) to->entries[i] = from->entries[i];`
pub copy_entries : ℕ → ℕ → ℕ → ℕ → Ram → Ram
copy_entries zero i from to s = s
copy_entries (suc rounds) i from to s =
    copy_entries rounds (i + 1) from to
      (store_entry (entry_at to i) (load_entry s (entry_at from i)) s)

share_kernel : ℕ → Result → Result
share_kernel from (none, s) = (none, s)
share_kernel from (some pp, s) = (
  some (page2pa pp),
  copy_entries (512 - kernel_pml4_start) kernel_pml4_start from (page2pa pp) s,
)

-- A new top-level table with the kernel half of the active one.
pub vmm_new_address_space : ℕ → Ram → Result
unfolding share_kernel copy_entries
vmm_new_address_space cr3 s = share_kernel (get_current_pml4 cr3) (page_alloc 1 s)
