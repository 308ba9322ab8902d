-- ===== src/BootAlloc.antt =====
-- physical_page_management.c: the allocator that runs before the page allocator. It hands out bytes
-- of the usable regions of the boot memory map in order, and never takes any back.
pub mod Regions
pub mod Outcome
use hobby_os_kernel.Common.{
  ℕ, zero, suc, ◌+◌, ◌-◌, ◌*◌, ◌/◌, ◌%◌, ◌^◌, ◌≡◌, Bool, true, false, List, [], ◌∷◌, Option, none,
  some, if◌then◌else◌, ◌==◌, ltb, leb, length, get_elem?,
}
use hobby_os_kernel.Word.{u64}

-- `struct limine_memmap_entry`, as far as the code reads it.
pub record MemmapEntry : Type 0 where
  pub base : ℕ
  pub extent : ℕ
  pub type : ℕ

-- `LIMINE_MEMMAP_USABLE`, which `memmap_type_str` also names.
abbrev pub memmap_usable : ℕ
memmap_usable = 0

-- The static variables of the file.
pub record Pmm : Type 0 where
  pub memmap : List MemmapEntry
  pub current_region : ℕ
  pub next_free : ℕ

abbrev pub entry_count : Pmm → ℕ
entry_count s = length s.memmap

unfoldable pub region_is_usable : MemmapEntry → Bool
region_is_usable e = e.type == memmap_usable

abbrev pub usable_at : List MemmapEntry → ℕ → Bool
usable_at m i = elim (get_elem? m i) [ none ↦ false | some e ↦ region_is_usable e ]

-- The `for` loop, with so many entries left from index `i` on.
find_loop : ℕ → ℕ → List MemmapEntry → ℕ
find_loop zero i m = length m
find_loop (suc rounds) i m =
    let rest = find_loop rounds (i + 1) m in if usable_at m i then i else rest

pub find_next_usable_region : ℕ → List MemmapEntry → ℕ
find_next_usable_region start_index m = find_loop (length m - start_index) start_index m

abbrev pub base_at : List MemmapEntry → ℕ → ℕ
base_at m i = elim (get_elem? m i) [ none ↦ 0 | some e ↦ e.base ]

abbrev pub end_at : List MemmapEntry → ℕ → ℕ
end_at m i = elim (get_elem? m i) [ none ↦ 0 | some e ↦ u64 (e.base + e.extent) ]

pub pmm_init : List MemmapEntry → Pmm
pmm_init m =
    let first = find_next_usable_region 0 m in
    if first == length m
    then record { memmap = m; current_region = length m; next_free = 0 }
    else record { memmap = m; current_region = first; next_free = base_at m first }

-- `current_region = find_next_usable_region(current_region + 1)`, and the new `next_free`.
pub next_region : Pmm → Pmm
next_region s =
    let r = find_next_usable_region (s.current_region + 1) s.memmap in
    record s {
      current_region = r;
      next_free = if ltb r (entry_count s) then base_at s.memmap r else s.next_free;
    }

-- The `while` loop. The address 0 is `NULL`, and `none` says that the fuel ran out.
boot_alloc_loop : ℕ → ℕ → Pmm → Option (ℕ × Pmm)
boot_alloc_loop zero n s = none
boot_alloc_loop (suc fuel) n s =
    let rest = boot_alloc_loop fuel n (next_region s) in
    if ltb s.current_region (entry_count s)
    then (if leb (u64 (s.next_free + n)) (end_at s.memmap s.current_region)
        then some (s.next_free, record s { next_free = u64 (s.next_free + n) })
        else rest)
    else some (0, s)

-- Every round leaves a region behind, so `entry_count + 1` rounds are enough.
pub boot_alloc : ℕ → Pmm → Option (ℕ × Pmm)
boot_alloc n s = boot_alloc_loop (entry_count s + 1) n s

pub pmm_boot_alloc_region : Pmm → ℕ
pmm_boot_alloc_region s = s.current_region

pub pmm_boot_alloc_next_free : Pmm → ℕ
pmm_boot_alloc_next_free s = s.next_free
