-- ===== src/Frames/Init.antt =====
-- page_alloc.c: the free list that `frame_alloc_init` makes of the memory map.
pub mod Usable
pub mod Regions
use hobby_os_kernel.Common.{
  ℕ, zero, suc, ◌+◌, ◌-◌, ◌*◌, ◌/◌, ◌^◌, Bool, true, false, ◌&&◌, not, List, [], ◌∷◌, Option, none,
  some, if◌then◌else◌, ◌==◌, ltb, leb,
}
use hobby_os_kernel.Word.{u64, page_size, roundup, rounddown}
use hobby_os_kernel.BootAlloc.{
  MemmapEntry, Pmm, region_is_usable, boot_alloc, pmm_boot_alloc_region, pmm_boot_alloc_next_free,
}
use hobby_os_kernel.Frames.{PageInfo, Ram, set_link}

-- The highest end of a usable entry, and `max_addr` if that is higher.
abbrev max_end : ℕ → MemmapEntry → ℕ
max_end max_addr e =
    if region_is_usable e
    then (if ltb max_addr (u64 (e.base + e.extent)) then u64 (e.base + e.extent) else max_addr)
    else max_addr

max_loop : ℕ → List MemmapEntry → ℕ
max_loop max_addr [] = max_addr
max_loop max_addr (e ∷ es) = max_loop (max_end max_addr e) es

-- `sizeof(struct PageInfo)`
abbrev pub page_info_size : ℕ
page_info_size = 16

-- The body of the innermost loop, for the page at an address.
push_page : ℕ → Ram → Ram
push_page idx s =
    if leb s.npages idx
    then s
    else record s { pages = set_link s.pages idx s.page_free_list; page_free_list = some idx }

-- `for (addr = addr; addr < end; addr += PGSIZE)`, with enough fuel for its rounds.
pub pages_loop : ℕ → ℕ → ℕ → Ram → Ram
pages_loop zero addr stop s = s
pages_loop (suc fuel) addr stop s =
    let rest = pages_loop fuel (u64 (addr + page_size)) stop (push_page (addr / page_size) s) in
    if ltb addr stop then rest else s

-- The region that the boot allocator stopped in is used from its frontier on.
region_start : ℕ → MemmapEntry → ℕ → ℕ → ℕ
region_start i e region frontier =
    if (i == region) && ltb (roundup e.base page_size) frontier
    then roundup frontier page_size
    else roundup e.base page_size

add_region : ℕ → MemmapEntry → ℕ → ℕ → Ram → Ram
add_region i e region frontier s =
    let stop = rounddown (u64 (e.base + e.extent)) page_size in
    if not (region_is_usable e)
    then s
    else (if ltb i region
        then s
        else pages_loop (stop / page_size + 1) (region_start i e region frontier) stop s)

pub add_regions : ℕ → List MemmapEntry → ℕ → ℕ → Ram → Ram
add_regions i [] region frontier s = s
add_regions i (e ∷ es) region frontier s =
    add_regions (i + 1) es region frontier (add_region i e region frontier s)

-- `pages[i].pp_link = NULL; pages[i].pp_ref = 0` for every page, and an empty free list.
abbrev pub fresh : ℕ → Ram → Ram
fresh npages s = record s {
  pages = λ i. if ltb i npages then record { pp_link = none; pp_ref = 0 } else s.pages i;
  npages = npages;
  page_free_list = none;
}

fill_list : ℕ → Option (ℕ × Pmm) → Pmm → Ram → Pmm × Ram
fill_list npages none p s = (p, s)
fill_list npages (some (pages_phys, p')) p s =
    if (pages_phys == 0) && not (npages == 0) then (p', record s { npages = npages }) else (
      p',
      add_regions 0 p'.memmap (pmm_boot_alloc_region p') (pmm_boot_alloc_next_free p')
          (fresh npages s),
    )

pub frame_alloc_init : Pmm → Ram → Pmm × Ram
frame_alloc_init p s =
    let npages = max_loop 0 p.memmap / page_size in
    fill_list npages (boot_alloc (u64 (npages * page_info_size)) p) p s
