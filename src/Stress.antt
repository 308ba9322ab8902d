-- ===== src/Stress.antt =====
-- stress_test.c: the test of the page allocator and of the mappings that the kernel runs at boot.
-- The lines that it prints are left out. `pages_at` is the address of the array `pages`.
pub mod RoundTrip
use hobby_os_kernel.Common.{
  ℕ, zero, suc, ◌+◌, ◌-◌, ◌*◌, ◌/◌, ◌%◌, ◌^◌, bit_or, bit_xor, Bool, true, false, not, ◌||◌, Option,
  none, some, if◌then◌else◌, ◌==◌, ltb, ◌<<◌,
}
use hobby_os_kernel.Word.{u64, page_size}
use hobby_os_kernel.Memory.{load64, store64, load_bytes, store_bytes}
use hobby_os_kernel.Frames.{
  PageInfo, Ram, set_page, page2pa, pa2page, page_alloc, page_free, count_free,
}
use hobby_os_kernel.Frames.Init.{page_info_size}
use hobby_os_kernel.Paging.Entry.{present, pte_get_addr}
use hobby_os_kernel.Paging.Walk.{load_entry, vmm_walk, vmm_map, vmm_unmap, get_current_pml4}
use hobby_os_kernel.Paging.Walk.Lookup.{translate}

-- How a part of the test ends. It is `panicked` in `stress_panic`, `faulted` at an access to an
-- address that is not mapped, and `unfinished` with the fuel spent.
pub data Ending (A : Type 0) : Type 0 where
  going : A → Ending A
  panicked faulted unfinished : Ending A

abbrev pub and_then : {A B : Type 0} → Ending A → (A → Ending B) → Ending B
and_then (going a) k = k a
and_then panicked k = panicked
and_then faulted k = faulted
and_then unfinished k = unfinished

abbrev pub in_fuel : {A : Type 0} → Option A → Ending A
in_fuel none = unfinished
in_fuel (some a) = going a

-- A `struct PageInfo *` as it lies in memory.
abbrev pub page_pointer : ℕ → Option ℕ → ℕ
page_pointer pages_at none = 0
page_pointer pages_at (some pp) = u64 (pages_at + page_info_size * pp)

abbrev pub pointed_page : ℕ → ℕ → Option ℕ
pointed_page pages_at p = if p == 0 then none else some ((p - pages_at) / page_info_size)

-- `*link_slot = head`
abbrev pub store_link : ℕ → ℕ → Option ℕ → Ram → Ram
store_link pages_at pp head s = record s {
  bytes = store64 s.bytes (page2pa pp) (page_pointer pages_at head);
}

-- `head->pp_ref = 0`
abbrev pub drop_refs : ℕ → Ram → Ram
drop_refs pp s = record s {
  pages = set_page s.pages pp (record { pp_link = (s.pages pp).pp_link; pp_ref = 0 });
}

-- The returned head of the list that the pages themselves hold.
pub stress_alloc_all : (fuel pages_at : ℕ) → Option ℕ → Ram → Option (Option ℕ × Ram)
stress_alloc_all zero pages_at head s = none
stress_alloc_all (suc fuel) pages_at head s =
    let (r, s) = page_alloc 0 s in
    elim r [
      | none ↦ some (head, s)
      | some pp ↦ stress_alloc_all fuel pages_at (some pp) (store_link pages_at pp head s)
    ]

pub stress_free_all : (fuel pages_at : ℕ) → Option ℕ → Ram → Option Ram
stress_free_all zero pages_at head s = none
stress_free_all (suc fuel) pages_at none s = some s
stress_free_all (suc fuel) pages_at (some pp) s =
    let next = pointed_page pages_at (load64 s.bytes (page2pa pp)) in
    stress_free_all fuel pages_at next (page_free pp (drop_refs pp s))

-- The first test of `phase1_stress_test`: the number of free pages at its start, and the memory.
pub alloc_and_free : (fuel pages_at : ℕ) → Ram → Ending (ℕ × Ram)
alloc_and_free fuel pages_at s = and_then (in_fuel (count_free fuel s)) λ free_start.
    and_then (in_fuel (stress_alloc_all fuel pages_at none s)) λ (all, s).
      and_then (in_fuel (count_free fuel s)) λ free_at_oom.
        if not (free_at_oom == 0)
        then panicked
        else and_then (in_fuel (stress_free_all fuel pages_at all s)) λ s.
          and_then (in_fuel (count_free fuel s))
            λ after. if not (after == free_start) then panicked else going (free_start, s)

-- `STRESS_TEST_PAGES`
abbrev pub stress_test_pages : ℕ
stress_test_pages = 64

-- `STRESS_TEST_VBASE`
abbrev pub stress_test_vbase : ℕ
stress_test_vbase = 0x0000700000000000

-- The static variables of the second test, and the memory.
pub record Scratch : Type 0 where
  pub ram : Ram
  pub g_stress_mapped : ℕ → Bool
  pub g_rng_state : ℕ

pub stress_rand : ℕ → ℕ
stress_rand g_rng_state =
    let x = bit_xor g_rng_state ((g_rng_state << 13) % 2 ^ 32) in
    let x = bit_xor x (x / 2 ^ 17) in bit_xor x ((x << 5) % 2 ^ 32)

abbrev pub scratch_address : ℕ → ℕ
scratch_address idx = u64 (stress_test_vbase + idx * 4096)

abbrev pub pattern : ℕ → ℕ
pattern idx = bit_or 0xA5A50000 idx

abbrev pub set_mapped : ℕ → Bool → (ℕ → Bool) → ℕ → Bool
set_mapped idx b mapped i = if i == idx then b else mapped i

abbrev pub entry_present : Ram → Option ℕ → Bool
entry_present s none = false
entry_present s (some slot) = present (load_entry s slot)

abbrev pub entry_phys : Ram → Option ℕ → ℕ
entry_phys s none = 0
entry_phys s (some slot) = pte_get_addr (load_entry s slot)

pub stress_unmap_idx : (pml4 idx : ℕ) → Scratch → Ending Scratch
stress_unmap_idx pml4 idx c =
    let vaddr = scratch_address idx in
    let (pte, s) = vmm_walk pml4 vaddr false c.ram in
    let pp = pa2page (entry_phys s pte) in
    if not (entry_present s pte)
    then panicked
    else going (record c {
      ram = page_free pp (drop_refs pp (vmm_unmap pml4 vaddr s));
      g_stress_mapped = set_mapped idx false c.g_stress_mapped;
    })

-- `*(volatile uint32_t *)vaddr = pattern` and the read of it, in the active address space `pml4`.
abbrev pub write_pattern : ℕ → Option ℕ → Scratch → Ending Scratch
write_pattern idx none c = faulted
write_pattern idx (some phys) c = going (record c {
  ram = record (c.ram) { bytes = store_bytes 4 phys (pattern idx) c.ram.bytes };
  g_stress_mapped = set_mapped idx true c.g_stress_mapped;
})

map_scratch : (pml4 idx : ℕ) → Scratch → Option ℕ × Ram → Ending Scratch
map_scratch pml4 idx c (none, s) = going (record c { ram = s })
map_scratch pml4 idx c (some pp, s) =
    let s = vmm_map pml4 (scratch_address idx) (page2pa pp) 0x3 s in
    write_pattern idx (translate s.bytes pml4 (scratch_address idx)) (record c { ram = s })

check_page : (pml4 idx : ℕ) → Option ℕ → Scratch → Ending Scratch
check_page pml4 idx none c = faulted
check_page pml4 idx (some phys) c =
    if not (load_bytes 4 phys c.ram.bytes == pattern idx)
    then panicked
    else stress_unmap_idx pml4 idx c

-- One round with the drawn number.
pub stress_round : (pml4 idx : ℕ) → Scratch → Ending Scratch
stress_round pml4 idx c =
    if not (c.g_stress_mapped idx)
    then map_scratch pml4 idx c (page_alloc 1 c.ram)
    else check_page pml4 idx (translate c.ram.bytes pml4 (scratch_address idx)) c

pub stress_rounds : (rounds pml4 : ℕ) → Scratch → Ending Scratch
stress_rounds zero pml4 c = going c
stress_rounds (suc rounds) pml4 c =
    let drawn = stress_rand c.g_rng_state in
    and_then (stress_round pml4 (drawn % stress_test_pages) (record c { g_rng_state = drawn }))
      λ c. stress_rounds rounds pml4 c

-- `for (i = i; i < i + rounds; i++)`: the pages that are still mapped at the end.
pub clean_up : (rounds i pml4 : ℕ) → Scratch → Ending Scratch
clean_up zero i pml4 c = going c
clean_up (suc rounds) i pml4 c =
    and_then (if c.g_stress_mapped i then stress_unmap_idx pml4 i c else going c)
      λ c. clean_up rounds (i + 1) pml4 c

pub stress_random_map_unmap : (pml4 iterations : ℕ) → Scratch → Ending Scratch
stress_random_map_unmap pml4 iterations c =
    and_then
      (stress_rounds iterations pml4 (record c {
        g_stress_mapped = λ i. if ltb i stress_test_pages then false else c.g_stress_mapped i;
      }))
      λ c. clean_up stress_test_pages 0 pml4 c

-- The second test, with the number of pages that were free at the start.
map_and_unmap : (fuel cr3 free_start : ℕ) → Scratch → Ending Scratch
map_and_unmap fuel cr3 free_start c =
    and_then (stress_random_map_unmap (get_current_pml4 cr3) 5000 c) λ c.
      and_then (in_fuel (count_free fuel c.ram))
        λ after. if ltb free_start after || ltb 8 (free_start - after) then panicked else going c

pub phase1_stress_test : (fuel pages_at cr3 : ℕ) → Scratch → Ending Scratch
unfolding map_and_unmap
phase1_stress_test fuel pages_at cr3 c =
    and_then (alloc_and_free fuel pages_at c.ram)
      λ (free_start, s). map_and_unmap fuel cr3 free_start (record c { ram = s })
