-- ===== src/Uaccess.antt =====
-- uaccess.c: the check of a range of user addresses that every system call makes before it touches it.
pub mod Range
pub mod Check
use hobby_os_kernel.Common.{
  ℕ, zero, suc, ◌+◌, ◌-◌, ◌*◌, ◌/◌, ◌%◌, ◌^◌, Bool, true, false, not, ◌&&◌, ◌||◌, Option, none,
  some, if◌then◌else◌, ◌==◌, ltb, leb,
}
use hobby_os_kernel.Word.{u64, page_size, rounddown}
use hobby_os_kernel.Frames.{Ram}
use hobby_os_kernel.Paging.Entry.{present, writable, user_accessible, is_canonical, pml4_index}
use hobby_os_kernel.Paging.Walk.{Result, load_entry, kernel_pml4_start, vmm_walk}

-- Checks 2 and 3 on the entry that the walk found.
pub entry_ok : Bool → Result → Bool
entry_ok need_write (none, s) = false
entry_ok need_write (some pte, s) =
    if not (present (load_entry s pte))
    then false
    else (if not (user_accessible (load_entry s pte))
        then false
        else (if need_write && not (writable (load_entry s pte)) then false else true))

-- The loop over the pages from `va` on, below `stop`. With the fuel spent it answers false.
pub check_pages : ℕ → ℕ → ℕ → ℕ → Bool → Ram → Bool
check_pages zero pml4 va stop need_write s = false
check_pages (suc fuel) pml4 va stop need_write s =
    let rest = check_pages fuel pml4 (u64 (va + page_size)) stop need_write s in
    if ltb va stop
    then (if entry_ok need_write (vmm_walk pml4 va false s) then rest else false)
    else true

-- The range has `len / page_size + 2` pages at most, and one more round ends the loop.
check_mapped : ℕ → ℕ → ℕ → ℕ → Bool → Ram → Bool
check_mapped pml4 uva len last_byte need_write s =
    check_pages (len / page_size + 3) pml4 (rounddown uva page_size)
      (u64 (rounddown last_byte page_size + page_size)) need_write s

pub uva_check_range : ℕ → ℕ → ℕ → Bool → Ram → Bool
uva_check_range pml4 uva len need_write s =
    let stop = u64 (uva + len) in
    let last_byte = stop - 1 in
    if len == 0
    then true
    else (if ltb stop uva
        then false
        else (if not (is_canonical uva) || not (is_canonical last_byte)
            then false
            else (if leb kernel_pml4_start (pml4_index uva)
                  || leb kernel_pml4_start (pml4_index last_byte)
                then false
                else check_mapped pml4 uva len last_byte need_write s)))
