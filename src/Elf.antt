-- ===== src/Elf.antt =====
-- elf.c: the loader of user programs. An image lies in the direct map, as everything that the kernel
-- reads: its bytes are bytes of memory, and each field is read where the code reads it.
pub mod Ends
pub mod Copied
pub mod Page
use hobby_os_kernel.Common.{
  ℕ, zero, suc, ◌+◌, ◌-◌, ◌*◌, ◌/◌, ◌%◌, ◌^◌, bit_or, Bool, true, false, not, Option, none, some,
  if◌then◌else◌, ◌==◌, ltb, ◌<<◌,
}
use hobby_os_kernel.Word.{u64, page_size, rounddown, roundup}
use hobby_os_kernel.Memory.{load_bytes, load64, memcpy}
use hobby_os_kernel.Frames.{Ram, page2pa, page_alloc}
use hobby_os_kernel.Paging.Entry.{present, pte_get_addr}
use hobby_os_kernel.Paging.Walk.{Result, load_entry, vmm_walk, vmm_map}

abbrev pub elf_magic : ℕ
elf_magic = 0x464C457F

-- `PT_LOAD`
abbrev pub pt_load : ℕ
pt_load = 1

-- The fields of `struct elf64_ehdr` at `base`.
abbrev pub e_magic : Ram → ℕ → ℕ
e_magic s base = load_bytes 4 base s.bytes

-- `e_ident[4]`
abbrev pub e_class : Ram → ℕ → ℕ
e_class s base = load_bytes 1 (base + 4) s.bytes

abbrev pub e_entry : Ram → ℕ → ℕ
e_entry s base = load64 s.bytes (base + 24)

abbrev pub e_phoff : Ram → ℕ → ℕ
e_phoff s base = load64 s.bytes (base + 32)

abbrev pub e_phnum : Ram → ℕ → ℕ
e_phnum s base = load_bytes 2 (base + 56) s.bytes % 2 ^ 16

-- The fields of `struct elf64_phdr` at `seg`.
abbrev pub p_type : Ram → ℕ → ℕ
p_type s seg = load_bytes 4 seg s.bytes

abbrev pub p_offset : Ram → ℕ → ℕ
p_offset s seg = load64 s.bytes (seg + 8)

abbrev pub p_vaddr : Ram → ℕ → ℕ
p_vaddr s seg = load64 s.bytes (seg + 16)

abbrev pub p_filesz : Ram → ℕ → ℕ
p_filesz s seg = load64 s.bytes (seg + 32)

abbrev pub p_memsz : Ram → ℕ → ℕ
p_memsz s seg = load64 s.bytes (seg + 40)

-- Present, writable and user-accessible.
abbrev pub segment_flags : ℕ
segment_flags = bit_or (bit_or (1 << 0) (1 << 1)) (1 << 2)

abbrev pub max : ℕ → ℕ → ℕ
max a b = if ltb b a then a else b

abbrev pub min : ℕ → ℕ → ℕ
min a b = if ltb a b then a else b

-- The frame that a present entry maps.
abbrev pub mapped_frame : Option ℕ → Ram → Option ℕ
mapped_frame none s = none
mapped_frame (some slot) s =
    if not (present (load_entry s slot)) then none else some (pte_get_addr (load_entry s slot))

new_frame : ℕ → ℕ → Result → Result
new_frame pml4 va (none, s) = (none, s)
new_frame pml4 va (some pp, s) = (some (page2pa pp), vmm_map pml4 va (page2pa pp) segment_flags s)

-- The frame at `va`: the one that is mapped there, or a new one.
abbrev frame_or_new : ℕ → ℕ → Option ℕ → Ram → Result
frame_or_new pml4 va none s = new_frame pml4 va (page_alloc 1 s)
frame_or_new pml4 va (some phys) s = (some phys, s)

pub frame_for : ℕ → ℕ → Ram → Result
unfolding new_frame
frame_for pml4 va s = frame_or_new pml4 va (mapped_frame (vmm_walk pml4 va false s).0 s) s

-- The part of the file's bytes `file_start` to `file_end` that lies in the page at `va`, copied to
-- the frame `phys`.
pub copy_part : (base seg file_start file_end va phys : ℕ) → Ram → Ram
copy_part base seg file_start file_end va phys s =
    let copy_lo = max file_start va in
    let copy_hi = min file_end (u64 (va + page_size)) in
    if ltb copy_lo copy_hi
    then record s {
      bytes =
          memcpy (phys + (copy_lo - va))
            (u64 (base + p_offset s seg + (copy_lo + 2 ^ 64 - p_vaddr s seg))) (copy_hi - copy_lo)
            s.bytes;
    }
    else s

-- `elf_load` goes on, or has returned 0. With the fuel spent it is unfinished.
pub data Load : Type 0 where
  going failed : Ram → Load
  unfinished : Load

abbrev pub and_go : Load → (Ram → Load) → Load
and_go (going s) k = k s
and_go (failed s) k = failed s
and_go unfinished k = unfinished

abbrev copy_into_frame : (base seg file_start file_end va : ℕ) → Result → Load
copy_into_frame base seg file_start file_end va (none, s) = failed s
copy_into_frame base seg file_start file_end va (some phys, s) =
    going (copy_part base seg file_start file_end va phys s)

-- One page of a segment.
pub load_page : (pml4 base seg file_start file_end va : ℕ) → Ram → Load
load_page pml4 base seg file_start file_end va s =
    copy_into_frame base seg file_start file_end va (frame_for pml4 va s)

-- `for (va = va; va < vend; va += PGSIZE)`
pub load_pages : (fuel pml4 base seg file_start file_end va vend : ℕ) → Ram → Load
load_pages zero pml4 base seg file_start file_end va vend s = unfinished
load_pages (suc fuel) pml4 base seg file_start file_end va vend s = elim (ltb va vend) [
  | true ↦
      and_go (load_page pml4 base seg file_start file_end va s)
        λ s. load_pages fuel pml4 base seg file_start file_end (u64 (va + page_size)) vend s
  | false ↦ going s
]

-- One round more than the segment has pages.
abbrev pages_fuel : ℕ → ℕ → ℕ
pages_fuel vstart vend = suc ((vend - vstart) / page_size)

pub load_segment : (pml4 base seg : ℕ) → Ram → Load
load_segment pml4 base seg s =
    let vstart = rounddown (p_vaddr s seg) page_size in
    let vend = roundup (u64 (p_vaddr s seg + p_memsz s seg)) page_size in
    if not (p_type s seg == pt_load)
    then going s
    else load_pages (pages_fuel vstart vend) pml4 base seg (p_vaddr s seg)
        (u64 (p_vaddr s seg + p_filesz s seg)) vstart vend s

-- `for (i = i; i < eh->e_phnum; i++)`; `ph` is computed before the loop.
pub load_segments : (fuel pml4 base ph i : ℕ) → Ram → Load
load_segments zero pml4 base ph i s = unfinished
load_segments (suc fuel) pml4 base ph i s = elim (ltb i (e_phnum s base)) [
  | true ↦
      and_go (load_segment pml4 base (u64 (ph + 56 * i)) s)
        λ s. load_segments fuel pml4 base ph ((i + 1) % 2 ^ 16) s
  | false ↦ going s
]

-- The returned truth value with the state, and the entry point if it was written.
pub data Loaded : Type 0 where
  accepted : (entry_out : ℕ) → Ram → Loaded
  refused : Ram → Loaded
  out_of_fuel : Loaded

abbrev with_entry : ℕ → Load → Loaded
with_entry base (going s) = accepted (e_entry s base) s
with_entry base (failed s) = refused s
with_entry base unfinished = out_of_fuel

-- `e_phnum` has 16 bits, so 2 ^ 16 rounds end the loop.
pub elf_load : (pml4 elf_image : ℕ) → Ram → Loaded
elf_load pml4 elf_image s =
    if not (e_magic s elf_image == elf_magic)
    then refused s
    else if not (e_class s elf_image == 2)
    then refused s
    else with_entry elf_image
        (load_segments (2 ^ 16) pml4 elf_image (u64 (elf_image + e_phoff s elf_image)) 0 s)
