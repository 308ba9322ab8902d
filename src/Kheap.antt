-- ===== src/Kheap.antt =====
-- kheap.c: the kernel's heap. The chain of block headers from `free_list` on is the list of its
-- blocks, in the order of the links; a block's fields are those of its header, and its address is the
-- header's. The heap's lock is held with interrupts off.
pub mod Owners
pub mod Alloc
use hobby_os_kernel.Common.{
  ℕ, zero, suc, ◌+◌, ◌-◌, ◌*◌, ◌/◌, ◌^◌, ◌%◌, bit_or, Bool, true, false, ◌&&◌, not, List, [], ◌∷◌,
  Option, none, some, if◌then◌else◌, ◌==◌, ltb, leb, ◌<<◌,
}
use hobby_os_kernel.Word.{u64, page_size, roundup}
use hobby_os_kernel.Frames.{Ram, page_alloc, page2pa}
use hobby_os_kernel.Paging.Walk.{get_current_pml4, vmm_map}

pub record Block : Type 0 where
  pub addr : ℕ
  pub size : ℕ
  pub free : Bool

pub record Heap : Type 0 where
  pub heap_next : ℕ
  pub heap_end : ℕ
  pub free_list : List Block
  pub ram : Ram

abbrev pub kheap_base : ℕ
kheap_base = 0xffff900000000000

abbrev pub kheap_size : ℕ
kheap_size = 512 * 1024 * 1024

-- `sizeof(struct block_header)`
abbrev pub header_size : ℕ
header_size = 24

abbrev pub align : ℕ
align = 16

-- The flags of the heap's pages: present and writable.
abbrev pub heap_flags : ℕ
heap_flags = bit_or (bit_or 0 (1 << 0)) (1 << 1)

map_page : ℕ → Option ℕ × Ram → Heap → Bool × Heap
map_page cr3 (none, s) h = (false, record h { ram = s })
map_page cr3 (some pp, s) h = (
  true,
  record h {
    heap_next = u64 (h.heap_next + page_size);
    ram = vmm_map (get_current_pml4 cr3) h.heap_next (page2pa pp) heap_flags s;
  },
)

abbrev and_extend : Bool × Heap → (Heap → Bool × Heap) → Bool × Heap
and_extend (false, h) k = (false, h)
and_extend (true, h) k = k h

-- The loop of `heap_extend`; a failure keeps the pages that it had mapped.
extend_loop : ℕ → ℕ → Heap → Bool × Heap
extend_loop zero cr3 h = (true, record h { heap_end = h.heap_next })
extend_loop (suc npages) cr3 h =
    if leb (kheap_base + kheap_size) h.heap_next
    then (false, h)
    else and_extend (map_page cr3 (page_alloc 1 h.ram) h) λ h'. extend_loop npages cr3 h'

pub heap_extend : ℕ → ℕ → Heap → Bool × Heap
heap_extend npages cr3 h = extend_loop npages cr3 h

pub kheap_init : Heap → Heap
kheap_init h = record h { heap_next = kheap_base; heap_end = kheap_base; free_list = [] }

-- The test of `find_free_block`.
abbrev pub is_fit : ℕ → Block → Bool
is_fit size b = b.free && leb size b.size

-- The block and what `split_block` puts behind it; the block is in use afterwards.
pub split_block : Block → ℕ → List Block
split_block b size =
    if leb (u64 (size + (header_size + align))) b.size
    then record { addr = b.addr; size = size; free = false }
      ∷ record {
        addr = b.addr + header_size + size;
        size = b.size - size - header_size;
        free = true;
      }
      ∷ []
    else record { addr = b.addr; size = b.size; free = false } ∷ []

abbrev pub append_blocks : List Block → List Block → List Block
append_blocks [] ys = ys
append_blocks (x ∷ xs) ys = x ∷ append_blocks xs ys

abbrev pub put_before : Block → Option (ℕ × List Block) → Option (ℕ × List Block)
put_before b none = none
put_before b (some (p, bs)) = some (p, b ∷ bs)

-- `find_free_block`, and the block it finds split: its address, and the list afterwards.
pub take_block : ℕ → List Block → Option (ℕ × List Block)
take_block size [] = none
take_block size (b ∷ bs) =
    let rest = take_block size bs in
    if is_fit size b
    then some (b.addr, append_blocks (split_block b size) bs)
    else put_before b rest

-- The new block at the old end of the heap, which becomes the first of the list.
grow : ℕ → ℕ → ℕ → Bool × Heap → Option ℕ × Heap
grow size npages new_block_addr (false, h) = (none, h)
grow size npages new_block_addr (true, h) = (
  some (new_block_addr + header_size),
  record h {
    free_list =
        append_blocks
          (split_block
            (record {
              addr = new_block_addr;
              size = u64 (npages * page_size) - header_size;
              free = false;
            })
            size)
          h.free_list;
  },
)

alloc_found : ℕ → ℕ → Option (ℕ × List Block) → Heap → Option ℕ × Heap
alloc_found size cr3 (some (addr, blocks)) h =
    (some (addr + header_size), record h { free_list = blocks })
alloc_found size cr3 none h =
    let npages = u64 (u64 (size + header_size) + page_size - 1) / page_size in
    grow size npages h.heap_next (heap_extend npages cr3 h)

pub kmalloc : ℕ → ℕ → Heap → Option ℕ × Heap
kmalloc size cr3 h =
    if size == 0
    then (none, h)
    else alloc_found (roundup size align) cr3 (take_block (roundup size align) h.free_list) h

-- `b->free = 1` for the block at an address.
pub set_free : ℕ → List Block → List Block
set_free a [] = []
set_free a (b ∷ bs) = (if b.addr == a then record b { free = true } else b) ∷ set_free a bs

abbrev pub block_end : Block → ℕ
block_end b = b.addr + header_size + b.size

abbrev pub joins : Block → Block → Bool
joins b c = b.free && (c.free && (block_end b == c.addr))

abbrev pub joined : Block → Block → Block
joined b c = record { addr = b.addr; size = b.size + (header_size + c.size); free = b.free }

-- The loop of `kfree` from the block `b` on: a free block takes in the free block behind it as long as
-- the two lie side by side.
pub coalesce_from : Block → List Block → List Block
coalesce_from b [] = b ∷ []
coalesce_from b (c ∷ bs) =
    let rest = coalesce_from (if joins b c then joined b c else c) bs in
    if joins b c then rest else b ∷ rest

pub coalesce : List Block → List Block
coalesce [] = []
coalesce (b ∷ bs) = coalesce_from b bs

pub kfree : Option ℕ → Heap → Heap
kfree none h = h
kfree (some ptr) h = record h { free_list = coalesce (set_free (ptr - header_size) h.free_list) }
