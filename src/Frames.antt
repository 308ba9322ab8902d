-- ===== src/Frames.antt =====
-- page_alloc.c: the allocator of physical pages. A pointer `&pages[i]` is the index `i`. On its one
-- processor a spinlock is free whenever it is taken, since interrupts are off while it is held, so a
-- critical section is one step.
pub mod Addresses
pub mod FreeList
pub mod DoubleFree
pub mod Zeroed
pub mod Init
use hobby_os_kernel.Common.{
  ℕ, zero, suc, ◌+◌, ◌*◌, ◌/◌, ◌%◌, ◌^◌, bit_and, Bool, true, false, ◌||◌, not, List, [], ◌∷◌,
  Option, none, some, if◌then◌else◌, ◌==◌, ltb,
}
use hobby_os_kernel.Word.{u64, page_size}
use hobby_os_kernel.Memory.{Mem, fill}

pub record PageInfo : Type 0 where
  pub pp_link : Option ℕ
  pub pp_ref : ℕ

-- The static variables of the file, and the memory that the pages are.
pub record Ram : Type 0 where
  pub pages : ℕ → PageInfo
  pub npages : ℕ
  pub page_free_list : Option ℕ
  pub bytes : Mem

abbrev pub set_page : (ℕ → PageInfo) → ℕ → PageInfo → ℕ → PageInfo
set_page pages i v j = if j == i then v else pages j

-- `pages[i].pp_link = link`
abbrev pub set_link : (ℕ → PageInfo) → ℕ → Option ℕ → ℕ → PageInfo
set_link pages i link = set_page pages i (record { pp_link = link; pp_ref = (pages i).pp_ref })

abbrev pub alloc_zero : ℕ
alloc_zero = 1

abbrev pub is_some {ℓ} : {A : Type ℓ} → Option A → Bool
is_some none = false
is_some (some a) = true

pub page2pa : ℕ → ℕ
page2pa pp = u64 (pp * page_size)

pub pa2page : ℕ → ℕ
pa2page pa = pa / page_size

-- The part of `page_alloc` under the lock: the first page leaves the free list.
unfoldable pub take_page : ℕ → Ram → Ram
take_page pp s = record s {
  pages = set_link s.pages pp none;
  page_free_list = (s.pages pp).pp_link;
}

-- `va[i] = 0` for the bytes of the page.
pub zero_page : ℕ → Ram → Ram
zero_page pp s = record s { bytes = fill page_size 0 (page2pa pp) 0 s.bytes }

-- `page_alloc`, with the head of the free list read.
alloc_head : Option ℕ → ℕ → Ram → Option ℕ × Ram
alloc_head none flags s = (none, s)
alloc_head (some pp) flags s = (
  some pp,
  (if bit_and flags alloc_zero == 0 then take_page pp s else zero_page pp (take_page pp s)),
)

pub page_alloc : ℕ → Ram → Option ℕ × Ram
unfolding alloc_head
page_alloc flags s = alloc_head s.page_free_list flags s

-- The accepted part of `page_free`.
unfoldable pub put_page : ℕ → Ram → Ram
put_page pp s = record s { pages = set_link s.pages pp s.page_free_list; page_free_list = some pp }

-- A page that is in use, or that links to another, is refused.
pub page_free : ℕ → Ram → Ram
page_free pp s =
    if not ((s.pages pp).pp_ref == 0) || is_some (s.pages pp).pp_link then s else put_page pp s

-- The walk over the free list; `none` says that the fuel ran out.
count_loop : ℕ → (ℕ → PageInfo) → Option ℕ → ℕ → Option ℕ
count_loop zero pages p count = none
count_loop (suc fuel) pages none count = some count
count_loop (suc fuel) pages (some p) count = count_loop fuel pages (pages p).pp_link (count + 1)

pub count_free : ℕ → Ram → Option ℕ
count_free fuel s = count_loop fuel s.pages s.page_free_list 0
