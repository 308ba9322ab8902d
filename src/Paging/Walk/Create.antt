-- ===== src/Paging/Walk/Create.antt =====
-- A level of the walk that makes the missing table.
use hobby_os_kernel.Common.{
  ℕ, ◌*◌, ◌/◌, ◌^◌, ◌<◌, ◌≡◌, refl, sym, ap, ◌∙◌, ◌≢◌, true, false, List, [], ◌∷◌, none, some,
  arith, if◌then◌else◌, has, All,
}
use hobby_os_kernel.Memory.{Mem, load64, store64}
use hobby_os_kernel.Memory.Words.{load64-store64_self, load64-cong, load64-clear}
use hobby_os_kernel.Memory.Copy.{within}
use hobby_os_kernel.Frames.{Ram, page_alloc}
use hobby_os_kernel.Frames.FreeList.{Frees, page_alloc-none, page_alloc-Allocates}
use hobby_os_kernel.Frames.Addresses.{page2pa-small}
use hobby_os_kernel.Frames.Zeroed.{page_alloc-bytes}
use hobby_os_kernel.Paging.Entry.{present, pte_make}
use hobby_os_kernel.Paging.RoundTrip.{pte_make-sum, pte_make_round_trip, pte_make-flags}
use hobby_os_kernel.Paging.Walk.{entry_at, store_entry, table_flags, attach, level}
use hobby_os_kernel.Paging.Walk.Lookup.{follow}
use hobby_os_kernel.Paging.Walk.Path.{IsTable, load_other_table}

-- The free pages are `free`, and an entry can hold the address of each.
pub record HasFree (s : Ram) (free : List ℕ) : Type 0 where
  pub frees : Frees s free
  pub small : All (λ x. x < 2 ^ 40) free

abbrev pub address : ℕ → ℕ
address x = x * 4096

pub address-IsTable : (x : ℕ) → x < 2 ^ 40 → IsTable (address x)
address-IsTable x h = omega arith

-- An entry that was made for a page leads to the page.
pub follow-made :
    (m : Mem) (slot x flags : ℕ)
    → x < 2 ^ 40
    → flags < 2 ^ 12
    → present flags ≡ true
    → follow (store64 m slot (pte_make (address x) flags)) slot ≡ some (address x)
follow-made m slot x flags h k p =
    rw
      (
        load64-store64_self m slot (pte_make (address x) flags)
            (omega (arith, pte_make-sum {phys = address x} flags (omega arith) k)),
        (pte_make-flags {phys = address x} flags (omega arith) k).0,
        p,
        (pte_make_round_trip {phys = address x} flags (omega arith) k).0,
      )
      refl

pub present-table_flags : present table_flags ≡ true
unfolding present
present-table_flags = refl

follow-clear : (m : Mem) (slot : ℕ) → load64 m slot ≡ 0 → follow m slot ≡ none
unfolding present
follow-clear m slot e = rw e

level-missing :
    (slot : ℕ) (s : Ram)
    → follow s.bytes slot ≡ none
    → level slot true s ≡ attach slot (page_alloc 1 s)
unfolding level
level-missing slot s e = ground arith

-- With no free page the level fails.
pub level-full :
    (slot : ℕ) (s : Ram) → follow s.bytes slot ≡ none → Frees s [] → level slot true s ≡ (none, s)
unfolding attach
level-full slot s e f = rw (level-missing slot s e, page_alloc-none 1 s f.chain)

attach-some :
    (slot x : ℕ) (s : Ram)
    → x < 2 ^ 40
    → attach slot (some x, s)
      ≡ (some (address x), store_entry slot (pte_make (address x) table_flags) s)
unfolding attach
attach-some slot x s h =
    rw
      (
        page2pa-small x (omega arith),
        load64-store64_self s.bytes slot (pte_make (address x) table_flags) (
            omega (arith, pte_make-sum {phys = address x} table_flags (omega arith) (omega arith))),
        (pte_make_round_trip {phys = address x} table_flags (omega arith) (omega arith)).0,
      )
      refl

-- What one level leaves behind that made the table of page `x`: the entry at `slot` leads to the
-- table, which is clear, and the entries of other tables in use are as before.
pub record Made (s : Ram) (x : ℕ) (free : List ℕ) (t i : ℕ) (s' : Ram) : Type 0 where
  pub has_free : HasFree s' free
  pub small : x < 2 ^ 40
  pub fresh : has x free ≡ false
  pub linked : follow s'.bytes (entry_at t i) ≡ some (address x)
  pub clear : (j : ℕ) → j < 512 → follow s'.bytes (entry_at (address x) j) ≡ none
  pub others :
      (u j : ℕ)
      → IsTable u
      → u ≢ t
      → u ≢ address x
      → j < 512
      → load64 s'.bytes (entry_at u j) ≡ load64 s.bytes (entry_at u j)

module _ {s : Ram} {x : ℕ} {free : List ℕ} (f : HasFree s (x ∷ free)) where
  pub alloc_bytes :
      (q : ℕ) → (page_alloc 1 s).1.bytes q ≡ (if within (address x) 4096 q then 0 else s.bytes q)
  alloc_bytes q =
      rw (page_alloc-bytes 1 s x free q f.frees, page2pa-small x (omega (arith, f.small.0))) refl

  alloc_clear : (j : ℕ) → j < 512 → load64 (page_alloc 1 s).1.bytes (entry_at (address x) j) ≡ 0
  alloc_clear j h =
      load64-clear (entry_at (address x) j) (page_alloc 1 s).1.bytes
        λ q k l. ground (arith, alloc_bytes q)

  pub alloc_others :
      (u j : ℕ)
      → IsTable u
      → u ≢ address x
      → j < 512
      → load64 (page_alloc 1 s).1.bytes (entry_at u j) ≡ load64 s.bytes (entry_at u j)
  alloc_others u j a ne h =
      load64-cong (entry_at u j) s.bytes (page_alloc 1 s).1.bytes
        λ q k l. ground (arith, alloc_bytes q, a.aligned)

  -- The memory after the new table was cleared and linked.
  abbrev pub linked : ℕ → Ram
  linked slot = store_entry slot (pte_make (address x) table_flags) (page_alloc 1 s).1

  linked-HasFree : (slot : ℕ) → HasFree (linked slot) free
  linked-HasFree slot = record {
    frees = record { chain = g.chain; once = g.once; unused = g.unused; real = g.real };
    small = f.small.1;
  }
    where
      g : Frees (page_alloc 1 s).1 free
      g = (page_alloc-Allocates 1 s (x ∷ free) f.frees).1

  module _ {t i : ℕ} (table : IsTable t) (used : has (t / 4096) (x ∷ free) ≡ false)
      (hi : i < 512) where
    table-ne : t ≢ address x
    table-ne e = ground arith

    pub linked-Made : Made s x free t i (linked (entry_at t i))
    linked-Made = record {
      has_free = linked-HasFree (entry_at t i);
      small = f.small.0;
      fresh = f.frees.once.0;
      linked =
          follow-made (page_alloc 1 s).1.bytes (entry_at t i) x table_flags f.small.0 (omega arith)
            present-table_flags;
      clear = λ j hj. follow-clear _ (entry_at (address x) j) (
          load_other_table (page_alloc 1 s).1.bytes (pte_make (address x) table_flags) table
            (address-IsTable x f.small.0) (λ e. table-ne (sym e)) hi hj
          ∙ alloc_clear j hj);
      others = λ u j a ne ne' hj.
          load_other_table (page_alloc 1 s).1.bytes (pte_make (address x) table_flags) table a ne hi
            hj
          ∙ alloc_others u j a ne' hj;
    }

    pub level-makes :
        follow s.bytes (entry_at t i) ≡ none
        → level (entry_at t i) true s ≡ (some (address x), linked (entry_at t i))
    level-makes missing =
        rw
          (
            level-missing (entry_at t i) s missing,
            returned,
            attach-some (entry_at t i) x (page_alloc 1 s).1 f.small.0,
          )
          refl
      where
        returned : page_alloc 1 s ≡ (some x, (page_alloc 1 s).1)
        returned = ap (λ r. (r, (page_alloc 1 s).1)) (page_alloc-Allocates 1 s (x ∷ free) f.frees).0
