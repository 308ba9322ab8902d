-- ===== src/Paging/Tree/Fresh.antt =====
-- A free page is cleared, and mapped: what a new page of a program is.
use hobby_os_kernel.Common.{
  ℕ, ◌+◌, ◌*◌, ◌/◌, ◌%◌, ◌^◌, ◌<◌, ◌≤◌, ◌≡◌, ◌≢◌, ap, ◌∙◌, inl, inr, true, false, if◌then◌else◌,
  List, ◌∷◌, some, arith, has, length,
}
use hobby_os_kernel.Memory.{Mem}
use hobby_os_kernel.Frames.{Ram, page_alloc}
use hobby_os_kernel.Frames.FreeList.{page_alloc-Allocates}
use hobby_os_kernel.Paging.Entry.{present}
use hobby_os_kernel.Paging.Walk.{vmm_map}
use hobby_os_kernel.Paging.Walk.Lookup.{translate}
use hobby_os_kernel.Paging.Walk.Create.{HasFree, address, alloc_bytes}
use hobby_os_kernel.Paging.Tree.{IsTree, Off}
use hobby_os_kernel.Paging.Tree.Pages.{same_page}
use hobby_os_kernel.Paging.Tree.Aside.{SameTables, aside-IsTree, aside-translate, aside-Off}
use hobby_os_kernel.Paging.Tree.Map.{Shows, vmm_map-Shows}

-- Fewer pages are asked to be off the tables.
fewer_free : {m : Mem} {root x : ℕ} {free : List ℕ} → IsTree m root (x ∷ free) → IsTree m root free
fewer_free tree = record {
  tables =
      λ is u len h e. let (table, off) = tree.tables is u len h e in (table, ground (arith, off));
  one_way = tree.one_way;
}

fewer-Off : {m : Mem} {root x q : ℕ} {free : List ℕ} → Off m root (x ∷ free) q → Off m root free q
fewer-Off off = record { not_free = ground (arith, off.not_free); not_table = off.not_table }

-- The page at `a` is the frame of page `x`, which was free and is clear; everything else is as before.
pub record MapsFresh (root a x : ℕ) (s : Ram) (free : List ℕ) (s' : Ram) (free' : List ℕ)
    : Type 0 where
  pub has_free : HasFree s' free'
  pub tree : IsTree s'.bytes root free'
  pub seen :
      (b : ℕ)
      → translate s'.bytes root b
        ≡ (if same_page a b then some (address x + b % 4096) else translate s.bytes root b)
  pub clear : (q : ℕ) → q / 4096 ≡ x → (s'.bytes q ≡ 0) × Off s'.bytes root free' q
  pub untouched :
      (q : ℕ) → Off s.bytes root (x ∷ free) q → (s'.bytes q ≡ s.bytes q) × Off s'.bytes root free' q

module _ {s : Ram} {root x : ℕ} {free : List ℕ} (f : HasFree s (x ∷ free))
    (tree : IsTree s.bytes root (x ∷ free)) where
  abbrev pub allocated : Ram
  allocated = (page_alloc 1 s).1

  other_page : (q : ℕ) → q / 4096 ≢ x → allocated.bytes q ≡ s.bytes q
  other_page q ne = ground (arith, alloc_bytes f q)

  allocated-HasFree : HasFree allocated free
  allocated-HasFree = record {
    frees = (page_alloc-Allocates 1 s (x ∷ free) f.frees).1;
    small = f.small.1;
  }

  allocated-SameTables : SameTables s.bytes allocated.bytes root
  allocated-SameTables is u q len h e at =
      other_page q λ same. ground (arith, (tree.tables is u len h e).1, at, same)

  allocated-Off : (q : ℕ) → q / 4096 ≡ x → Off allocated.bytes root free q
  allocated-Off q e = record {
    not_free = ap (λ y. has y free) e ∙ f.frees.once.0;
    not_table = λ is u len h r at.
        let used = ((aside-IsTree tree allocated-SameTables).tables is u len h r).1 in
        clash u (ap (λ y. y / 4096) at) used;
  }
    where
      clash : (u : ℕ) → q / 4096 * 4096 / 4096 ≡ u / 4096 → has (u / 4096) (x ∷ free) ≡ false → ⊥
      clash u at used = ground (arith, e, at, used)

  allocated-Shows :
      (a flags : ℕ)
      → flags < 2 ^ 12
      → present flags ≡ true
      → 3 ≤ length free
      → (free' : List ℕ) × Shows root allocated free
          (λ b.
            if same_page a b then some (address x + b % 4096) else translate allocated.bytes root b)
          (vmm_map root a (address x) flags allocated)
          free'
  allocated-Shows a flags low on enough =
      let (free', r) =
        vmm_map-Shows {phys = address x}
          (record { aligned = omega arith; small = omega (arith, f.small.0) }) low on allocated root
          a free allocated-HasFree (fewer_free (aside-IsTree tree allocated-SameTables)) in
      elim r [ inl short ↦ absurd (omega (arith, short.0, enough)) | inr shows ↦ (free', shows) ]

  cleared : (q : ℕ) → q / 4096 ≡ x → allocated.bytes q ≡ 0
  cleared q e = ground (arith, alloc_bytes f q, e)

  -- The page is cleared and mapped, if three pages are left for tables.
  pub allocated-MapsFresh :
      (a flags : ℕ)
      → flags < 2 ^ 12
      → present flags ≡ true
      → 3 ≤ length free
      → (free' : List ℕ) × MapsFresh root a x s free
          (vmm_map root a (address x) flags allocated)
          free'
  allocated-MapsFresh a flags low on enough =
      let (free', shows) = allocated-Shows a flags low on enough in
      (
        free',
        record {
          has_free = shows.has_free;
          tree = shows.tree;
          seen = λ b.
              shows.seen b
              ∙ ap (λ o. if same_page a b then some (address x + b % 4096) else o)
                  (aside-translate tree allocated-SameTables b);
          clear = λ q e.
              let (same, off) = shows.untouched q (allocated-Off q e) in (same ∙ cleared q e, off);
          untouched = λ q off.
              let (same, off') =
                shows.untouched q (fewer-Off (aside-Off tree allocated-SameTables off)) in
              (same ∙ other_page q (λ e. ground (arith, off.not_free, e)), off');
        },
      )
