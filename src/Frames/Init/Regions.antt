-- ===== src/Frames/Init/Regions.antt =====
-- The regions of the memory map, one behind the other.
use hobby_os_kernel.Common.{
  ℕ, suc, ◌+◌, ◌*◌, ◌/◌, ◌%◌, ◌^◌, ◌≤◌, ◌<◌, ◌≡◌, refl, subst, ◌∙◌, true, List, [], ◌∷◌, some, ltb,
  arith, has, Bool-cases, inl, inr, get_elem?,
}
use hobby_os_kernel.Word.{u64, rounddown, roundup_page, rounddown_page}
use hobby_os_kernel.BootAlloc.{MemmapEntry, region_is_usable}
use hobby_os_kernel.Frames.{Ram}
use hobby_os_kernel.Frames.FreeList.{Frees}
use hobby_os_kernel.Frames.Init.{region_start, add_region, add_regions, fresh}
use hobby_os_kernel.Frames.Init.Usable.{Filled, FilledTo, pages_loop-Filled, Filled-wider}

-- The entries follow each other from `limit` on, below 2 ^ 63.
abbrev pub Rising : ℕ → List MemmapEntry → Type 0
Rising limit [] = Unit {0}
Rising limit (e ∷ es) =
    (limit ≤ e.base) × (e.base + e.extent < 2 ^ 63) × Rising (e.base + e.extent) es

-- The page lies in a usable region that the boot allocator has not left, and behind its frontier.
abbrev pub InRegion : ℕ → MemmapEntry → ℕ → ℕ → ℕ → Type 0
InRegion i e region frontier idx =
    (region_is_usable e ≡ true)
    × (region ≤ i)
    × (e.base ≤ idx * 4096)
    × (idx * 4096 + 4096 ≤ e.base + e.extent)
    × (i ≡ region → frontier ≤ idx * 4096)

module _ (P : ℕ → Type 0) (region frontier : ℕ) (fits : frontier < 2 ^ 63) where
  start_lem :
      (i : ℕ) (e : MemmapEntry)
      → e.base < 2 ^ 63
      → (region_start i e region frontier % 4096 ≡ 0)
        × (e.base ≤ region_start i e region frontier)
        × (i ≡ region → frontier ≤ region_start i e region frontier)
  unfolding region_start
  start_lem i e small =
      rw (roundup_page e.base (omega arith), roundup_page frontier (omega arith))
        (ground arith, ground arith, λ same. ground arith)

  add_region-Filled :
      (i n : ℕ) (e : MemmapEntry) (s : Ram) (limit : ℕ)
      → FilledTo P n s limit
      → limit ≤ e.base
      → e.base + e.extent < 2 ^ 63
      → ((idx : ℕ) → InRegion i e region frontier idx → P idx)
      → FilledTo P n (add_region i e region frontier s) (e.base + e.extent)
  unfolding add_region
  add_region-Filled i n e s limit f low small all = elim (Bool-cases (region_is_usable e)) [
    | inr reserved ↦ rw reserved (Filled-wider P n s limit (e.base + e.extent) (omega arith) f)
    | inl usable ↦ elim (Bool-cases (ltb i region)) [
      | inl passed ↦
          rw (usable, passed) (Filled-wider P n s limit (e.base + e.extent) (omega arith) f)
      | inr open_ ↦
          let (al, from, behind) = start_lem i e (omega arith) in
          rw (usable, open_, stop_lem)
            (pages_loop-Filled P ((e.base + e.extent) / 4096 * 4096 / 4096 + 1)
              (region_start i e region frontier) ((e.base + e.extent) / 4096 * 4096) n s limit al
              (omega arith) (omega arith)
              (λ idx a b. all idx (
                usable,
                ground arith,
                omega (arith, from),
                omega arith,
                λ same. omega (arith, behind same),
              ))
              f (omega (arith, from)) (e.base + e.extent) (omega arith) (omega arith))
    ]
  ]
    where
      stop_lem : rounddown (u64 (e.base + e.extent)) 4096 ≡ (e.base + e.extent) / 4096 * 4096
      stop_lem = rounddown_page (u64 (e.base + e.extent)) (omega arith) ∙ omega arith

  add_regions-Filled :
      (i n : ℕ) (es : List MemmapEntry) (s : Ram) (limit : ℕ)
      → FilledTo P n s limit
      → Rising limit es
      → ((j : ℕ) (e : MemmapEntry)
          → get_elem? es j ≡ some e
          → (idx : ℕ) → InRegion (i + j) e region frontier idx
          → P idx)
      → (xs : List ℕ) × Frees (add_regions i es region frontier s) xs
        × ((x : ℕ) → has x xs ≡ true → P x)
  unfolding add_regions
  add_regions-Filled i n [] s limit (xs, f, e) r all = (xs, f.frees, f.holds)
  add_regions-Filled i n (e ∷ es) s limit f r all =
      add_regions-Filled (i + 1) n es (add_region i e region frontier s) (e.base + e.extent)
        (add_region-Filled i n e s limit f r.0 r.1 (λ idx u.
          all 0 e refl idx (subst (λ k. InRegion k e region frontier idx) (omega arith) u)))
        r.2
        λ j e' at idx u.
          all (suc j) e' at idx (subst (λ k. InRegion k e' region frontier idx) (omega arith) u)

-- The page lies wholly in one of the usable regions of the map, not before the frontier of the boot
-- allocator.
abbrev pub IsUsablePage : List MemmapEntry → ℕ → ℕ → ℕ → Type 0
IsUsablePage m region frontier idx =
    (i : ℕ) × (e : MemmapEntry) × (get_elem? m i ≡ some e) × InRegion i e region frontier idx

-- Of a rising memory map the loops of `frame_alloc_init` make a free list of pages that lie wholly in
-- usable regions, at or behind the boot allocator's frontier; each page is on it once, and none is in
-- use.
pub add_regions-Frees :
    (m : List MemmapEntry) (region frontier npages : ℕ) (s : Ram)
    → Rising 0 m
    → frontier < 2 ^ 63
    → (xs : List ℕ) × Frees (add_regions 0 m region frontier (fresh npages s)) xs
      × ((x : ℕ) → has x xs ≡ true → IsUsablePage m region frontier x)
add_regions-Frees m region frontier npages s rising fits =
    add_regions-Filled (IsUsablePage m region frontier) region frontier fits 0 npages m
      (fresh npages s) 0 ([], empty, refl) rising
      λ j e at idx u. (j, e, at, subst (λ k. InRegion k e region frontier idx) (omega arith) u)
  where
    empty : Filled (IsUsablePage m region frontier) (fresh npages s) [] 0
    empty = record {
      frees = record { chain = refl; once = tt; unused = tt; real = tt };
      below = λ x h. absurd (cc h);
      holds = λ x h. absurd (cc h);
      unused = λ x h. ground (arith, h);
    }
