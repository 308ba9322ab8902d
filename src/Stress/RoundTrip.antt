-- ===== src/Stress/RoundTrip.antt =====
-- The first stress test: all pages are allocated, and then freed.
use hobby_os_kernel.Common.{
  ℕ, zero, suc, ◌+◌, ◌-◌, ◌*◌, ◌/◌, ◌^◌, ◌<◌, ◌≤◌, ◌⊎◌, ◌≡◌, ◌≢◌, refl, sym, ap, ◌∙◌, fun_ext,
  false, List, [], ◌∷◌, Option, none, some, arith, has, length,
}
use hobby_os_kernel.Memory.{Mem, load64, store64}
use hobby_os_kernel.Memory.Words.{load64-store64_self, load64-cong, store64-outside}
use hobby_os_kernel.Frames.{Ram, take_page, page2pa, page_free, put_page}
use hobby_os_kernel.Frames.FreeList.{
  Frees, IsLoose, take_page-Frees, page_alloc-none, page_alloc-some, page_free_loose,
  count_free_lem,
}
use hobby_os_kernel.Frames.Addresses.{page2pa-small}
use hobby_os_kernel.Paging.Walk.Create.{HasFree}
use hobby_os_kernel.Stress.{
  going, page_pointer, pointed_page, store_link, drop_refs, stress_alloc_all, stress_free_all,
  alloc_and_free,
}

-- The page is none or one of the array.
abbrev IsPointer : ℕ → Option ℕ → Type 0
IsPointer npages none = Unit
IsPointer npages (some pp) = pp < npages

-- The array `pages` lies in the address space, and not at NULL.
pub record IsPlaced (pages_at npages : ℕ) : Type 0 where
  pub not_null : 0 < pages_at
  pub fits : pages_at + 16 * npages < 2 ^ 64

page_pointer-u64 :
    (pages_at npages : ℕ) (o : Option ℕ)
    → IsPlaced pages_at npages
    → IsPointer npages o
    → page_pointer pages_at o < 2 ^ 64
page_pointer-u64 pages_at npages none p h = omega arith
page_pointer-u64 pages_at npages (some pp) p h = omega arith

-- A pointer to a page is read as it was written.
pointed_page-page_pointer :
    (pages_at npages : ℕ) (o : Option ℕ)
    → IsPlaced pages_at npages
    → IsPointer npages o
    → pointed_page pages_at (page_pointer pages_at o) ≡ o
pointed_page-page_pointer pages_at npages none p h = refl
pointed_page-page_pointer pages_at npages (some pp) p h = ground (arith, p.not_null, p.fits)

dropped-IsLoose :
    {s : Ram} {x : ℕ} {xs : List ℕ} (m : Mem)
    → Frees s (x ∷ xs)
    → IsLoose (drop_refs x (record (take_page x s) { bytes = m })) xs x
unfolding take_page
dropped-IsLoose {s} {x} {xs} m f = record {
  real = f.real.0;
  unused = ground arith;
  unlinked = ground arith;
  absent = f.once.0;
}

-- The page that left the free list first comes back to it last.
page_free-take_page :
    {s : Ram} {x : ℕ} {xs : List ℕ} (m : Mem)
    → Frees s (x ∷ xs)
    → page_free x (drop_refs x (record (take_page x s) { bytes = m })) ≡ record s { bytes = m }
unfolding take_page put_page
page_free-take_page {s} {x} {xs} m f = page_free_loose (dropped-IsLoose m f) ∙ λ i. record s {
  pages = pages i;
  page_free_list = head i;
  bytes = m;
}
  where
    head : some x ≡ s.page_free_list
    head = sym f.chain.0

    pages : (put_page x (drop_refs x (record (take_page x s) { bytes = m }))).pages ≡ s.pages
    pages = fun_ext λ j. ground (arith, f.unused.0)

-- What becomes of `s` when `stress_alloc_all` takes the free pages `xs` on top of `head`: when they
-- are freed again down to `head`, all is as before but the bytes of the pages.
record Undone (fuel pages_at : ℕ) (head : Option ℕ) (s : Ram) (xs : List ℕ) : Type 0 where
  last : Option ℕ
  s1 : Ram
  m : Mem
  allocated : stress_alloc_all fuel pages_at head s ≡ some (last, s1)
  empty : Frees s1 []
  aside : (q : ℕ) → has (q / 4096) xs ≡ false → m q ≡ s.bytes q
  freed :
      (rounds : ℕ)
      → stress_free_all (length xs + rounds) pages_at last s1
        ≡ stress_free_all rounds pages_at head (record s { bytes = m })

taken-HasFree :
    {s : Ram} {x : ℕ} {xs : List ℕ} (pages_at : ℕ) (head : Option ℕ)
    → HasFree s (x ∷ xs)
    → HasFree (store_link pages_at x head (take_page x s)) xs
taken-HasFree {s} {x} {xs} pages_at head f = record {
  frees = record { chain = g.chain; once = g.once; unused = g.unused; real = g.real };
  small = f.small.1;
}
  where
    g : Frees (take_page x s) xs
    g = (take_page-Frees f.frees).0

stress_alloc_all-some :
    {s : Ram} {x : ℕ} {xs : List ℕ} (fuel pages_at : ℕ) (head : Option ℕ)
    → Frees s (x ∷ xs)
    → stress_alloc_all (suc fuel) pages_at head s
      ≡ stress_alloc_all fuel pages_at (some x) (store_link pages_at x head (take_page x s))
unfolding stress_alloc_all
stress_alloc_all-some {s} {x} fuel pages_at head f =
    let e = page_alloc-some 0 s x f.chain.0 in
    rw (stress_alloc_all, ap (λ r. r.0) e, ap (λ r. r.1) e) refl

stress_alloc_all-none :
    {s : Ram} (fuel pages_at : ℕ) (head : Option ℕ)
    → Frees s []
    → stress_alloc_all (suc fuel) pages_at head s ≡ some (head, s)
unfolding stress_alloc_all
stress_alloc_all-none {s} fuel pages_at head f =
    let e = page_alloc-none 0 s f.chain in
    rw (stress_alloc_all, ap (λ r. r.0) e, ap (λ r. r.1) e) refl

-- The first page of the list that the pages hold is freed, if its link was kept.
stress_free_all-first :
    {s : Ram} {x : ℕ} {xs : List ℕ} (rounds pages_at : ℕ) (head : Option ℕ) (m : Mem)
    → Frees s (x ∷ xs)
    → IsPlaced pages_at s.npages
    → IsPointer s.npages head
    → load64 m (page2pa x) ≡ page_pointer pages_at head
    → stress_free_all (suc rounds) pages_at (some x) (record (take_page x s) { bytes = m })
      ≡ stress_free_all rounds pages_at head (record s { bytes = m })
unfolding stress_free_all
stress_free_all-first {s} {x} rounds pages_at head m f placed real link =
    rw (link, pointed_page-page_pointer pages_at s.npages head placed real, page_free-take_page m f)
      refl

-- One page more.
module _ {fuel pages_at : ℕ} (head : Option ℕ) {s : Ram} {x : ℕ} {xs : List ℕ}
    (f : HasFree s (x ∷ xs)) (placed : IsPlaced pages_at s.npages) (real : IsPointer s.npages head)
    (rest : Undone fuel pages_at (some x) (store_link pages_at x head (take_page x s)) xs) where
  at_page : page2pa x ≡ x * 4096
  at_page = page2pa-small x (omega (arith, f.small.0))

  stored_at :
      (q : ℕ)
      → (q < page2pa x) ⊎ (page2pa x + 8 ≤ q)
      → has (q / 4096) xs ≡ false
      → rest.m q ≡ s.bytes q
  unfolding take_page
  stored_at q outside k =
      rest.aside q k ∙ store64-outside s.bytes (page2pa x) (page_pointer pages_at head) q outside

  kept : (q : ℕ) → has (q / 4096) (x ∷ xs) ≡ false → rest.m q ≡ s.bytes q
  kept q k = stored_at q (omega (arith, at_page, ne)) (ground arith)
    where
      ne : q / 4096 ≢ x
      ne e = ground (arith, e)

  in_page : (q : ℕ) → page2pa x ≤ q → q < page2pa x + 8 → q / 4096 ≡ x
  in_page q lo hi = omega (arith, at_page)

  link : load64 rest.m (page2pa x) ≡ page_pointer pages_at head
  unfolding take_page
  link =
      load64-cong (page2pa x) (store64 s.bytes (page2pa x) (page_pointer pages_at head)) rest.m
        (λ q lo hi. rest.aside q (ap (λ y. has y xs) (in_page q lo hi) ∙ f.frees.once.0))
      ∙ load64-store64_self s.bytes (page2pa x) (page_pointer pages_at head)
          (page_pointer-u64 pages_at s.npages head placed real)

  one_more : Undone (suc fuel) pages_at head s (x ∷ xs)
  one_more = record {
    last = rest.last;
    s1 = rest.s1;
    m = rest.m;
    allocated = stress_alloc_all-some fuel pages_at head f.frees ∙ rest.allocated;
    empty = rest.empty;
    aside = kept;
    freed = λ rounds.
        ap (λ n. stress_free_all n pages_at rest.last rest.s1) (omega arith)
        ∙ (rest.freed (suc rounds)
            ∙ stress_free_all-first rounds pages_at head rest.m f.frees placed real link);
  }

undone :
    {pages_at : ℕ} (fuel : ℕ) (head : Option ℕ) (s : Ram) (xs : List ℕ)
    → HasFree s xs
    → IsPlaced pages_at s.npages
    → IsPointer s.npages head
    → length xs < fuel
    → Undone fuel pages_at head s xs
unfolding take_page
undone zero head s xs f placed real h = absurd (omega arith)
undone {pages_at} (suc fuel) head s [] f placed real h = record {
  last = head;
  s1 = s;
  m = s.bytes;
  allocated = stress_alloc_all-none fuel pages_at head f.frees;
  empty = f.frees;
  aside = λ q k. refl;
  freed = λ rounds. ap (λ n. stress_free_all n pages_at head s) (omega arith);
}
undone {pages_at} (suc fuel) head s (x ∷ xs) f placed real h = one_more head f placed real (
    undone fuel (some x) (store_link pages_at x head (take_page x s)) xs
      (taken-HasFree pages_at head f) placed f.frees.real.0 (omega arith))

-- The first stress test passes. It counts the free pages, takes them all, and frees them again: the
-- free list and the page array are then as before, and of memory only the free pages have changed. The
-- free list holds pages below 2 ^ 40, each once and none in use, the page array lies inside the address
-- space and not at NULL, and the fuel is above the number of free pages.
pub alloc_and_free-restores :
    {pages_at : ℕ} (fuel : ℕ) (s : Ram) (xs : List ℕ)
    → HasFree s xs
    → IsPlaced pages_at s.npages
    → length xs < fuel
    → (m : Mem) × (alloc_and_free fuel pages_at s ≡ going (length xs, record s { bytes = m }))
      × ((q : ℕ) → has (q / 4096) xs ≡ false → m q ≡ s.bytes q)
unfolding alloc_and_free
alloc_and_free-restores {pages_at} fuel s xs f placed h = (u.m, main, u.aside)
  where
    u : Undone fuel pages_at none s xs
    u = undone fuel none s xs f placed tt h

    enough : fuel ≡ length xs + suc (fuel - suc (length xs))
    enough = omega arith

    freed : stress_free_all fuel pages_at u.last u.s1 ≡ some (record s { bytes = u.m })
    freed =
        ap (λ n. stress_free_all n pages_at u.last u.s1) enough
        ∙ (u.freed (suc (fuel - suc (length xs))) ∙ unfold stress_free_all in refl)

    same : Frees (record s { bytes = u.m }) xs
    same = record {
      chain = f.frees.chain;
      once = f.frees.once;
      unused = f.frees.unused;
      real = f.frees.real;
    }

    main : alloc_and_free fuel pages_at s ≡ going (length xs, record s { bytes = u.m })
    main =
        rw
          (
            count_free_lem fuel f.frees h,
            u.allocated,
            count_free_lem fuel u.empty (omega arith),
            freed,
            count_free_lem {s = record s { bytes = u.m }} fuel same h,
          )
          (ground arith)
