-- ===== src/Frames/FreeList.antt =====
-- The free list as a list of pages, and the operations on it.
use hobby_os_kernel.Common.{
  ℕ, zero, suc, ◌+◌, ◌<◌, ◌≡◌, refl, sym, ap, ◌∙◌, subst, ◌≢◌, inl, inr, bit_and, false, List, [],
  ◌∷◌, Option, none, some, arith, if◌then◌else◌, ◌==◌, Bool-cases, length, has, Distinct, fun_ext,
  ==_ne, ==_self, All,
}
use hobby_os_kernel.Frames.{
  PageInfo, Ram, set_page, set_link, alloc_zero, take_page, zero_page, alloc_head, page_alloc,
  page_free, put_page, count_loop, count_free,
}

-- From `p` the links lead through the pages `xs` to NULL.
abbrev pub Chain : (ℕ → PageInfo) → Option ℕ → List ℕ → Type 0
Chain pages p [] = p ≡ none
Chain pages p (x ∷ xs) = (p ≡ some x) × Chain pages (pages x).pp_link xs

-- The free list holds the pages `xs`, each once, none of them in use.
pub record Frees (s : Ram) (xs : List ℕ) : Type 0 where
  pub chain : Chain s.pages s.page_free_list xs
  pub once : Distinct xs
  pub unused : All (λ x. (s.pages x).pp_ref ≡ 0) xs
  pub real : All (λ x. x < s.npages) xs

-- A page that is neither in use nor on the free list, as `page_alloc` returns it.
pub record IsLoose (s : Ram) (xs : List ℕ) (pp : ℕ) : Type 0 where
  pub real : pp < s.npages
  pub unused : (s.pages pp).pp_ref ≡ 0
  pub unlinked : (s.pages pp).pp_link ≡ none
  pub absent : has pp xs ≡ false

set_page_ne :
    (pages : ℕ → PageInfo) (i j : ℕ) (v : PageInfo) → j ≢ i → set_page pages i v j ≡ pages j
set_page_ne pages i j v ne = rw (==_ne j i ne)

pub set_page_self : (pages : ℕ → PageInfo) (i : ℕ) (v : PageInfo) → set_page pages i v i ≡ v
set_page_self pages i v = rw (==_self i)

-- A change to one page is not seen from a chain without it.
Chain-set_page :
    (pages : ℕ → PageInfo) (i : ℕ) (v : PageInfo) (p : Option ℕ) (xs : List ℕ)
    → has i xs ≡ false
    → Chain pages p xs
    → Chain (set_page pages i v) p xs
Chain-set_page pages i v p [] h c = c
Chain-set_page pages i v p (x ∷ xs) h c = (
  c.0,
  subst (λ t. Chain (set_page pages i v) t.pp_link xs)
      (sym (set_page_ne pages i x v (λ e. ground (arith, e))))
      (Chain-set_page pages i v (pages x).pp_link xs (ground arith) c.1),
)

unused-set_link :
    (pages : ℕ → PageInfo) (i : ℕ) (link : Option ℕ) (xs : List ℕ)
    → All (λ x. (pages x).pp_ref ≡ 0) xs
    → All (λ x. (set_link pages i link x).pp_ref ≡ 0) xs
unused-set_link pages i link [] h = tt
unused-set_link pages i link (x ∷ xs) h = (ground arith, unused-set_link pages i link xs h.1)

-- The first page of the free list leaves it, and is then loose.
pub take_page-Frees :
    {s : Ram} {x : ℕ} {xs : List ℕ}
    → Frees s (x ∷ xs)
    → Frees (take_page x s) xs × IsLoose (take_page x s) xs x
unfolding take_page
take_page-Frees {s} {x} {xs} f = (
  record {
    chain = Chain-set_page s.pages x _ (s.pages x).pp_link xs f.once.0 f.chain.1;
    once = f.once.1;
    unused = unused-set_link s.pages x none xs f.unused.1;
    real = f.real.1;
  },
  record {
    real = f.real.0;
    unused = ground (arith, f.unused.0);
    unlinked = ap (λ t. t.pp_link) (set_page_self s.pages x _);
    absent = f.once.0;
  },
)

-- Zeroing is about the memory alone.
zero_page-Frees : {s : Ram} {xs : List ℕ} (pp : ℕ) → Frees s xs → Frees (zero_page pp s) xs
unfolding zero_page
zero_page-Frees pp f = record { chain = f.chain; once = f.once; unused = f.unused; real = f.real }

zero_page-IsLoose :
    {s : Ram} {xs : List ℕ} {x : ℕ} (pp : ℕ) → IsLoose s xs x → IsLoose (zero_page pp s) xs x
unfolding zero_page
zero_page-IsLoose pp l = record {
  real = l.real;
  unused = l.unused;
  unlinked = l.unlinked;
  absent = l.absent;
}

abbrev pub Allocates : ℕ → Ram → List ℕ → Type 0
Allocates flags s [] = page_alloc flags s ≡ (none, s)
Allocates flags s (x ∷ xs) =
    let (r, t) = page_alloc flags s in (r ≡ some x) × Frees t xs × IsLoose t xs x

pub page_alloc-none :
    (flags : ℕ) (s : Ram) → s.page_free_list ≡ none → page_alloc flags s ≡ (none, s)
unfolding page_alloc
page_alloc-none flags s e = ap (λ p. alloc_head p flags s) e

pub page_alloc-some :
    (flags : ℕ) (s : Ram) (x : ℕ)
    → s.page_free_list ≡ some x
    → page_alloc flags s ≡ (
      some x,
      (if bit_and flags alloc_zero == 0 then take_page x s else zero_page x (take_page x s)),
    )
unfolding page_alloc
page_alloc-some flags s x e = ap (λ p. alloc_head p flags s) e

-- With no free page `page_alloc` returns NULL and changes nothing. Otherwise it returns the first
-- page of the free list, which is then unused and unlinked, and the rest of the list stays.
pub page_alloc-Allocates : (flags : ℕ) (s : Ram) (xs : List ℕ) → Frees s xs → Allocates flags s xs
page_alloc-Allocates flags s [] f = page_alloc-none flags s f.chain
page_alloc-Allocates flags s (x ∷ xs) f =
    let (frees, loose) = take_page-Frees f in
    rw (page_alloc-some flags s x f.chain.0) (elim (Bool-cases (bit_and flags alloc_zero == 0)) [
      | inl keep ↦ rw keep (refl, frees, loose)
      | inr clear ↦ rw clear (refl, zero_page-Frees x frees, zero_page-IsLoose x loose)
    ])

pub page_free_loose :
    {s : Ram} {xs : List ℕ} {pp : ℕ} → IsLoose s xs pp → page_free pp s ≡ put_page pp s
unfolding page_free
page_free_loose l = rw (l.unused, l.unlinked)

-- An unused page off the list becomes its first.
pub put_page-Frees :
    {s : Ram} {xs : List ℕ} {pp : ℕ}
    → Frees s xs
    → pp < s.npages
    → (s.pages pp).pp_ref ≡ 0
    → has pp xs ≡ false
    → Frees (put_page pp s) (pp ∷ xs)
unfolding put_page
put_page-Frees {s} {xs} {pp} f real unused absent = record {
  chain = (
    refl,
    subst (λ t. Chain (set_link s.pages pp s.page_free_list) t.pp_link xs)
        (sym (set_page_self s.pages pp _))
        (Chain-set_page s.pages pp _ s.page_free_list xs absent f.chain),
  );
  once = (absent, f.once);
  unused = (ground (arith, unused), unused-set_link s.pages pp s.page_free_list xs f.unused);
  real = (real, f.real);
}

-- A loose page becomes the first of the free list.
pub page_free-Frees :
    {s : Ram} {xs : List ℕ} {pp : ℕ}
    → Frees s xs
    → IsLoose s xs pp
    → Frees (page_free pp s) (pp ∷ xs)
page_free-Frees {s} {xs} {pp} f l =
    rw (page_free_loose l) (put_page-Frees f l.real l.unused l.absent)

take_page-put_page :
    {s : Ram} {xs : List ℕ} {pp : ℕ} → IsLoose s xs pp → take_page pp (put_page pp s) ≡ s
unfolding take_page put_page
take_page-put_page {s} {xs} {pp} l = λ i. record s { pages = restored i; page_free_list = head i }
  where
    restored : set_link (set_link s.pages pp s.page_free_list) pp none ≡ s.pages
    restored = fun_ext λ j. ground (arith, l.unlinked)

    head : (set_link s.pages pp s.page_free_list pp).pp_link ≡ s.page_free_list
    head = ap (λ t. t.pp_link) (set_page_self s.pages pp _)

-- Freeing a loose page and allocating without zeroing gives the page back and restores the state.
pub page_alloc-page_free :
    {s : Ram} {xs : List ℕ} {pp : ℕ}
    → IsLoose s xs pp
    → page_alloc 0 (page_free pp s) ≡ (some pp, s)
page_alloc-page_free {s} {xs} {pp} l =
    rw (page_free_loose l, page_alloc-some 0 (put_page pp s) pp (unfold put_page in refl))
      (ap (λ t. (some pp, t)) (take_page-put_page l))

count_loop_lem :
    (fuel : ℕ) (pages : ℕ → PageInfo) (p : Option ℕ) (xs : List ℕ) (count : ℕ)
    → Chain pages p xs
    → length xs < fuel
    → count_loop fuel pages p count ≡ some (count + length xs)
unfolding count_loop
count_loop_lem zero pages p xs count c h = absurd (omega arith)
count_loop_lem (suc fuel) pages p [] count c h = rw (c) (ap some (omega arith))
count_loop_lem (suc fuel) pages p (x ∷ xs) count c h = rw (c.0) (
    count_loop_lem fuel pages (pages x).pp_link xs (count + 1) c.1 (omega arith)
    ∙ ap some (omega arith))

-- `count_free` returns the number of free pages.
pub count_free_lem :
    {s : Ram} {xs : List ℕ} (fuel : ℕ)
    → Frees s xs
    → length xs < fuel
    → count_free fuel s ≡ some (length xs)
unfolding count_free
count_free_lem {s} {xs} fuel f h =
    count_loop_lem fuel s.pages s.page_free_list xs 0 f.chain h ∙ ap some (omega arith)
