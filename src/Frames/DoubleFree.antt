-- ===== src/Frames/DoubleFree.antt =====
-- page_alloc.c: `page_free` for a page that is free already.
use hobby_os_kernel.Common.{
  ℕ, zero, suc, ◌+◌, ◌≡◌, refl, sym, subst, ◌≢◌, true, List, [], ◌∷◌, Option, none, some, arith,
  ℕ_discrete, has,
}
use hobby_os_kernel.Frames.{
  PageInfo, Ram, set_link, is_some, page_free, put_page, count_loop, count_free,
}
use hobby_os_kernel.Frames.FreeList.{Chain, Frees}

-- A free page that links to another is refused.
pub page_free-linked : (pp : ℕ) (s : Ram) → is_some (s.pages pp).pp_link ≡ true → page_free pp s ≡ s
unfolding page_free
page_free-linked pp s e = ground arith

-- What follows from a link of a chain's page to a page of the chain.
abbrev LinksInto : (ℕ → PageInfo) → List ℕ → ℕ → Type 0
LinksInto pages xs x = (y : ℕ) × ((pages x).pp_link ≡ some y) × (has y xs ≡ true)

LinksInto-cons :
    (pages : ℕ → PageInfo) (a : ℕ) (xs : List ℕ) (x : ℕ)
    → LinksInto pages xs x
    → LinksInto pages (a ∷ xs) x
LinksInto-cons pages a xs x l = (l.0, l.1, ground (arith, l.2))

-- Where `pp` links to NULL, every other page of the chain links to a page of the chain.
Chain-links :
    (pages : ℕ → PageInfo) (p : Option ℕ) (xs : List ℕ) (pp x : ℕ)
    → Chain pages p xs
    → has pp xs ≡ true
    → (pages pp).pp_link ≡ none
    → has x xs ≡ true
    → x ≢ pp
    → LinksInto pages xs x
Chain-links pages p [] pp x c h last k ne = absurd (cc h)
Chain-links pages p (a ∷ []) pp x c h last k ne = absurd (ground arith)
Chain-links pages p (a ∷ b ∷ xs) pp x c h last k ne = elim (ℕ_discrete x a) [
  | yes e ↦ (b, subst (λ t. (pages t).pp_link ≡ some b) (sym e) c.1.0, ground arith)
  | no other ↦ elim (ℕ_discrete pp a) [
    | yes e ↦ absurd (ground (arith, c.1.0))
    | no later ↦ LinksInto-cons pages a (b ∷ xs) x (
        Chain-links pages (pages a).pp_link (b ∷ xs) pp x c.1 (ground arith) last (ground arith) ne)
  ]
]

-- A walk never leaves a set of pages that all link into it.
count_loop-closed :
    (pages : ℕ → PageInfo) (xs : List ℕ)
    → ((x : ℕ) → has x xs ≡ true → LinksInto pages xs x)
    → (fuel x count : ℕ) → has x xs ≡ true
    → count_loop fuel pages (some x) count ≡ none
unfolding count_loop
count_loop-closed pages xs closed zero x count h = refl
count_loop-closed pages xs closed (suc fuel) x count h =
    let (y, link, into) = closed x h in
    rw link (count_loop-closed pages xs closed fuel y (count + 1) into)

head_in :
    (pages : ℕ → PageInfo) (p : Option ℕ) (xs : List ℕ) (pp : ℕ)
    → Chain pages p xs
    → has pp xs ≡ true
    → (y : ℕ) × (p ≡ some y) × (has y xs ≡ true)
head_in pages p [] pp c h = absurd (cc h)
head_in pages p (a ∷ xs) pp c h = (a, c.0, ground arith)

page_free-last :
    (s : Ram) (pp : ℕ)
    → (s.pages pp).pp_ref ≡ 0
    → (s.pages pp).pp_link ≡ none
    → page_free pp s ≡ put_page pp s
unfolding page_free
page_free-last s pp r l = rw (r, l)

closed_after :
    (s : Ram) (xs : List ℕ) (pp : ℕ)
    → Chain s.pages s.page_free_list xs
    → has pp xs ≡ true
    → (s.pages pp).pp_link ≡ none
    → (x : ℕ) → has x xs ≡ true
    → LinksInto (set_link s.pages pp s.page_free_list) xs x
closed_after s xs pp c h last x k = elim (ℕ_discrete x pp) [
  | yes e ↦
      let (y, first, into) = head_in s.pages s.page_free_list xs pp c h in
      (y, ground (arith, first), into)
  | no ne ↦
      let (y, link, into) = Chain-links s.pages s.page_free_list xs pp x c h last k ne in
      (y, ground (arith, link), into)
]

-- Freeing the last page of the free list a second time is accepted, and makes the list a cycle: no
-- number of steps takes `count_free` to its end.
pub page_free-last_cycles :
    (s : Ram) (xs : List ℕ) (pp : ℕ)
    → Frees s xs
    → has pp xs ≡ true
    → (s.pages pp).pp_ref ≡ 0
    → (s.pages pp).pp_link ≡ none
    → (fuel : ℕ) → count_free fuel (page_free pp s) ≡ none
unfolding count_free put_page
page_free-last_cycles s xs pp f h unused last fuel = rw (page_free-last s pp unused last) (
    count_loop-closed (set_link s.pages pp s.page_free_list) xs
      (closed_after s xs pp f.chain h last) fuel pp 0 h)
