-- ===== src/Paging/Tree/Pages.antt =====
-- The four indices of an address as its way through the tree of tables.
use hobby_os_kernel.Common.{
  ℕ, ◌+◌, ◌/◌, ◌%◌, ◌^◌, ◌<◌, ◌≡◌, ◌≢◌, refl, sym, ap, ◌∙◌, Bool, true, false, ◌==◌, ==_iff, get_or,
  List, [], ◌∷◌, ◌++◌, Option, none, some, arith,
}
use hobby_os_kernel.Memory.{Mem}
use hobby_os_kernel.Paging.Entry.{pml4_index, pdpt_index, pd_index, pt_index}
use hobby_os_kernel.Paging.Fields.{index-fields}
use hobby_os_kernel.Paging.Walk.{entry_at}
use hobby_os_kernel.Paging.Walk.Lookup.{follow, bind_opt, resolve, upper_indices, translate}
use hobby_os_kernel.Paging.Tree.{Indices, resolve-append}

pub upper-Indices : (v : ℕ) → Indices (upper_indices v)
upper-Indices v = omega (arith, index-fields v)

pub pt_index-lt : (v : ℕ) → pt_index v < 512
pt_index-lt v = omega (arith, index-fields v)

-- Two addresses of one page: what the processor looks at is the same.
abbrev pub same_page : ℕ → ℕ → Bool
same_page a b = a / 4096 % 2 ^ 36 == b / 4096 % 2 ^ 36

abbrev pub way_of : ℕ → List ℕ
way_of v = upper_indices v ++ pt_index v ∷ []

pub translate-resolve :
    (m : Mem) (root v : ℕ)
    → translate m root v ≡ bind_opt (resolve m root (way_of v)) λ page. some (page + v % 4096)
unfolding translate
translate-resolve m root v =
    ap (λ o. bind_opt o λ slot. bind_opt (follow m slot) λ page. some (page + v % 4096)) refl
    ∙ (leaf (resolve m root (upper_indices v))
        ∙ ap (λ o. bind_opt o λ page. some (page + v % 4096))
            (sym (resolve-append m root (upper_indices v) (pt_index v ∷ []))))
  where
    last :
        (o : Option ℕ)
        → bind_opt o (λ page. some (page + v % 4096))
          ≡ bind_opt (bind_opt o λ u. some u) (λ page. some (page + v % 4096))
    last none = refl
    last (some page) = refl

    leaf :
        (o : Option ℕ)
        → bind_opt
            (bind_opt o λ pt. some (entry_at pt (pt_index v)))
            (λ slot. bind_opt (follow m slot) λ page. some (page + v % 4096))
          ≡ bind_opt (bind_opt o λ u. resolve m u (pt_index v ∷ [])) λ page. some (page + v % 4096)
    leaf none = refl
    leaf (some pt) = unfold resolve in last (follow m (entry_at pt (pt_index v)))

pub way-Indices : (v : ℕ) → Indices (way_of v)
way-Indices v = omega (arith, index-fields v)

indices-eq :
    (a b : ℕ)
    → a / 4096 % 2 ^ 36 ≡ b / 4096 % 2 ^ 36
    → (pml4_index b ≡ pml4_index a)
      × (pdpt_index b ≡ pdpt_index a)
      × (pd_index b ≡ pd_index a)
      × (pt_index b ≡ pt_index a)
indices-eq a b h = omega (arith, index-fields a, index-fields b)

page_of_indices :
    (a b : ℕ)
    → pml4_index b ≡ pml4_index a
    → pdpt_index b ≡ pdpt_index a
    → pd_index b ≡ pd_index a
    → pt_index b ≡ pt_index a
    → a / 4096 % 2 ^ 36 ≡ b / 4096 % 2 ^ 36
page_of_indices a b h1 h2 h3 h4 = omega (arith, index-fields a, index-fields b)

pub way-eq : (a b : ℕ) → same_page a b ≡ true → way_of b ≡ way_of a
way-eq a b h = let (e4, e3, e2, e1) = indices-eq a b ((==_iff _ _).0 h) in rw (e4, e3, e2, e1) refl

pub way-ne : (a b : ℕ) → same_page a b ≡ false → way_of b ≢ way_of a
way-ne a b h e = clash (
    page_of_indices a b (ap (λ l. get_or l 0 0) e) (ap (λ l. get_or l 1 0) e)
      (ap (λ l. get_or l 2 0) e) (ap (λ l. get_or l 3 0) e))
  where
    clash : a / 4096 % 2 ^ 36 ≡ b / 4096 % 2 ^ 36 → ⊥
    clash e = ground arith
