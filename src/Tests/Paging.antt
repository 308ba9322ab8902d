-- ===== src/Tests/Paging.antt =====
-- Concrete inputs for the theorems on page tables.
use hobby_os_kernel.Common.{
  ℕ, ◌≢◌, ◌<◌, ◌^◌, has, ◌+◌, ◌*◌, ◌/◌, ◌%◌, ◌≡◌, refl, sym, ap, subst, ◌∙◌, inl, inr, ◌↔◌, ◌⊎◌,
  true, false, List, [], ◌∷◌, Option, none, some, arith, if◌then◌else◌, ◌==◌,
}
use hobby_os_kernel.Memory.{Mem, load64}
use hobby_os_kernel.Memory.Words.{load64-clear}
use hobby_os_kernel.Frames.{Ram}
use hobby_os_kernel.Paging.Entry.{present, pml4_index, is_canonical}
use hobby_os_kernel.Paging.RoundTrip.{IsFrameAddress}
use hobby_os_kernel.Paging.Canonical.{LowerHalf, UpperHalf, is_canonical_iff}
use hobby_os_kernel.Paging.Walk.{
  get_current_pml4, vmm_new_address_space, entry_at, vmm_map, vmm_unmap,
}
use hobby_os_kernel.Paging.Walk.Lookup.{bind_opt, resolve, translate, follow}
use hobby_os_kernel.Paging.Walk.Path.{IsTable}
use hobby_os_kernel.Paging.Walk.Create.{HasFree}
use hobby_os_kernel.Paging.Walk.Space.{NewSpace, vmm_new_address_space-NewSpace}
use hobby_os_kernel.Paging.Tree.{Indices, IsTree, Off}
use hobby_os_kernel.Paging.Tree.Pages.{same_page, translate-resolve, way-Indices}
use hobby_os_kernel.Paging.Tree.Map.{Shows, vmm_map-Shows, vmm_unmap-Shows}

-- Cleared memory whose pages 1 to 3 are free; page 5 holds a top-level table.
abbrev pub link_of : ℕ → Option ℕ
link_of i = if i == 1 then some 2 else (if i == 2 then some 3 else none)

abbrev value_or_0 : Option ℕ → ℕ
value_or_0 none = 0
value_or_0 (some a) = a

abbrev pub cleared : Ram
cleared = record {
  pages = λ i. record { pp_link = link_of i; pp_ref = 0 };
  npages = 16;
  page_free_list = some 1;
  bytes = λ q. 0;
}

abbrev pub three_pages : List ℕ
three_pages = 1 ∷ 2 ∷ 3 ∷ []

pub cleared-HasFree : HasFree cleared three_pages
cleared-HasFree = record {
  frees = record {
    chain = (refl, (refl, (refl, refl)));
    once = (refl, (refl, (refl, tt)));
    unused = (refl, (refl, (refl, tt)));
    real = (omega arith, (omega arith, (omega arith, tt)));
  };
  small = (omega arith, (omega arith, (omega arith, tt)));
}

none_ne_some : {u : ℕ} → ◌≡◌ {A = Option ℕ} none (some u) → ⊥
none_ne_some e = cc

-- A space with no table but its top-level one.
module _ (m : Mem) {root : ℕ} (free : List ℕ) (table : IsTable root)
    (used : has (root / 4096) free ≡ false)
    (empty : (i : ℕ) → i < 512 → follow m (entry_at root i) ≡ none) where
  only_root : (i : ℕ) (is : List ℕ) → Indices (i ∷ is) → resolve m root (i ∷ is) ≡ none
  unfolding resolve
  only_root i is ok = rw (empty i ok.0) refl

  reached : {u : ℕ} (is : List ℕ) → Indices is → resolve m root is ≡ some u → (root ≡ u) × (is ≡ [])
  reached [] ok e = (unfold resolve in ap value_or_0 e, refl)
  reached (i ∷ is) ok e = absurd (none_ne_some (sym (only_root i is ok) ∙ e))

  pub lone_root-IsTree : IsTree m root free
  lone_root-IsTree = record {
    tables = λ is u len ok e.
        subst (λ n. IsTable n × (has (n / 4096) free ≡ false)) (reached is ok e).0 (table, used);
    one_way = λ is js u len len' ok ok' e e'. (reached is ok e).1 ∙ sym (reached js ok' e').1;
  }

  pub lone_root-Off :
      (q : ℕ) → has (q / 4096) free ≡ false → q / 4096 * 4096 ≢ root → Off m root free q
  lone_root-Off q h ne = record {
    not_free = h;
    not_table = λ is u len ok e at. ne (at ∙ sym (reached is ok e).0);
  }

  pub lone_root-translate : (b : ℕ) → translate m root b ≡ none
  lone_root-translate b =
      translate-resolve m root b
      ∙ ap (λ o. bind_opt o λ page. some (page + b % 4096))
          (only_root (pml4_index b) _ (way-Indices b))

pub nothing_present : (m : Mem) (slot : ℕ) → load64 m slot ≡ 0 → follow m slot ≡ none
unfolding present
nothing_present m slot e = rw e refl

pub root-IsTree : IsTree (λ q. 0) 20480 three_pages
root-IsTree =
    lone_root-IsTree (λ q. 0) three_pages (record { aligned = refl; small = omega arith }) refl
      λ i h. nothing_present (λ q. 0) _ (load64-clear (entry_at 20480 i) (λ q. 0) λ q a b. refl)

frame-IsFrameAddress : IsFrameAddress 0x7000
frame-IsFrameAddress = record { aligned = refl; small = omega arith }

abbrev mapped : Ram
mapped = vmm_map 20480 0x400123 0x7000 7 cleared

after_map :
    (free' : List ℕ) × (((3 < 3)
        × Shows 20480 cleared three_pages (translate cleared.bytes 20480) mapped free')
      ⊎ Shows 20480 cleared three_pages
          (λ b.
            if same_page 0x400123 b
            then some (0x7000 + b % 4096)
            else translate cleared.bytes 20480 b)
          mapped
          free')
unfolding present
after_map =
    vmm_map-Shows frame-IsFrameAddress (omega arith) refl cleared 20480 0x400123 three_pages
      cleared-HasFree root-IsTree

vmm_map-Shows_example :
    (free' : List ℕ) × (((3 < 3)
        × Shows 20480 cleared three_pages (translate cleared.bytes 20480) mapped free')
      ⊎ Shows 20480 cleared three_pages
          (λ b.
            if same_page 0x400123 b
            then some (0x7000 + b % 4096)
            else translate cleared.bytes 20480 b)
          mapped
          free')
unfolding present
vmm_map-Shows_example =
    vmm_map-Shows frame-IsFrameAddress (omega arith) refl cleared 20480 0x400123 three_pages
      cleared-HasFree root-IsTree

-- The pages that are left.
abbrev free_of : List ℕ
free_of = after_map.0

mapped-Shows :
    Shows 20480 cleared three_pages
      (λ b.
        if same_page 0x400123 b then some (0x7000 + b % 4096) else translate cleared.bytes 20480 b)
      mapped
      free_of
mapped-Shows = elim after_map.1 [
  | inl (few, shows) ↦ absurd (omega (arith, few))
  | inr shows ↦ shows
]

vmm_unmap-Shows_example :
    Shows 20480 mapped free_of
      (λ b. if same_page 0x400123 b then none else translate mapped.bytes 20480 b)
      (vmm_unmap 20480 0x400123 mapped)
      free_of
vmm_unmap-Shows_example =
    vmm_unmap-Shows mapped 20480 0x400123 free_of mapped-Shows.has_free mapped-Shows.tree

is_canonical_iff_example :
    (is_canonical 0xffff800000000000 ≡ true)
    ↔ (LowerHalf 0xffff800000000000 ⊎ UpperHalf 0xffff800000000000)
is_canonical_iff_example = is_canonical_iff 0xffff800000000000 (omega arith)

cleared-IsTable : IsTable (get_current_pml4 20480)
unfolding get_current_pml4
cleared-IsTable = record { aligned = refl; small = omega arith }

other_pages :
    (x : ℕ) → has x three_pages ≡ true → (x < 2 ^ 40) × (x * 4096 ≢ get_current_pml4 20480)
unfolding get_current_pml4
other_pages x h = (ground (arith, h), λ e. absurd (ground (arith, h, e)))

vmm_new_address_space-NewSpace_example :
    NewSpace (get_current_pml4 20480) cleared three_pages (vmm_new_address_space 20480 cleared)
vmm_new_address_space-NewSpace_example =
    vmm_new_address_space-NewSpace 20480 cleared (λ q. omega arith) cleared-IsTable three_pages
      cleared-HasFree.frees other_pages
