-- ===== src/Elf/Page.antt =====
-- elf.c: a page of a segment that is not mapped yet.
use hobby_os_kernel.Common.{
  ℕ, ◌+◌, ◌-◌, ◌/◌, ◌%◌, ◌<◌, ◌≤◌, ◌≡◌, ◌≢◌, refl, sym, ap, ◌∙◌, Bool, true, false, if◌then◌else◌,
  List, ◌∷◌, Option, none, some, arith, length, Bool-cases, inl, inr,
}
use hobby_os_kernel.Memory.{Mem, load64}
use hobby_os_kernel.Memory.Words.{load64-cong}
use hobby_os_kernel.Frames.{Ram, page_alloc}
use hobby_os_kernel.Frames.FreeList.{page_alloc-Allocates}
use hobby_os_kernel.Frames.Addresses.{page2pa-small}
use hobby_os_kernel.Paging.Entry.{present}
use hobby_os_kernel.Paging.Walk.{vmm_walk, vmm_map}
use hobby_os_kernel.Paging.Walk.Lookup.{follow, leaf_slot, bind_opt, translate, vmm_walk-lookup}
use hobby_os_kernel.Paging.Walk.Create.{HasFree, address}
use hobby_os_kernel.Paging.Tree.{IsTree, Off}
use hobby_os_kernel.Paging.Tree.Pages.{same_page}
use hobby_os_kernel.Paging.Tree.Aside.{SameTables, aside-IsTree, aside-translate, aside-Off}
use hobby_os_kernel.Paging.Tree.Fresh.{MapsFresh, allocated-MapsFresh}
use hobby_os_kernel.Elf.{
  p_offset, mapped_frame, segment_flags, new_frame, frame_or_new, copy_into_frame, frame_for,
  copy_part, going, load_page,
}
use hobby_os_kernel.Elf.Copied.{Fits, in_part, source, copy_part_lem, if_cong}

mapped_frame-none :
    (s : Ram) (va : ℕ) (o : Option ℕ)
    → bind_opt o (λ slot. bind_opt (follow s.bytes slot) λ page. some (page + va % 4096)) ≡ none
    → mapped_frame o s ≡ none
mapped_frame-none s va none h = refl
mapped_frame-none s va (some slot) h = ground arith

-- A page that is not translated has no frame.
untranslated :
    (s : Ram) (root va : ℕ)
    → translate s.bytes root va ≡ none
    → mapped_frame (vmm_walk root va false s).0 s ≡ none
unfolding translate
untranslated s root va h =
    rw (vmm_walk-lookup root va s) (mapped_frame-none s va (leaf_slot s.bytes root va) h)

if-HasFree :
    {s : Ram} {free : List ℕ} (b : Bool) (m : Mem)
    → HasFree s free
    → HasFree (if b then record s { bytes = m } else s) free
if-HasFree false m f = f
if-HasFree true m f = record {
  frees = record {
    chain = f.frees.chain;
    once = f.frees.once;
    unused = f.frees.unused;
    real = f.frees.real;
  };
  small = f.small;
}

-- What the loader reads of the image lies off the tables and the free pages, and what it copies there
-- off the new frame.
pub record IsImage (base seg file_start file_end va root x : ℕ) (free : List ℕ) (s : Ram)
    : Type 0 where
  pub fits : Fits base seg file_start file_end va (address x) s
  pub header : (q : ℕ) → seg ≤ q → q < seg + 56 → Off s.bytes root (x ∷ free) q
  pub image :
      (q : ℕ)
      → base + p_offset s seg ≤ q
      → q < base + p_offset s seg + (file_end - file_start)
      → Off s.bytes root (x ∷ free) q

-- The state after the page was loaded.
pub record LoadsPage {base seg file_start file_end va root x : ℕ} {free : List ℕ} {s : Ram}
    (i : IsImage base seg file_start file_end va root x free s) (s' : Ram) (free' : List ℕ)
    : Type 0 where
  pub has_free : HasFree s' free'
  pub tree : IsTree s'.bytes root free'
  pub seen :
      (b : ℕ)
      → translate s'.bytes root b
        ≡ (if same_page va b then some (address x + b % 4096) else translate s.bytes root b)
  pub filled :
      (q : ℕ)
      → q / 4096 ≡ x
      → s'.bytes q
        ≡ (if in_part file_start file_end va (address x) q then s.bytes (source i.fits q) else 0)
  pub untouched :
      (q : ℕ) → Off s.bytes root (x ∷ free) q → (s'.bytes q ≡ s.bytes q) × Off s'.bytes root free' q

module _ {base seg file_start file_end va root x : ℕ} {free : List ℕ} {s s2 : Ram} {free' : List ℕ}
    (i : IsImage base seg file_start file_end va root x free s)
    (m : MapsFresh root va x s free s2 free') where
  same_field : (k : ℕ) → k + 8 ≤ 56 → load64 s2.bytes (seg + k) ≡ load64 s.bytes (seg + k)
  same_field k h =
      load64-cong (seg + k) s.bytes s2.bytes
        λ q lo hi. (m.untouched q (i.header q (omega arith) (omega arith))).0

  same_offset : p_offset s2 seg ≡ p_offset s seg
  same_offset = same_field 8 (omega arith)

  still_Fits : Fits base seg file_start file_end va (address x) s2
  still_Fits = record {
    page = i.fits.page;
    page_small = i.fits.page_small;
    start = i.fits.start ∙ sym (same_field 16 (omega arith));
    some_part = i.fits.some_part;
    small = i.fits.small;
    source_small = omega (arith, i.fits.source_small, same_offset);
    apart = elim i.fits.apart [
      | inl before ↦ inl (omega (arith, before, same_offset))
      | inr behind ↦ inr (omega (arith, behind, same_offset))
    ];
  }

  -- The memory after the copy.
  abbrev s3 : Ram
  s3 = copy_part base seg file_start file_end va (address x) s2

  in_page : (q : ℕ) → in_part file_start file_end va (address x) q ≡ true → q / 4096 ≡ x
  in_page q h = ground (arith, h)

  in_range :
      (q : ℕ)
      → in_part file_start file_end va (address x) q ≡ true
      → (file_start ≤ va + (q - address x)) × (va + (q - address x) < file_end)
  in_range q h = ground (arith, h)

  in_image :
      (q : ℕ)
      → in_part file_start file_end va (address x) q ≡ true
      → s2.bytes (source still_Fits q) ≡ s.bytes (source i.fits q)
  in_image q h =
      ap s2.bytes (ap (λ o. base + o + (va + (q - address x) - file_start)) same_offset)
      ∙ (m.untouched (source i.fits q) (
          i.image (source i.fits q) (omega arith)
            (omega (arith, (in_range q h).0, (in_range q h).1)))).0

  copied :
      (q : ℕ)
      → s3.bytes q ≡ (
          if in_part file_start file_end va (address x) q
          then s.bytes (source i.fits q)
          else s2.bytes q)
  copied q =
      copy_part_lem still_Fits q
      ∙ if_cong (in_part file_start file_end va (address x) q) _ (s.bytes (source i.fits q))
          (s2.bytes q) (in_image q)

  outside : (q : ℕ) → q / 4096 ≢ x → s3.bytes q ≡ s2.bytes q
  outside q ne = elim (Bool-cases (in_part file_start file_end va (address x) q)) [
    | inl part ↦ absurd (ne (in_page q part))
    | inr other ↦ copied q ∙ rw other refl
  ]

  copy-SameTables : SameTables s2.bytes s3.bytes root
  copy-SameTables is u q len h e at = outside q λ same. (m.clear q same).1.not_table is u len h e at

  copied-HasFree : HasFree s3 free'
  unfolding copy_part
  copied-HasFree = if-HasFree _ _ m.has_free

  copied-LoadsPage : LoadsPage i s3 free'
  copied-LoadsPage = record {
    has_free = copied-HasFree;
    tree = aside-IsTree m.tree copy-SameTables;
    seen = λ b. aside-translate m.tree copy-SameTables b ∙ m.seen b;
    filled = λ q e.
        copied q
        ∙ ap
            (λ c.
              if in_part file_start file_end va (address x) q then s.bytes (source i.fits q) else c)
            (m.clear q e).0;
    untouched = λ q off.
        let (same, off') = m.untouched q off in
        (
          outside q (λ e. ground (arith, off.not_free, e)) ∙ same,
          aside-Off m.tree copy-SameTables off',
        );
  }

frame_for-new :
    (root va : ℕ) {x : ℕ} {free : List ℕ} {s : Ram}
    → HasFree s (x ∷ free)
    → translate s.bytes root va ≡ none
    → frame_for root va s
      ≡ (some (address x), vmm_map root va (address x) segment_flags (page_alloc 1 s).1)
unfolding frame_for
frame_for-new root va {x} {free} {s} f new =
    ap (λ o. frame_or_new root va o s) (untranslated s root va new)
    ∙ (ap (new_frame root va) returned
        ∙ ap (λ a. (some a, vmm_map root va a segment_flags (page_alloc 1 s).1))
            (page2pa-small x (omega (arith, f.small.0))))
  where
    returned : page_alloc 1 s ≡ (some x, (page_alloc 1 s).1)
    returned = ap (λ r. (r, (page_alloc 1 s).1)) (page_alloc-Allocates 1 s (x ∷ free) f.frees).0

-- For a page that is not translated, `load_page` takes the first free page `x`, and goes on with the
-- page translated to the frame of `x` and every other address as before. The frame holds the bytes
-- that the image has for its addresses, and zeros at the addresses beyond the file's part. The tables
-- stay a tree, and the memory off the tables and the free pages stays as it was. Before, the tables are
-- a tree, there are three more free pages for tables, what the loader reads of the image lies off the
-- tables, the free pages and the new frame, and no address of the page or the image wraps round.
pub load_page-LoadsPage :
    {base seg file_start file_end va root x : ℕ} {free : List ℕ} {s : Ram}
    (i : IsImage base seg file_start file_end va root x free s)
    → HasFree s (x ∷ free)
    → IsTree s.bytes root (x ∷ free)
    → 3 ≤ length free
    → translate s.bytes root va ≡ none
    → (s' : Ram) × (free' : List ℕ) × (load_page root base seg file_start file_end va s ≡ going s')
      × LoadsPage i s' free'
unfolding load_page present
load_page-LoadsPage {base} {seg} {file_start} {file_end} {va} {root} {x} {free} {s} i f tree enough
      new =
    let (free', m) = allocated-MapsFresh f tree va segment_flags (omega arith) refl enough in
    (
      s3 i m,
      free',
      ap (copy_into_frame base seg file_start file_end va) (frame_for-new root va f new),
      copied-LoadsPage i m,
    )
