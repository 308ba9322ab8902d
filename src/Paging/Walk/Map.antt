-- ===== src/Paging/Walk/Map.antt =====
-- What the processor translates after `vmm_map` and after `vmm_unmap`.
use hobby_os_kernel.Common.{
  ℕ, ◌+◌, ◌%◌, ◌^◌, ◌≤◌, ◌<◌, ◌≡◌, refl, ap, ◌∙◌, subst, inl, inr, Bool, true, false, if◌then◌else◌,
  List, [], ◌∷◌, Option, none, some, arith, All, Option-cases, Bool-cases, length,
}
use hobby_os_kernel.Memory.{Mem, store64}
use hobby_os_kernel.Memory.Words.{load64-store64_self}
use hobby_os_kernel.Frames.{Ram}
use hobby_os_kernel.Paging.Entry.{present, pte_get_addr, pte_make, pt_index}
use hobby_os_kernel.Paging.Fields.{index-fields}
use hobby_os_kernel.Paging.RoundTrip.{
  IsFrameAddress, pte_make-sum, pte_make_round_trip, pte_make-flags,
}
use hobby_os_kernel.Paging.Walk.{
  entry_at, load_entry, Result, and_then, write_entry, vmm_map, clear_entry, vmm_unmap,
}
use hobby_os_kernel.Paging.Walk.Lookup.{
  follow, bind_opt, resolve, upper_indices, translate, walk_levels, vmm_walk-levels,
  vmm_walk-lookup, level-present,
}
use hobby_os_kernel.Paging.Walk.Path.{IsTable, PathOk, Resolves, Resolves-store64, resolve-Resolves}
use hobby_os_kernel.Paging.Walk.Create.{HasFree}
use hobby_os_kernel.Paging.Walk.Levels.{Walked, walk_levels-Walked}

-- The tables that exist on the way to `vaddr` are pages in use, each another one.
abbrev pub WayOk : Ram → List ℕ → ℕ → ℕ → Type 0
WayOk s free pml4 vaddr = PathOk s.bytes free [] pml4 (upper_indices vaddr)

index-lt : (vaddr : ℕ) → All (λ i. i < 512) (upper_indices vaddr)
index-lt vaddr = omega (arith, index-fields vaddr)

last_index-lt : (vaddr : ℕ) → pt_index vaddr < 512
last_index-lt vaddr = omega (arith, index-fields vaddr)

-- What the processor reads through a last-level entry.
translate-last :
    (m : Mem) (pml4 vaddr last : ℕ)
    → resolve m pml4 (upper_indices vaddr) ≡ some last
    → translate m pml4 vaddr
      ≡ bind_opt (follow m (entry_at last (pt_index vaddr))) λ page. some (page + vaddr % 4096)
unfolding translate
translate-last m pml4 vaddr last e = rw e

bind-if :
    (b : Bool) (a : ℕ) (k : ℕ → Option ℕ)
    → bind_opt (if b then some a else none) k ≡ (if b then k a else none)
bind-if true a k = refl
bind-if false a k = refl

-- What the last-level entry reads after it was written.
translate-store :
    (m : Mem) (pml4 vaddr last v : ℕ)
    → IsTable last
    → Resolves m pml4 (upper_indices vaddr) last
    → v < 2 ^ 64
    → translate (store64 m (entry_at last (pt_index vaddr)) v) pml4 vaddr
      ≡ (if present v then some (pte_get_addr v + vaddr % 4096) else none)
translate-store m pml4 vaddr last v table r h =
    rw
      (
        translate-last (store64 m (entry_at last (pt_index vaddr)) v) pml4 vaddr last (
            resolve-Resolves _ pml4 (upper_indices vaddr) (
              Resolves-store64 m pml4 (upper_indices vaddr) (pt_index vaddr) v table
                (last_index-lt vaddr) r)),
        load64-store64_self m (entry_at last (pt_index vaddr)) v h,
      )
      (bind-if (present v) (pte_get_addr v) (λ page. some (page + vaddr % 4096)))

walked :
    (s : Ram) (free : List ℕ) (pml4 vaddr : ℕ)
    → HasFree s free
    → WayOk s free pml4 vaddr
    → Walked
        (length free)
        []
        s.bytes
        pml4
        (upper_indices vaddr)
        (walk_levels pml4 (upper_indices vaddr) true s)
walked s free pml4 vaddr f way =
    walk_levels-Walked pml4 (upper_indices vaddr) s free [] f (λ u h. absurd (cc h))
      (index-lt vaddr) way

module _ {phys flags : ℕ} (frame : IsFrameAddress phys) (low : flags < 2 ^ 12)
    (on : present flags ≡ true) where
  write_entry-translate :
      (pages pml4 vaddr : ℕ) (m : Mem) (r : Result)
      → Walked pages [] m pml4 (upper_indices vaddr) r
      → 3 ≤ pages
      → translate
          (write_entry phys flags
            (and_then r λ pt s. (some (entry_at pt (pt_index vaddr)), s))).bytes
          pml4
          vaddr
        ≡ some (phys + vaddr % 4096)
  unfolding write_entry
  write_entry-translate pages pml4 vaddr m (none, s') w enough = absurd (omega arith)
  write_entry-translate pages pml4 vaddr m (some last, s') (res, table, new, kept) enough =
      rw
        (
          translate-store s'.bytes pml4 vaddr last (pte_make phys flags) table res
              (omega (arith, pte_make-sum flags frame low)),
          (pte_make-flags flags frame low).0,
          on,
          (pte_make_round_trip flags frame low).0,
        )
        refl

  -- With three free pages for the tables that may be missing, and where the tables on the way that
  -- exist are different pages, none of them free, `vmm_map` with a present entry for a page-aligned
  -- frame below 2 ^ 52 makes the processor translate every address of the page to the frame, at the
  -- same offset.
  pub vmm_map-translate :
      (s : Ram) (free : List ℕ) (pml4 vaddr : ℕ)
      → HasFree s free
      → WayOk s free pml4 vaddr
      → 3 ≤ length free
      → translate (vmm_map pml4 vaddr phys flags s).bytes pml4 vaddr ≡ some (phys + vaddr % 4096)
  unfolding vmm_map
  vmm_map-translate s free pml4 vaddr f way enough = rw (vmm_walk-levels pml4 vaddr true s) (
      write_entry-translate (length free) pml4 vaddr s.bytes
        (walk_levels pml4 (upper_indices vaddr) true s) (walked s free pml4 vaddr f way) enough)

none≢some : {a : ℕ} → ◌≡◌ {A = Option ℕ} none (some a) → ⊥
none≢some e = cc

walk_levels-existing :
    (t : ℕ) (is : List ℕ) (s : Ram) (last : ℕ)
    → resolve s.bytes t is ≡ some last
    → walk_levels t is true s ≡ (some last, s)
unfolding walk_levels resolve
walk_levels-existing t [] s last e = ap (λ o. (o, s)) e
walk_levels-existing t (i ∷ is) s last e = elim (Option-cases (follow s.bytes (entry_at t i))) [
  | inl missing ↦
      absurd (none≢some (subst (λ o. bind_opt o (λ u. resolve s.bytes u is) ≡ some last) missing e))
  | inr (u, link) ↦ rw (level-present (entry_at t i) true s u link) (
      walk_levels-existing u is s last
        (subst (λ o. bind_opt o (λ v. resolve s.bytes v is) ≡ some last) link e))
]

clear_entry-translate :
    (pml4 vaddr : ℕ) (s : Ram) (o : Option ℕ)
    → resolve s.bytes pml4 (upper_indices vaddr) ≡ o
    → ((last : ℕ) → o ≡ some last → IsTable last × Resolves s.bytes pml4 (upper_indices vaddr) last)
    → translate
        (clear_entry (bind_opt o (λ pt. some (entry_at pt (pt_index vaddr))), s)).bytes
        pml4
        vaddr
      ≡ none
unfolding clear_entry
clear_entry-translate pml4 vaddr s none e way = unfold translate in rw e
clear_entry-translate pml4 vaddr s (some last) e way =
    let (table, res) = way last refl in
    elim (Bool-cases (present (load_entry s (entry_at last (pt_index vaddr))))) [
      | inl there ↦ rw there (
          translate-store s.bytes pml4 vaddr last 0 table res (omega arith)
          ∙ unfold present in refl)
      | inr gone ↦ rw gone (translate-last s.bytes pml4 vaddr last e ∙ rw gone)
    ]

-- After `vmm_unmap` the processor translates no address of the page, whether it did before or not, where
-- the tables on the way that exist are different pages.
pub vmm_unmap-translate :
    (s : Ram) (free : List ℕ) (pml4 vaddr : ℕ)
    → HasFree s free
    → WayOk s free pml4 vaddr
    → translate (vmm_unmap pml4 vaddr s).bytes pml4 vaddr ≡ none
unfolding vmm_unmap
vmm_unmap-translate s free pml4 vaddr f way =
    rw (vmm_walk-lookup pml4 vaddr s)
      (clear_entry-translate pml4 vaddr s (resolve s.bytes pml4 (upper_indices vaddr)) refl found)
  where
    found :
        (last : ℕ)
        → resolve s.bytes pml4 (upper_indices vaddr) ≡ some last
        → IsTable last × Resolves s.bytes pml4 (upper_indices vaddr) last
    found last e =
        let w =
          subst (Walked (length free) [] s.bytes pml4 (upper_indices vaddr))
            (walk_levels-existing pml4 (upper_indices vaddr) s last e)
            (walked s free pml4 vaddr f way) in
        (w.1, w.0)
