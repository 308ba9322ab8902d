-- ===== src/Paging/Walk/Lookup.antt =====
-- The walk that makes no table, against the translation that the processor defines.
use hobby_os_kernel.Common.{
  ℕ, ◌+◌, ◌%◌, ◌≡◌, refl, Bool, false, Option, none, some, arith, if◌then◌else◌, List, [], ◌∷◌,
}
use hobby_os_kernel.Memory.{Mem, load64}
use hobby_os_kernel.Frames.{Ram}
use hobby_os_kernel.Paging.Entry.{present, pte_get_addr, pml4_index, pdpt_index, pd_index, pt_index}
use hobby_os_kernel.Paging.Walk.{entry_at, Result, and_then, level, vmm_walk}

-- One level of the processor's walk: the next table, if the entry is present.
abbrev pub follow : Mem → ℕ → Option ℕ
follow m slot = if present (load64 m slot) then some (pte_get_addr (load64 m slot)) else none

abbrev pub bind_opt : Option ℕ → (ℕ → Option ℕ) → Option ℕ
bind_opt none k = none
bind_opt (some a) k = k a

-- The last table, if the levels above it are present.
unfoldable pub resolve : Mem → ℕ → List ℕ → Option ℕ
resolve m t [] = some t
resolve m t (i ∷ is) = bind_opt (follow m (entry_at t i)) λ u. resolve m u is

-- The indices of the three levels above the last.
abbrev pub upper_indices : ℕ → List ℕ
upper_indices vaddr = pml4_index vaddr ∷ pdpt_index vaddr ∷ pd_index vaddr ∷ []

abbrev pub leaf_slot : Mem → ℕ → ℕ → Option ℕ
leaf_slot m pml4 vaddr =
    bind_opt (resolve m pml4 (upper_indices vaddr)) λ pt. some (entry_at pt (pt_index vaddr))

-- The physical address that the processor reads for `vaddr`.
unfoldable pub translate : Mem → ℕ → ℕ → Option ℕ
translate m pml4 vaddr =
    bind_opt (leaf_slot m pml4 vaddr)
      λ slot. bind_opt (follow m slot) λ page. some (page + vaddr % 4096)

-- The walk as one recursion over the indices.
unfoldable pub walk_levels : ℕ → List ℕ → Bool → Ram → Result
walk_levels table [] create s = (some table, s)
walk_levels table (i ∷ is) create s =
    and_then (level (entry_at table i) create s) λ t s. walk_levels t is create s

and_then_assoc :
    (r : Result) (k l : ℕ → Ram → Result)
    → and_then (and_then r k) l ≡ and_then r λ t s. and_then (k t s) l
and_then_assoc (none, s) k l = refl
and_then_assoc (some t, s) k l = refl

abbrev to_slot : ℕ → ℕ → Ram → Result
to_slot i pt s = (some (entry_at pt i), s)

pub vmm_walk-levels :
    (pml4 vaddr : ℕ) (create : Bool) (s : Ram)
    → vmm_walk pml4 vaddr create s
      ≡ and_then
          (walk_levels pml4 (upper_indices vaddr) create s)
          λ pt s. (some (entry_at pt (pt_index vaddr)), s)
unfolding vmm_walk walk_levels
vmm_walk-levels pml4 vaddr create s = simp and_then_assoc

pub level-lookup : (slot : ℕ) (s : Ram) → level slot false s ≡ (follow s.bytes slot, s)
unfolding level
level-lookup slot s = ground arith

pub level-present :
    (slot : ℕ) (create : Bool) (s : Ram) (t : ℕ)
    → follow s.bytes slot ≡ some t
    → level slot create s ≡ (some t, s)
unfolding level
level-present slot create s t e = ground arith

and_then-lookup :
    (o : Option ℕ) (k : ℕ → Ram → Result) (k' : ℕ → Option ℕ) (s : Ram)
    → ((t : ℕ) → k t s ≡ (k' t, s))
    → and_then (o, s) k ≡ (bind_opt o k', s)
and_then-lookup none k k' s h = refl
and_then-lookup (some t) k k' s h = h t

walk_levels-lookup :
    (t : ℕ) (is : List ℕ) (s : Ram) → walk_levels t is false s ≡ (resolve s.bytes t is, s)
unfolding walk_levels resolve
walk_levels-lookup t [] s = refl
walk_levels-lookup t (i ∷ is) s =
    rw (level-lookup (entry_at t i) s)
      (and_then-lookup (follow s.bytes (entry_at t i)) _ _ s λ u. walk_levels-lookup u is s)

pub vmm_walk-lookup :
    (pml4 vaddr : ℕ) (s : Ram) → vmm_walk pml4 vaddr false s ≡ (leaf_slot s.bytes pml4 vaddr, s)
vmm_walk-lookup pml4 vaddr s =
    rw (vmm_walk-levels pml4 vaddr false s, walk_levels-lookup pml4 (upper_indices vaddr) s)
      (and_then-lookup (resolve s.bytes pml4 (upper_indices vaddr)) _ _ s λ pt. refl)
