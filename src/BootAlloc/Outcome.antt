-- ===== src/BootAlloc/Outcome.antt =====
-- The results of `boot_alloc`, and of one call after another.
use hobby_os_kernel.Common.{
  ℕ, ◌≤◌, ◌<◌, ◌≡◌, sym, subst, inl, inr, true, false, arith, Bool-cases, List, ap, ◌==◌, length,
}
use hobby_os_kernel.BootAlloc.{
  MemmapEntry, Pmm, usable_at, base_at, end_at, pmm_init, find_next_usable_region,
}
use hobby_os_kernel.BootAlloc.Regions.{MapFits, IsReady, Grants, first_region}

pub Grants-IsReady : {n : ℕ} {s : Pmm} {p : ℕ} {t : Pmm} → Grants n s p t → IsReady t
Grants-IsReady {n} {s} {p} {t} g = record {
  bounded = omega (arith, same_count, g.region);
  usable = λ _. subst (λ m. usable_at m t.current_region ≡ true) (sym g.same_map) g.usable;
  from_base = λ _.
      subst (λ m. base_at m t.current_region ≤ t.next_free) (sym g.same_map)
        (omega (arith, g.from_base, g.frontier));
  to_end = λ _.
      subst (λ m. t.next_free ≤ end_at m t.current_region) (sym g.same_map)
        (omega (arith, g.to_end, g.frontier));
}
  where
    same_count : length t.memmap ≡ length s.memmap
    same_count = ap length g.same_map

-- `pmm_init` leaves the allocator between two calls: at the base of the first usable region, or
-- with no region left.
pub pmm_init-IsReady : {n : ℕ} (m : List MemmapEntry) → MapFits n m → IsReady (pmm_init m)
unfolding pmm_init
pmm_init-IsReady {n} m fits = elim (Bool-cases (find_next_usable_region 0 m == length m)) [
  | inl no_region ↦ rw no_region (record {
    bounded = omega arith;
    usable = λ h. absurd (omega arith);
    from_base = λ h. absurd (omega arith);
    to_end = λ h. absurd (omega arith);
  })
  | inr found ↦ rw found (record {
    bounded = omega (arith, inside found);
    usable = λ _. (inside found).1;
    from_base = λ _. omega arith;
    to_end = λ _. fits.upright (find_next_usable_region 0 m);
  })
]
  where
    inside :
        (find_next_usable_region 0 m == length m) ≡ false
        → (find_next_usable_region 0 m < length m)
          × (usable_at m (find_next_usable_region 0 m) ≡ true)
    inside found = first_region m (ground arith)

-- The usable regions come in rising order and do not overlap, as the boot protocol promises.
abbrev pub Sorted : List MemmapEntry → Type 0
Sorted m =
    (i j : ℕ)
    → i < j
    → j < length m
    → usable_at m i ≡ true
    → usable_at m j ≡ true
    → end_at m i ≤ base_at m j
