-- ===== src/BootAlloc/Regions.antt =====
-- How `boot_alloc` moves from region to region, and what it promises of each result.
use hobby_os_kernel.Common.{
  ℕ, zero, suc, ◌+◌, ◌-◌, ◌^◌, ◌≤◌, ◌<◌, ◌≡◌, refl, ◌≢◌, ◌⊎◌, inl, inr, true, false, List, Option,
  none, some, arith, if◌then◌else◌, length, Bool-cases, subst, ℕ_discrete,
}
use hobby_os_kernel.BootAlloc.{
  MemmapEntry, Pmm, entry_count, usable_at, find_loop, find_next_usable_region, base_at, end_at,
  next_region,
}

find_loop_bounds :
    (rounds i : ℕ) (m : List MemmapEntry)
    → i + rounds ≡ length m
    → (i ≤ find_loop rounds i m) × (find_loop rounds i m ≤ length m)
unfolding find_loop
find_loop_bounds zero i m h = omega arith
find_loop_bounds (suc rounds) i m h = ground (arith, find_loop_bounds rounds (i + 1) m)

find_loop_usable :
    (rounds i : ℕ) (m : List MemmapEntry)
    → i + rounds ≡ length m
    → find_loop rounds i m < length m
    → usable_at m (find_loop rounds i m) ≡ true
unfolding find_loop
find_loop_usable zero i m e h = absurd (omega arith)
find_loop_usable (suc rounds) i m e h = elim (Bool-cases (usable_at m i)) [
  | inl u ↦ rw u u
  | inr u ↦ rw u (
      find_loop_usable rounds (i + 1) m (omega arith)
        (subst (λ b. (if b then i else find_loop rounds (i + 1) m) < length m) u h))
]

find_loop_skips :
    (rounds i j : ℕ) (m : List MemmapEntry)
    → i ≤ j
    → j < find_loop rounds i m
    → j < i + rounds
    → usable_at m j ≡ false
unfolding find_loop
find_loop_skips zero i j m h k b = absurd (omega arith)
find_loop_skips (suc rounds) i j m h k b = elim (Bool-cases (usable_at m i)) [
  | inl u ↦ absurd (not_before u k)
  | inr u ↦ elim (ℕ_discrete i j) [
    | yes e ↦ subst (λ t. usable_at m t ≡ false) e u
    | no ne ↦
        find_loop_skips rounds (i + 1) j m (omega arith)
          (subst (λ b. j < (if b then i else find_loop rounds (i + 1) m)) u k) (omega arith)
  ]
]
  where
    not_before :
        usable_at m i ≡ true → j < (if usable_at m i then i else find_loop rounds (i + 1) m) → ⊥
    not_before u k = ground arith

-- The memory map is sane: a region does not wrap, and `n` more bytes behind it do not either.
pub record MapFits (n : ℕ) (m : List MemmapEntry) : Type 0 where
  pub upright : (i : ℕ) → base_at m i ≤ end_at m i
  pub below_top : (i : ℕ) → end_at m i + n < 2 ^ 64

-- Between two calls: `next_free` lies in the current region, which is usable, or no region is left.
pub record IsReady (s : Pmm) : Type 0 where
  pub bounded : s.current_region ≤ entry_count s
  pub usable : s.current_region < entry_count s → usable_at s.memmap s.current_region ≡ true
  pub from_base : s.current_region < entry_count s → base_at s.memmap s.current_region ≤ s.next_free
  pub to_end : s.current_region < entry_count s → s.next_free ≤ end_at s.memmap s.current_region

-- The call returned `p`, and the `n` bytes from `p` on are new ones of one usable region.
pub record Grants (n : ℕ) (s : Pmm) (p : ℕ) (t : Pmm) : Type 0 where
  pub same_map : t.memmap ≡ s.memmap
  pub forward : s.current_region ≤ t.current_region
  pub region : t.current_region < entry_count s
  pub usable : usable_at s.memmap t.current_region ≡ true
  pub from_base : base_at s.memmap t.current_region ≤ p
  pub frontier : t.next_free ≡ p + n
  pub to_end : p + n ≤ end_at s.memmap t.current_region
  pub in_place : t.current_region ≡ s.current_region → p ≡ s.next_free

-- The call returned NULL, and neither the rest of the current region nor any later usable region
-- has `n` bytes.
pub record Refuses (n : ℕ) (s : Pmm) (p : ℕ) (t : Pmm) : Type 0 where
  pub same_map : t.memmap ≡ s.memmap
  pub null : p ≡ 0
  pub exhausted : t.current_region ≡ entry_count s
  pub no_room :
      s.current_region < entry_count s → end_at s.memmap s.current_region < s.next_free + n
  pub none_later :
      (i : ℕ)
      → s.current_region < i
      → i < entry_count s
      → usable_at s.memmap i ≡ true
      → end_at s.memmap i < base_at s.memmap i + n

-- A call returns, and grants or refuses.
abbrev pub Outcome : ℕ → Pmm → Option (ℕ × Pmm) → Type 0
Outcome n s none = ⊥
Outcome n s (some (p, t)) = Grants n s p t ⊎ Refuses n s p t

module _ (s : Pmm) (more : s.current_region < entry_count s) where
  pub next_region_bounds :
      (s.current_region < (next_region s).current_region)
      × ((next_region s).current_region ≤ entry_count s)
  unfolding next_region find_next_usable_region
  next_region_bounds = omega (
    arith,
    find_loop_bounds (length s.memmap - (s.current_region + 1)) (s.current_region + 1) s.memmap
        (omega arith),
  )

  pub next_region_usable :
      (next_region s).current_region < entry_count s
      → usable_at s.memmap (next_region s).current_region ≡ true
  unfolding next_region find_next_usable_region
  next_region_usable =
      find_loop_usable (length s.memmap - (s.current_region + 1)) (s.current_region + 1) s.memmap
        (omega arith)

  pub next_region_skips :
      (i : ℕ)
      → s.current_region < i
      → i < (next_region s).current_region
      → usable_at s.memmap i ≡ false
  unfolding next_region find_next_usable_region
  next_region_skips i h k =
      find_loop_skips (length s.memmap - (s.current_region + 1)) (s.current_region + 1) i s.memmap
        (omega arith) k (omega (arith, next_region_bounds))

  pub next_region_free :
      (next_region s).current_region < entry_count s
      → (next_region s).next_free ≡ base_at s.memmap (next_region s).current_region
  unfolding next_region
  next_region_free h = ground arith

  pub next_region_map : (next_region s).memmap ≡ s.memmap
  unfolding next_region
  next_region_map = refl

  pub next_region-IsReady : {n : ℕ} → MapFits n s.memmap → IsReady (next_region s)
  unfolding next_region
  next_region-IsReady fits = record {
    bounded = next_region_bounds.1;
    usable = next_region_usable;
    from_base = λ h. ground (arith, next_region_free h);
    to_end = λ h. ground (arith, next_region_free h, fits.upright (next_region s).current_region);
  }

pub first_region :
    (m : List MemmapEntry)
    → find_next_usable_region 0 m ≢ length m
    → (find_next_usable_region 0 m < length m) × (usable_at m (find_next_usable_region 0 m) ≡ true)
unfolding find_next_usable_region
first_region m ne = (inside, find_loop_usable (length m - 0) 0 m (omega arith) inside)
  where
    inside : find_loop (length m - 0) 0 m < length m
    inside = omega (arith, find_loop_bounds (length m - 0) 0 m (omega arith))
