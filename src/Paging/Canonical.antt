-- ===== src/Paging/Canonical.antt =====
-- Which addresses `is_canonical` accepts.
use hobby_os_kernel.Common.{ℕ, ◌-◌, ◌^◌, ◌≤◌, ◌<◌, ◌≡◌, ◌↔◌, ◌⊎◌, inl, inr, true, arith, Bool-cases}
use hobby_os_kernel.Paging.Entry.{has_bit, is_canonical, pml4_index}
use hobby_os_kernel.Paging.Fields.{
  bits_equal-clear, bits_equal-set, digit_of_set, digit_of_clear, index-fields,
}

-- The lower half, or the upper half, of the 48-bit address space.
abbrev pub LowerHalf : ℕ → Type 0
LowerHalf vaddr = vaddr < 2 ^ 47

abbrev pub UpperHalf : ℕ → Type 0
UpperHalf vaddr = 2 ^ 64 - 2 ^ 47 ≤ vaddr

-- `is_canonical` accepts a 64-bit address exactly when it lies in the lower or in the upper half.
pub is_canonical_iff :
    (vaddr : ℕ) → vaddr < 2 ^ 64 → (is_canonical vaddr ≡ true) ↔ (LowerHalf vaddr ⊎ UpperHalf vaddr)
unfolding is_canonical
is_canonical_iff vaddr h = elim (Bool-cases (has_bit vaddr 47)) [
  | inl e ↦ ground (arith, digit_of_set vaddr 47, bits_equal-set 17 47 vaddr)
  | inr e ↦ ground (arith, digit_of_clear vaddr 47, bits_equal-clear 17 47 vaddr)
]

-- A canonical address is in the user half exactly when its top-level index is below 256.
pub canonical-user_iff :
    (vaddr : ℕ)
    → vaddr < 2 ^ 64
    → is_canonical vaddr ≡ true
    → (pml4_index vaddr < 256) ↔ LowerHalf vaddr
canonical-user_iff vaddr h c = ground (arith, is_canonical_iff vaddr h, index-fields vaddr)
