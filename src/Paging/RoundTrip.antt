-- ===== src/Paging/RoundTrip.antt =====
-- Entries and addresses taken apart and put together again.
use hobby_os_kernel.Common.{
  ℕ, ◌+◌, ◌*◌, ◌/◌, ◌%◌, ◌^◌, ◌<◌, bit_and, bit_or, ◌≡◌, ap, arith, ◌<<◌, bit_and_field,
  bit_and-low, bit_or_above,
}
use hobby_os_kernel.Paging.Entry.{
  nonzero, pte_get_addr, pte_make, pml4_index, pdpt_index, pd_index, pt_index, present, writable,
  user_accessible,
}
use hobby_os_kernel.Paging.Fields.{pte_get_addr-field, pte_make-fields, index-fields}

-- A physical address that an entry can hold: page-aligned, and below 2 ^ 52.
pub record IsFrameAddress (phys : ℕ) : Type 0 where
  pub aligned : phys % 4096 ≡ 0
  pub small : phys < 2 ^ 52

pub pte_make-sum :
    {phys : ℕ} (flags : ℕ)
    → IsFrameAddress phys
    → flags < 2 ^ 12
    → pte_make phys flags ≡ flags + phys
pte_make-sum {phys} flags a h = omega (arith, pte_make-fields phys flags h)

-- An entry made from a page-aligned address below 2 ^ 52 and twelve flag bits gives both back: the
-- address by `pte_get_addr`, and the flags by the mask 0xFFF.
pub pte_make_round_trip :
    {phys : ℕ} (flags : ℕ)
    → IsFrameAddress phys
    → flags < 2 ^ 12
    → (pte_get_addr (pte_make phys flags) ≡ phys) × (bit_and (pte_make phys flags) 0xFFF ≡ flags)
pte_make_round_trip {phys} flags a h = omega (
  arith,
  pte_make-sum flags a h,
  pte_get_addr-field (pte_make phys flags),
  bit_and-low 12 (pte_make phys flags),
)

-- The flag tests of an entry read the flags that it was made with.
pub pte_make-flags :
    {phys : ℕ} (flags : ℕ)
    → IsFrameAddress phys
    → flags < 2 ^ 12
    → (present (pte_make phys flags) ≡ present flags)
      × (writable (pte_make phys flags) ≡ writable flags)
      × (user_accessible (pte_make phys flags) ≡ user_accessible flags)
unfolding present writable user_accessible
pte_make-flags {phys} flags a h = (
  ap nonzero (omega (arith, sum, bit_and_field 1 0 (pte_make phys flags), bit_and_field 1 0 flags)),
  ap nonzero (omega (arith, sum, bit_and_field 1 1 (pte_make phys flags), bit_and_field 1 1 flags)),
  ap nonzero (omega (arith, sum, bit_and_field 1 2 (pte_make phys flags), bit_and_field 1 2 flags)),
)
  where
    sum : pte_make phys flags ≡ flags + phys
    sum = pte_make-sum flags a h

-- The address that the four-level walk with these indices translates, as the copy loop builds it.
unfoldable pub compose_vaddr : ℕ → ℕ → ℕ → ℕ → ℕ
compose_vaddr i4 i3 i2 i1 = bit_or (bit_or (bit_or (i4 << 39) (i3 << 30)) (i2 << 21)) (i1 << 12)

compose_vaddr-sum :
    (i4 i3 i2 i1 : ℕ)
    → i3 < 512
    → i2 < 512
    → i1 < 512
    → compose_vaddr i4 i3 i2 i1 ≡ i4 << 39 + i3 << 30 + i2 << 21 + i1 << 12
unfolding compose_vaddr
compose_vaddr-sum i4 i3 i2 i1 h3 h2 h1 =
    rw
      (
        bit_or_above 39 i4 (i3 << 30) (omega arith),
        upper,
        bit_or_above 30 (i4 << 9 + i3) (i2 << 21) (omega arith),
        middle,
        bit_or_above 21 (i4 << 18 + i3 << 9 + i2) (i1 << 12) (omega arith),
      )
      (omega arith)
  where
    upper : i4 << 39 + i3 << 30 ≡ (i4 << 9 + i3) << 30
    upper = omega arith

    middle : (i4 << 9 + i3) << 30 + i2 << 21 ≡ (i4 << 18 + i3 << 9 + i2) << 21
    middle = omega arith

-- The address composed from four indices below 512 has these indices, and no page offset.
pub compose_vaddr-indices :
    (i4 i3 i2 i1 : ℕ)
    → i4 < 512
    → i3 < 512
    → i2 < 512
    → i1 < 512
    → let v = compose_vaddr i4 i3 i2 i1 in
      (pml4_index v ≡ i4)
      × (pdpt_index v ≡ i3)
      × (pd_index v ≡ i2)
      × (pt_index v ≡ i1)
      × (v % 4096 ≡ 0)
compose_vaddr-indices i4 i3 i2 i1 h4 h3 h2 h1 =
    omega (arith, compose_vaddr-sum i4 i3 i2 i1 h3 h2 h1, index-fields (compose_vaddr i4 i3 i2 i1))

-- An address below 2 ^ 48 is its four indices and its page offset.
pub indices-compose_vaddr :
    (vaddr : ℕ)
    → vaddr < 2 ^ 48
    → compose_vaddr (pml4_index vaddr) (pdpt_index vaddr) (pd_index vaddr) (pt_index vaddr)
      ≡ vaddr / 4096 * 4096
indices-compose_vaddr vaddr h = omega (
  arith,
  index-fields vaddr,
  compose_vaddr-sum (pml4_index vaddr) (pdpt_index vaddr) (pd_index vaddr) (pt_index vaddr)
      (omega (arith, index-fields vaddr)) (omega (arith, index-fields vaddr))
      (omega (arith, index-fields vaddr)),
)
