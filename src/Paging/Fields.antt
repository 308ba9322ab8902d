-- ===== src/Paging/Fields.antt =====
-- What the loops over single bits compute: fields of the word.
use hobby_os_kernel.Common.{
  ℕ, zero, suc, ◌+◌, ◌*◌, ◌%◌, ◌^◌, ◌≤◌, ◌<◌, ◌≡◌, refl, ap, ◌↔◌, inl, inr, true, false, not, arith,
  ◌==◌, ◌<<◌, ◌>>◌, Bool-cases, bit_and_field, bit_or-one, bit_or_fields, pow_next, mod-pow_suc,
  mod-pow_top, shift_add, shift-one, pow_pos,
}
use native.Mathlib.Nat.{pow-suc, mod-lt, mod-one, zero-mul}
use hobby_os_kernel.Paging.Entry.{
  has_bit, copy_bits, pte_get_addr, pte_make, index_bits, pml4_index, pdpt_index, pd_index,
  pt_index, bits_equal,
}

-- A single bit as a digit.
abbrev pub digit : ℕ → ℕ → ℕ
digit word pos = word >> pos % 2

digit-nonzero : (d p : ℕ) → d < 2 → 0 < p → not (d * p == 0) ≡ (d == 1)
digit-nonzero zero p h pos = rw (zero-mul p)
digit-nonzero (suc zero) p h pos = ground arith
digit-nonzero (suc (suc d)) p h pos = absurd (omega arith)

pub has_bit-digit : (word pos : ℕ) → has_bit word pos ≡ (digit word pos == 1)
unfolding has_bit
has_bit-digit word pos =
    rw (bit_and_field 1 pos word)
      (digit-nonzero (digit word pos) (2 ^ pos) (omega arith) (pow_pos pos))

pub digit_of_set : (word pos : ℕ) → has_bit word pos ≡ true → digit word pos ≡ 1
digit_of_set word pos e = ground (arith, has_bit-digit word pos)

pub digit_of_clear : (word pos : ℕ) → has_bit word pos ≡ false → digit word pos ≡ 0
digit_of_clear word pos e = ground (arith, has_bit-digit word pos)

-- Bit `pos` and the field above it make up the field from `pos` on.
field_split :
    (rounds pos word : ℕ)
    → (word >> pos % 2 ^ suc rounds) << pos
      ≡ digit word pos << pos + (word >> (pos + 1) % 2 ^ rounds) << (pos + 1)
field_split rounds pos word =
    rw (mod-pow_suc (word >> pos) rounds, shift-one word pos, pow_next pos) (omega arith)

copy_bits_lem :
    (rounds pos word acc : ℕ)
    → acc < 2 ^ pos
    → copy_bits rounds pos word acc ≡ acc + (word >> pos % 2 ^ rounds) << pos
unfolding copy_bits
copy_bits_lem zero pos word acc h = rw (mod-one (word >> pos), zero-mul (2 ^ pos)) (omega arith)
copy_bits_lem (suc rounds) pos word acc h = elim (Bool-cases (has_bit word pos)) [
  | inl e ↦
      rw (e, bit_or_fields pos 1 acc h)
        (omega (
          arith,
          pow_next pos,
          copy_bits_lem rounds (pos + 1) word (acc + 1 << pos) (omega (arith, pow_next pos)),
          field_split rounds pos word,
          ap (λ (t : ℕ). t << pos) (digit_of_set word pos e),
        ))
  | inr e ↦ rw e (
      omega (
        arith,
        copy_bits_lem rounds (pos + 1) word acc (omega (arith, pow_next pos)),
        field_split rounds pos word,
        ap (λ (t : ℕ). t << pos) (digit_of_clear word pos e),
      ))
]

-- `pte_get_addr` keeps bits 12 to 51.
pub pte_get_addr-field : (pte : ℕ) → pte_get_addr pte ≡ (pte >> 12 % 2 ^ 40) << 12
unfolding pte_get_addr
pte_get_addr-field pte = omega (arith, copy_bits_lem 40 12 pte 0 (omega arith))

-- `pte_make` puts bits 12 to 51 of the address above the flags.
pub pte_make-fields :
    (phys flags : ℕ) → flags < 2 ^ 12 → pte_make phys flags ≡ flags + (phys >> 12 % 2 ^ 40) << 12
unfolding pte_make
pte_make-fields phys flags h = copy_bits_lem 40 12 phys flags h

-- While the whole index fits a `uint16_t`, the shift loses nothing.
room : (rounds index : ℕ) → (index + 1) << suc rounds ≤ 2 ^ 16 → index << 1 + 2 ≤ 2 ^ 16
room rounds index h = grind (arith, pow-suc 2 rounds, pow_pos rounds)

shift-no_wrap :
    (rounds index : ℕ) → (index + 1) << suc rounds ≤ 2 ^ 16 → index << 1 % 2 ^ 16 ≡ index << 1
shift-no_wrap rounds index h = omega (arith, room rounds index h)

-- The highest bit of a field, and what is below it.
field_top :
    (rounds low word : ℕ)
    → word >> low % 2 ^ suc rounds ≡ digit word (low + rounds) << rounds + word >> low % 2 ^ rounds
field_top rounds low word = rw (shift_add word low rounds) (mod-pow_top (word >> low) rounds)

index_bits_lem :
    (rounds low vaddr index : ℕ)
    → (index + 1) << rounds ≤ 2 ^ 16
    → index_bits rounds low vaddr index ≡ index << rounds + vaddr >> low % 2 ^ rounds
unfolding index_bits
index_bits_lem zero low vaddr index h = rw (mod-one (vaddr >> low)) (omega arith)
index_bits_lem (suc rounds) low vaddr index h = elim (Bool-cases (has_bit vaddr (low + rounds))) [
  | inl e ↦
      rw (e, shift-no_wrap rounds index h, bit_or-one index)
        (omega (
          arith,
          pow-suc 2 rounds,
          ap (λ (t : ℕ). (index + 1) * t) (pow-suc 2 rounds),
          index_bits_lem rounds low vaddr (index << 1 + 1)
              (omega (arith, ap (λ (t : ℕ). (index + 1) * t) (pow-suc 2 rounds))),
          field_top rounds low vaddr,
          ap (λ (t : ℕ). t << rounds) (digit_of_set vaddr (low + rounds) e),
        ))
  | inr e ↦
      rw (e, shift-no_wrap rounds index h)
        (omega (
          arith,
          pow-suc 2 rounds,
          ap (λ (t : ℕ). (index + 1) * t) (pow-suc 2 rounds),
          index_bits_lem rounds low vaddr (index << 1)
              (omega (arith, ap (λ (t : ℕ). (index + 1) * t) (pow-suc 2 rounds))),
          field_top rounds low vaddr,
          ap (λ (t : ℕ). t << rounds) (digit_of_clear vaddr (low + rounds) e),
        ))
]

-- Each index function cuts its nine bits out of the address.
pub index-fields :
    (vaddr : ℕ)
    → (pml4_index vaddr ≡ vaddr >> 39 % 512)
      × (pdpt_index vaddr ≡ vaddr >> 30 % 512)
      × (pd_index vaddr ≡ vaddr >> 21 % 512)
      × (pt_index vaddr ≡ vaddr >> 12 % 512)
unfolding pml4_index pdpt_index pd_index pt_index
index-fields vaddr = (field 39, field 30, field 21, field 12)
  where
    field : (low : ℕ) → index_bits 9 low vaddr 0 ≡ vaddr >> low % 512
    field low = omega (arith, index_bits_lem 9 low vaddr 0 (omega arith))

pub bits_equal-clear :
    (rounds pos vaddr : ℕ)
    → (bits_equal rounds pos vaddr false ≡ true) ↔ (vaddr >> pos % 2 ^ rounds ≡ 0)
unfolding bits_equal
bits_equal-clear zero pos vaddr = ((λ _. mod-one (vaddr >> pos)), λ _. refl)
bits_equal-clear (suc rounds) pos vaddr = ground (
  arith,
  has_bit-digit vaddr pos,
  bits_equal-clear rounds (pos + 1) vaddr,
  mod-pow_suc (vaddr >> pos) rounds,
  shift-one vaddr pos,
)

pub bits_equal-set :
    (rounds pos vaddr : ℕ)
    → (bits_equal rounds pos vaddr true ≡ true) ↔ (vaddr >> pos % 2 ^ rounds + 1 ≡ 2 ^ rounds)
unfolding bits_equal
bits_equal-set zero pos vaddr = ((λ _. omega (arith, mod-one (vaddr >> pos))), λ _. refl)
bits_equal-set (suc rounds) pos vaddr = ground (
  arith,
  has_bit-digit vaddr pos,
  bits_equal-set rounds (pos + 1) vaddr,
  mod-pow_suc (vaddr >> pos) rounds,
  mod-lt (vaddr >> (pos + 1)) (pow_pos rounds),
  shift-one vaddr pos,
  pow-suc 2 rounds,
)
