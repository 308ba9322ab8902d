-- ===== src/Paging/Entry.antt =====
-- Page table entries and virtual addresses as 64-bit words: the bit functions of paging.c.
use hobby_os_kernel.Common.{
  ℕ, zero, suc, ◌+◌, ◌%◌, ◌^◌, bit_and, bit_or, Bool, true, false, not, ◌==◌, if◌then◌else◌, ◌<<◌,
}

-- A word in a boolean context.
abbrev pub nonzero : ℕ → Bool
nonzero x = not (x == 0)

unfoldable pub present : ℕ → Bool
present pte = nonzero (bit_and pte 1)

unfoldable pub writable : ℕ → Bool
writable pte = nonzero (bit_and pte (1 << 1))

unfoldable pub user_accessible : ℕ → Bool
user_accessible pte = nonzero (bit_and pte (1 << 2))

unfoldable pub accessed : ℕ → Bool
accessed pte = nonzero (bit_and pte (1 << 5))

unfoldable pub dirty : ℕ → Bool
dirty pte = nonzero (bit_and pte (1 << 6))

unfoldable pub no_execute : ℕ → Bool
no_execute pte = nonzero (bit_and pte (1 << 63))

-- `(temp << pos) & word`
unfoldable pub has_bit : ℕ → ℕ → Bool
has_bit word pos = nonzero (bit_and word (1 << pos))

-- The loop that `pte_get_addr` and `pte_make` share, from bit `pos` on for so many rounds: each bit
-- of `word` that is set is set in `acc`.
unfoldable pub copy_bits : ℕ → ℕ → ℕ → ℕ → ℕ
copy_bits zero pos word acc = acc
copy_bits (suc rounds) pos word acc =
    copy_bits rounds (pos + 1) word (if has_bit word pos then bit_or acc (1 << pos) else acc)

-- Bits 12 to 51.
unfoldable pub pte_get_addr : ℕ → ℕ
pte_get_addr pte = copy_bits 40 12 pte 0

unfoldable pub pte_make : ℕ → ℕ → ℕ
pte_make phys_addr flags = copy_bits 40 12 phys_addr flags

-- The loop of the four index functions, down from bit `low + rounds - 1` to bit `low`; `index` is a
-- `uint16_t`.
unfoldable pub index_bits : ℕ → ℕ → ℕ → ℕ → ℕ
index_bits zero low vaddr index = index
index_bits (suc rounds) low vaddr index =
    let shifted = (index << 1) % 2 ^ 16 in
    index_bits rounds low vaddr (if has_bit vaddr (low + rounds) then bit_or shifted 1 else shifted)

unfoldable pub pml4_index : ℕ → ℕ
pml4_index vaddr = index_bits 9 39 vaddr 0

unfoldable pub pdpt_index : ℕ → ℕ
pdpt_index vaddr = index_bits 9 30 vaddr 0

unfoldable pub pd_index : ℕ → ℕ
pd_index vaddr = index_bits 9 21 vaddr 0

unfoldable pub pt_index : ℕ → ℕ
pt_index vaddr = index_bits 9 12 vaddr 0

-- The loop of `is_canonical`: are the bits from `pos` on, so many, all `first_bit`?
unfoldable pub bits_equal : ℕ → ℕ → ℕ → Bool → Bool
bits_equal zero pos vaddr first_bit = true
bits_equal (suc rounds) pos vaddr true =
    if has_bit vaddr pos then bits_equal rounds (pos + 1) vaddr true else false
bits_equal (suc rounds) pos vaddr false =
    if has_bit vaddr pos then false else bits_equal rounds (pos + 1) vaddr false

unfoldable pub is_canonical : ℕ → Bool
is_canonical vaddr = bits_equal 17 47 vaddr (has_bit vaddr 47)
