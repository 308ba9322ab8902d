-- ===== src/Word.antt =====
-- Machine words: 64-bit wrap-around, and the alignment helpers that page_alloc.c, kheap.c, elf.c and
-- uaccess.c each define with the same body.
use hobby_os_kernel.Common.{
  ℕ, ◌+◌, ◌-◌, ◌*◌, ◌/◌, ◌%◌, ◌^◌, ◌<◌, bit_and, ◌≡◌, arith, bit_and_field,
}

abbrev pub u64 : ℕ → ℕ
u64 n = n % 2 ^ 64

-- `~x`
abbrev pub not64 : ℕ → ℕ
not64 x = 2 ^ 64 - 1 - x

-- `PGSIZE` of every file that declares it.
abbrev pub page_size : ℕ
page_size = 4096

unfoldable pub rounddown : ℕ → ℕ → ℕ
rounddown addr align = bit_and addr (not64 (align - 1))

unfoldable pub roundup : ℕ → ℕ → ℕ
roundup addr align = bit_and (u64 (addr + align - 1)) (not64 (align - 1))

pub rounddown_page : (a : ℕ) → a < 2 ^ 64 → rounddown a page_size ≡ a / 4096 * 4096
unfolding rounddown
rounddown_page a h = omega (arith, bit_and_field 52 12 a)

pub roundup_page : (a : ℕ) → a + 4095 < 2 ^ 64 → roundup a page_size ≡ (a + 4095) / 4096 * 4096
unfolding roundup
roundup_page a h = omega (arith, bit_and_field 52 12 (u64 (a + 4096 - 1)))

-- The step of the heap's sizes.
pub roundup_16 : (a : ℕ) → a + 15 < 2 ^ 64 → roundup a 16 ≡ (a + 15) / 16 * 16
unfolding roundup
roundup_16 a h = omega (arith, bit_and_field 60 4 (u64 (a + 16 - 1)))
