-- ===== src/Memory/Copy.antt =====
-- What the copying and filling functions leave in memory.
use hobby_os_kernel.Common.{
  ℕ, zero, suc, ◌+◌, ◌-◌, ◌%◌, ◌≤◌, ◌≡◌, ◌⊎◌, Bool, ◌&&◌, arith, leb, ltb, if◌then◌else◌,
}
use hobby_os_kernel.Memory.{Mem, store8, copy_up, copy_down, memcpy, memmove, fill, memset}

-- Is `q` one of the `n` addresses from `a` on?
abbrev pub within : ℕ → ℕ → ℕ → Bool
within a n q = leb a q && ltb q (a + n)

-- The memory after the `n` bytes from `src` were copied to `dest`, all at once.
abbrev pub copied : ℕ → ℕ → ℕ → Mem → Mem
copied dest src n m q = if within dest n q then m (src + (q - dest)) else m q

-- Upwards, a byte is read before it is overwritten if the target does not start inside the source
-- behind its first byte.
copy_up_lem :
    (rounds i dest src : ℕ) (m : Mem) (q : ℕ)
    → (dest ≤ src) ⊎ (src + i + rounds ≤ dest)
    → copy_up rounds i dest src m q
      ≡ (if within (dest + i) rounds q then m (src + (q - dest)) else m q)
unfolding copy_up
copy_up_lem zero i dest src m q h = ground arith
copy_up_lem (suc rounds) i dest src m q h =
    ground (arith, copy_up_lem rounds (i + 1) dest src (store8 m (dest + i) (m (src + i))) q)

copy_down_lem :
    (n dest src : ℕ) (m : Mem) (q : ℕ)
    → src ≤ dest
    → copy_down n dest src m q ≡ copied dest src n m q
unfolding copy_down
copy_down_lem zero dest src m q h = ground arith
copy_down_lem (suc i) dest src m q h =
    ground (arith, copy_down_lem i dest src (store8 m (dest + i) (m (src + i))) q)

-- `memmove` copies the source as it was before the call, however the two ranges overlap, and
-- changes no other byte.
pub memmove_lem :
    (dest src n : ℕ) (m : Mem) (q : ℕ) → memmove dest src n m q ≡ copied dest src n m q
unfolding memmove
memmove_lem dest src n m q =
    ground (arith, copy_up_lem n 0 dest src m q, copy_down_lem n dest src m q)

-- `memcpy` does the same for ranges that do not overlap.
pub memcpy_lem :
    (dest src n : ℕ) (m : Mem) (q : ℕ)
    → (dest + n ≤ src) ⊎ (src + n ≤ dest)
    → memcpy dest src n m q ≡ copied dest src n m q
unfolding memcpy
memcpy_lem dest src n m q h = ground (arith, copy_up_lem n 0 dest src m q)

pub fill_lem :
    (rounds i s c : ℕ) (m : Mem) (q : ℕ)
    → fill rounds i s c m q ≡ (if within (s + i) rounds q then c else m q)
unfolding fill
fill_lem zero i s c m q = ground arith
fill_lem (suc rounds) i s c m q = ground (arith, fill_lem rounds (i + 1) s c (store8 m (s + i) c) q)

-- `memset` writes the low byte of its argument to the range and to nothing else.
pub memset_lem :
    (s c n : ℕ) (m : Mem) (q : ℕ) → memset s c n m q ≡ (if within s n q then c % 256 else m q)
unfolding memset
memset_lem s c n m q = ground (arith, fill_lem n 0 s (c % 256) m q)
