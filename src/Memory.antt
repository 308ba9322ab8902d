-- ===== src/Memory.antt =====
-- memory.c over a byte-addressed memory, and the 64-bit loads and stores that page tables need.
-- An object never wraps round the address space. The pointer that the copying functions return is
-- always their first argument, and is left out.
pub mod Copy
pub mod Compare
pub mod Words
use hobby_os_kernel.Common.{ℕ, zero, suc, ◌+◌, ◌*◌, ◌/◌, ◌%◌, ◌^◌, Bool, if◌then◌else◌, ◌==◌, ltb}

-- The byte at each address.
abbrev pub Mem : Type 0
Mem = ℕ → ℕ

-- `*(uint8_t *)p = v`
abbrev pub store8 : Mem → ℕ → ℕ → Mem
store8 m p v q = if q == p then v else m q

-- `for (i = i; i < i + rounds; i++) pdest[i] = psrc[i];`
pub copy_up : ℕ → ℕ → ℕ → ℕ → Mem → Mem
copy_up zero i dest src m = m
copy_up (suc rounds) i dest src m =
    copy_up rounds (i + 1) dest src (store8 m (dest + i) (m (src + i)))

-- `for (i = n; i > 0; i--) pdest[i-1] = psrc[i-1];`
pub copy_down : ℕ → ℕ → ℕ → Mem → Mem
copy_down zero dest src m = m
copy_down (suc i) dest src m = copy_down i dest src (store8 m (dest + i) (m (src + i)))

pub memcpy : ℕ → ℕ → ℕ → Mem → Mem
memcpy dest src n m = copy_up n 0 dest src m

pub memmove : ℕ → ℕ → ℕ → Mem → Mem
memmove dest src n m =
    if ltb dest src
    then copy_up n 0 dest src m
    else if ltb src dest
    then copy_down n dest src m
    else m

-- `for (i = i; i < i + rounds; i++) p[i] = c;`
pub fill : ℕ → ℕ → ℕ → ℕ → Mem → Mem
fill zero i s c m = m
fill (suc rounds) i s c m = fill rounds (i + 1) s c (store8 m (s + i) c)

pub memset : ℕ → ℕ → ℕ → Mem → Mem
memset s c n m = fill n 0 s (c % 256) m

-- The results -1, 0 and 1 of `memcmp`.
pub data Verdict : Type 0 where
  below same above : Verdict

pub compare_bytes : ℕ → ℕ → ℕ → ℕ → Mem → Verdict
compare_bytes zero i s1 s2 m = same
compare_bytes (suc rounds) i s1 s2 m =
    let rest = compare_bytes rounds (i + 1) s1 s2 m in
    if m (s1 + i) == m (s2 + i)
    then rest
    else if ltb (m (s1 + i)) (m (s2 + i))
    then below
    else above

pub memcmp : ℕ → ℕ → ℕ → Mem → Verdict
memcmp s1 s2 n m = compare_bytes n 0 s1 s2 m

-- Little-endian words of `n` bytes.
unfoldable pub load_bytes : ℕ → ℕ → Mem → ℕ
load_bytes zero a m = 0
load_bytes (suc n) a m = m a + 256 * load_bytes n (a + 1) m

pub store_bytes : ℕ → ℕ → ℕ → Mem → Mem
store_bytes zero a v m = m
store_bytes (suc n) a v m = store_bytes n (a + 1) (v / 256) (store8 m a (v % 256))

-- `*(uint64_t *)a`
unfoldable pub load64 : Mem → ℕ → ℕ
load64 m a = load_bytes 8 a m

pub store64 : Mem → ℕ → ℕ → Mem
store64 m a v = store_bytes 8 a v m
