-- ===== src/Memory/Words.antt =====
-- Words in memory: what is loaded after a store.
use hobby_os_kernel.Common.{ℕ, zero, suc, ◌+◌, ◌/◌, ◌%◌, ◌^◌, ◌≤◌, ◌<◌, ◌≡◌, refl, ◌⊎◌, arith}
use native.Mathlib.Nat.{pow-suc}
use hobby_os_kernel.Memory.{Mem, store8, load_bytes, store_bytes, load64, store64}

store_bytes-outside :
    (n a v : ℕ) (m : Mem) (q : ℕ) → (q < a) ⊎ (a + n ≤ q) → store_bytes n a v m q ≡ m q
unfolding store_bytes
store_bytes-outside zero a v m q h = refl
store_bytes-outside (suc n) a v m q h =
    ground (arith, store_bytes-outside n (a + 1) (v / 256) (store8 m a (v % 256)) q)

load_bytes-store_bytes_ne :
    (k n b a v : ℕ) (m : Mem)
    → (b + k ≤ a) ⊎ (a + n ≤ b)
    → load_bytes k b (store_bytes n a v m) ≡ load_bytes k b m
unfolding load_bytes
load_bytes-store_bytes_ne zero n b a v m h = refl
load_bytes-store_bytes_ne (suc k) n b a v m h =
    ground (arith, store_bytes-outside n a v m b, load_bytes-store_bytes_ne k n (b + 1) a v m)

load_bytes-store_bytes :
    (n a v : ℕ) (m : Mem) → v < 256 ^ n → load_bytes n a (store_bytes n a v m) ≡ v
unfolding load_bytes store_bytes
load_bytes-store_bytes zero a v m h = omega arith
load_bytes-store_bytes (suc n) a v m h = ground (
  arith,
  pow-suc 256 n,
  store_bytes-outside n (a + 1) (v / 256) (store8 m a (v % 256)) a,
  load_bytes-store_bytes n (a + 1) (v / 256) (store8 m a (v % 256)),
)

-- A 64-bit word is read back as it was stored.
pub load64-store64_self : (m : Mem) (a v : ℕ) → v < 2 ^ 64 → load64 (store64 m a v) a ≡ v
unfolding load64 store64
load64-store64_self m a v h = load_bytes-store_bytes 8 a v m h

-- A store leaves a word that does not overlap alone.
pub load64-store64_ne :
    (m : Mem) (a b v : ℕ) → (b + 8 ≤ a) ⊎ (a + 8 ≤ b) → load64 (store64 m a v) b ≡ load64 m b
unfolding load64 store64
load64-store64_ne m a b v h = load_bytes-store_bytes_ne 8 8 b a v m h

-- A store changes eight bytes.
pub store64-outside : (m : Mem) (a v q : ℕ) → (q < a) ⊎ (a + 8 ≤ q) → store64 m a v q ≡ m q
unfolding store64
store64-outside m a v q h = store_bytes-outside 8 a v m q h

load_bytes-cong :
    (n a : ℕ) (m m' : Mem)
    → ((q : ℕ) → a ≤ q → q < a + n → m' q ≡ m q)
    → load_bytes n a m' ≡ load_bytes n a m
unfolding load_bytes
load_bytes-cong zero a m m' h = refl
load_bytes-cong (suc n) a m m' h = omega (
  arith,
  h a (omega arith) (omega arith),
  load_bytes-cong n (a + 1) m m' (λ q k l. h q (omega arith) (omega arith)),
)

load_bytes-clear :
    (n a : ℕ) (m : Mem) → ((q : ℕ) → a ≤ q → q < a + n → m q ≡ 0) → load_bytes n a m ≡ 0
unfolding load_bytes
load_bytes-clear zero a m h = refl
load_bytes-clear (suc n) a m h = omega (
  arith,
  h a (omega arith) (omega arith),
  load_bytes-clear n (a + 1) m (λ q k l. h q (omega arith) (omega arith)),
)

-- A word depends on its eight bytes.
pub load64-cong :
    (a : ℕ) (m m' : Mem) → ((q : ℕ) → a ≤ q → q < a + 8 → m' q ≡ m q) → load64 m' a ≡ load64 m a
unfolding load64
load64-cong a m m' h = load_bytes-cong 8 a m m' h

pub load64-clear : (a : ℕ) (m : Mem) → ((q : ℕ) → a ≤ q → q < a + 8 → m q ≡ 0) → load64 m a ≡ 0
unfolding load64
load64-clear a m h = load_bytes-clear 8 a m h

load_bytes-shift :
    (n a b : ℕ) (m m' : Mem)
    → ((i : ℕ) → i < n → m' (a + i) ≡ m (b + i))
    → load_bytes n a m' ≡ load_bytes n b m
unfolding load_bytes
load_bytes-shift zero a b m m' h = refl
load_bytes-shift (suc n) a b m m' h = omega (
  arith,
  at 0 a b (omega arith) (omega arith) (omega arith),
  load_bytes-shift n (a + 1) (b + 1) m m'
      λ i l. at (suc i) (a + 1 + i) (b + 1 + i) (omega arith) (omega arith) (omega arith),
)
  where
    at : (i x y : ℕ) → x ≡ a + i → y ≡ b + i → i < suc n → m' x ≡ m y
    at i x y ex ey l = rw (ex, ey) (h i l)

-- Equal bytes at two places make equal words.
pub load64-shift :
    (a b : ℕ) (m m' : Mem) → ((i : ℕ) → i < 8 → m' (a + i) ≡ m (b + i)) → load64 m' a ≡ load64 m b
unfolding load64
load64-shift a b m m' h = load_bytes-shift 8 a b m m' h
