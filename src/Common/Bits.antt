-- ===== src/Common/Bits.antt =====
-- `&` and `|` at variables: the law for the lowest digit, and fields of any width.
mod Step
use Step.{and_step, or_step}
use Prim.Native.Nat.{ℕ, zero, suc, ◌+◌, ◌-◌, ◌*◌, ◌/◌, ◌%◌, ◌^◌, ◌≤◌, ◌<◌, bit_and, bit_or}
use Prim.Native.Nat.{bit_and-bitwise, bit_or-bitwise}
use mathlib.Core.Path.{◌≡◌, refl, sym, ap, ◌∙◌}
use mathlib.Core.WellFounded
use native.Mathlib.Nat.{
  pow-suc, one-le-pow, div-div-eq-div-mul, mod-lt, mod-eq_of_lt, mul-add-mod_self_left, div-add-mod,
  mul_comm, mul-one, div-one, zero-add, suc-add,
}
use native.Mathlib.Omega.{arith}
use native.Mathlib.Numerals.{add-one}
use hobby_os_kernel.Common.Order.{lt_wf}

infixl 71 ◌<<◌ ◌>>◌
abbrev pub ◌<<◌ : ℕ → ℕ → ℕ
x << k = x * 2 ^ k

abbrev pub ◌>>◌ : ℕ → ℕ → ℕ
x >> k = x / 2 ^ k

double_pow : (q k : ℕ) → q * 2 ^ suc k ≡ 2 * (q * 2 ^ k)
double_pow q k = omega (arith, ap (λ (t : ℕ). q * t) (pow-suc 2 k))

-- Strong induction, since an operation goes from a number to its half.
with_zero : (a : ℕ) → (bit_and a 0 ≡ 0) × (bit_or a 0 ≡ a)
with_zero a =
    WellFounded.induction lt_wf {C = λ x. (bit_and x 0 ≡ 0) × (bit_or x 0 ≡ x)} a
      λ x below. by_half x below
  where
    by_half :
        (x : ℕ)
        → ((y : ℕ) → y < x → (bit_and y 0 ≡ 0) × (bit_or y 0 ≡ y))
        → (bit_and x 0 ≡ 0) × (bit_or x 0 ≡ x)
    by_half zero below = (refl, refl)
    by_half (suc x) below =
        let half = below (suc x / 2) (omega arith) in
        (omega (half.0, and_step (suc x) 0, arith), omega (half.1, or_step (suc x) 0, arith))

bit_and-zero : (a : ℕ) → bit_and a 0 ≡ 0
bit_and-zero a = (with_zero a).0

zero-bit_and : (b : ℕ) → bit_and 0 b ≡ 0
zero-bit_and b = bit_and-bitwise 0 b

pub bit_and_comm : (a b : ℕ) → bit_and a b ≡ bit_and b a
bit_and_comm a = WellFounded.induction lt_wf {C = λ n. (b : ℕ) → bit_and n b ≡ bit_and b n} a step
  where
    step :
        (n : ℕ)
        → ((m : ℕ) → m < n → (b : ℕ) → bit_and m b ≡ bit_and b m)
        → (b : ℕ) → bit_and n b ≡ bit_and b n
    step zero ih b = omega (arith, zero-bit_and b, bit_and-zero b)
    step (suc n) ih b =
        omega (arith, and_step (suc n) b, and_step b (suc n), ih (suc n / 2) (omega arith) (b / 2))

bit_or-zero : (a : ℕ) → bit_or a 0 ≡ a
bit_or-zero a = (with_zero a).1

zero-bit_or : (b : ℕ) → bit_or 0 b ≡ b
zero-bit_or b = bit_or-bitwise 0 b

pub pow_pos : (k : ℕ) → 0 < 2 ^ k
pow_pos k = one-le-pow k 2 (omega arith)

pub pow_next : (k : ℕ) → 2 ^ (k + 1) ≡ 2 * 2 ^ k
pow_next k = rw (add-one k, pow-suc 2 k) (mul_comm (2 ^ k) 2)

half_mask : (k : ℕ) → (2 ^ suc k - 1) / 2 ≡ 2 ^ k - 1
half_mask k = omega (arith, pow-suc 2 k, pow_pos k)

half_double : (t : ℕ) → 2 * t / 2 ≡ t
half_double t = omega arith

-- The remainder by an even number, from the lowest digit up.
mod_double : (a m : ℕ) → 0 < m → a % (2 * m) ≡ a / 2 % m * 2 + a % 2
mod_double a m h =
    ap (λ t. t % (2 * m)) parts
    ∙ mul-add-mod_self_left (2 * m) (a / 2 / m) low
    ∙ mod-eq_of_lt (omega (arith, mod-lt (a / 2) h))
  where
    low : ℕ
    low = a / 2 % m * 2 + a % 2

    parts : a ≡ 2 * m * (a / 2 / m) + low
    parts = omega (arith, div-add-mod (a / 2) m)

pub mod-pow_suc : (a k : ℕ) → a % 2 ^ suc k ≡ a / 2 % 2 ^ k * 2 + a % 2
mod-pow_suc a k = rw (pow-suc 2 k, mul_comm (2 ^ k) 2) (mod_double a (2 ^ k) (pow_pos k))

-- A mask of low bits is a remainder.
pub bit_and-low : (k a : ℕ) → bit_and a (2 ^ k - 1) ≡ a % 2 ^ k
bit_and-low zero a = omega (arith, bit_and-zero a)
bit_and-low (suc k) a =
    rw (and_step a (2 ^ suc k - 1), half_mask k, bit_and-low k (a / 2), mod-pow_suc a k)
      (omega (arith, pow-suc 2 k, pow_pos k))

shift_suc : (a k : ℕ) → a >> suc k ≡ (a / 2) >> k
shift_suc a k = rw (pow-suc 2 k, mul_comm (2 ^ k) 2) (sym (div-div-eq-div-mul a 2 (2 ^ k)))

-- A mask of `m` bits from bit `k` on cuts out that field.
pub bit_and_field : (m k a : ℕ) → bit_and a ((2 ^ m - 1) << k) ≡ ((a >> k) % 2 ^ m) << k
bit_and_field m zero a = rw (mul-one (2 ^ m - 1), div-one a, mul-one (a % 2 ^ m)) (bit_and-low m a)
bit_and_field m (suc k) a =
    rw
      (
        and_step a ((2 ^ m - 1) << suc k),
        double_pow (2 ^ m - 1) k,
        half_double ((2 ^ m - 1) << k),
        bit_and_field m k (a / 2),
        shift_suc a k,
        double_pow ((a / 2) >> k % 2 ^ m) k,
      )
      (omega arith)

-- Disjoint fields are joined by a sum.
pub bit_or_fields : (k q r : ℕ) → r < 2 ^ k → bit_or r (q << k) ≡ r + q << k
bit_or_fields zero q zero fits = omega (arith, zero-bit_or (q * 1))
bit_or_fields zero q (suc r) fits = absurd (omega arith)
bit_or_fields (suc k) q r fits =
    rw
      (
        or_step r (q << suc k),
        double_pow q k,
        half_double (q << k),
        bit_or_fields k q (r / 2) (omega (arith, pow-suc 2 k)),
      )
      (omega arith)

pub shift_add : (a k l : ℕ) → a >> (k + l) ≡ a >> k >> l
shift_add a zero l = rw (zero-add l, div-one a)
shift_add a (suc k) l = rw (suc-add k l, shift_suc a (k + l), shift_suc a k) (shift_add (a / 2) k l)

pub shift-one : (a k : ℕ) → a >> (k + 1) ≡ a >> k / 2
shift-one a k = shift_add a k 1

-- The remainder by a power of two, from the highest digit down.
pub mod-pow_top : (a k : ℕ) → a % 2 ^ suc k ≡ (a >> k % 2) << k + a % 2 ^ k
mod-pow_top a k =
    ap (λ t. t % 2 ^ suc k) parts
    ∙ mul-add-mod_self_left (2 ^ suc k) (a >> k / 2) low
    ∙ mod-eq_of_lt (grind (arith, pow-suc 2 k, mod-lt a (pow_pos k)))
  where
    low : ℕ
    low = (a >> k % 2) << k + a % 2 ^ k

    parts : a ≡ 2 ^ suc k * (a >> k / 2) + low
    parts = omega (
      arith,
      pow-suc 2 k,
      div-add-mod a (2 ^ k),
      ap (λ (t : ℕ). t * 2 ^ k) (div-add-mod (a >> k) 2),
      ap (λ (t : ℕ). t * (a >> k / 2)) (pow-suc 2 k),
    )

-- `i = i << 1 | 1`
pub bit_or-one : (t : ℕ) → bit_or (t << 1) 1 ≡ t << 1 + 1
bit_or-one t = rw (or_step (t << 1) 1, half_of_shift, bit_or-zero t) (omega arith)
  where
    half_of_shift : t << 1 / 2 ≡ t
    half_of_shift = omega arith

bit_or_comm : (a b : ℕ) → bit_or a b ≡ bit_or b a
bit_or_comm a = WellFounded.induction lt_wf {C = λ n. (b : ℕ) → bit_or n b ≡ bit_or b n} a step
  where
    step :
        (n : ℕ)
        → ((m : ℕ) → m < n → (b : ℕ) → bit_or m b ≡ bit_or b m)
        → (b : ℕ) → bit_or n b ≡ bit_or b n
    step zero ih b = omega (arith, zero-bit_or b, bit_or-zero b)
    step (suc n) ih b =
        omega (arith, or_step (suc n) b, or_step b (suc n), ih (suc n / 2) (omega arith) (b / 2))

pub bit_or_above : (k q r : ℕ) → r < 2 ^ k → bit_or (q << k) r ≡ q << k + r
bit_or_above k q r fits = omega (arith, bit_or_comm (q << k) r, bit_or_fields k q r fits)
