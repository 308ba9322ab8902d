-- ===== src/Console/Numbers.antt =====
-- kprintf.c: the digits that are printed for a number.
use hobby_os_kernel.Common.{
  ℕ, zero, suc, ◌+◌, ◌-◌, ◌*◌, ◌/◌, ◌%◌, ◌^◌, ◌≤◌, ◌<◌, ◌≡◌, refl, ap, ◌∙◌, false, List, [], ◌∷◌,
  if◌then◌else◌, ◌==◌, ltb, arith, Bool-cases, inl, inr, All,
}
use native.Mathlib.Nat.{pow-suc}
use hobby_os_kernel.Word.{u64}
use hobby_os_kernel.Console.{
  serial_write_string, digit, digits_loop, uint_to_str, negative, kprintf_putint,
}

-- The value of a character as a digit, and of a string that follows digits of value `acc`.
abbrev pub value_of : ℕ → ℕ
value_of c = if ltb c 58 then c - 48 else c - 87

abbrev pub read : ℕ → ℕ → List ℕ → ℕ
read base acc [] = acc
read base acc (c ∷ str) = read base (acc * base + value_of c) str

value_of-digit : (d : ℕ) → d < 16 → value_of (digit d) ≡ d
value_of-digit d h = ground arith

digits_loop-10 :
    (pos value : ℕ) (buf : List ℕ)
    → value < 10 ^ pos
    → read 10 0 (digits_loop pos value 10 buf) ≡ read 10 value buf
unfolding digits_loop
digits_loop-10 zero value buf h = ap (λ a. read 10 a buf) (omega arith)
digits_loop-10 (suc pos) value buf h = elim (Bool-cases (value == 0)) [
  | inl none_left ↦ rw none_left (ap (λ a. read 10 a buf) (ground arith))
  | inr more ↦ rw more (
      digits_loop-10 pos (value / 10) (digit (value % 10) ∷ buf) (omega (arith, pow-suc 10 pos))
      ∙ ap (λ a. read 10 a buf) (omega (arith, value_of-digit (value % 10) (omega arith))))
]

digits_loop-16 :
    (pos value : ℕ) (buf : List ℕ)
    → value < 16 ^ pos
    → read 16 0 (digits_loop pos value 16 buf) ≡ read 16 value buf
unfolding digits_loop
digits_loop-16 zero value buf h = ap (λ a. read 16 a buf) (omega arith)
digits_loop-16 (suc pos) value buf h = elim (Bool-cases (value == 0)) [
  | inl none_left ↦ rw none_left (ap (λ a. read 16 a buf) (ground arith))
  | inr more ↦ rw more (
      digits_loop-16 pos (value / 16) (digit (value % 16) ∷ buf) (omega (arith, pow-suc 16 pos))
      ∙ ap (λ a. read 16 a buf) (omega (arith, value_of-digit (value % 16) (omega arith))))
]

-- The decimal and the hexadecimal digits of a 64-bit word fit their buffers, and read back as the word.
pub uint_to_str-read :
    (value : ℕ)
    → value < 2 ^ 64
    → (read 10 0 (uint_to_str value 10 21) ≡ value) × (read 16 0 (uint_to_str value 16 17) ≡ value)
unfolding uint_to_str
uint_to_str-read value h = elim (Bool-cases (value == 0)) [
  | inl none_left ↦ rw none_left (ground arith, ground arith)
  | inr more ↦
      rw more (digits_loop-10 20 value [] (omega arith), digits_loop-16 16 value [] (omega arith))
]

-- No digit is a line feed or a minus sign.
abbrev IsDigit : ℕ → Type 0
IsDigit c = 48 ≤ c

digits_loop-IsDigit :
    (pos value base : ℕ) (buf : List ℕ)
    → All IsDigit buf
    → All IsDigit (digits_loop pos value base buf)
unfolding digits_loop
digits_loop-IsDigit zero value base buf h = h
digits_loop-IsDigit (suc pos) value base buf h = elim (Bool-cases (value == 0)) [
  | inl none_left ↦ rw none_left h
  | inr more ↦
      rw more (
        digits_loop-IsDigit (pos) (value / base) base (digit (value % base) ∷ buf)
          (ground arith, h))
]

uint_to_str-IsDigit : (value base size : ℕ) → All IsDigit (uint_to_str value base size)
unfolding uint_to_str
uint_to_str-IsDigit value base size = elim (Bool-cases (value == 0)) [
  | inl none_left ↦ rw none_left (omega arith, tt)
  | inr more ↦ rw more (digits_loop-IsDigit (size - 1) value base [] tt)
]

write_string-digits : (str : List ℕ) → All IsDigit str → serial_write_string str ≡ str
unfolding serial_write_string
write_string-digits [] h = refl
write_string-digits (c ∷ str) h = rw (no_feed c h.0) (ap (λ s. c ∷ s) (write_string-digits str h.1))
  where
    no_feed : (c : ℕ) → 48 ≤ c → (c == 10) ≡ false
    no_feed c h = ground arith

-- A signed decimal number: a word in two's complement.
abbrev pub read_signed : List ℕ → ℕ
read_signed [] = 0
read_signed (c ∷ str) = if c == 45 then u64 (2 ^ 64 - read 10 0 str) else read 10 0 (c ∷ str)

read_signed-digits : (str : List ℕ) → All IsDigit str → read_signed str ≡ read 10 0 str
read_signed-digits [] h = refl
read_signed-digits (c ∷ str) h = rw (no_sign c h.0) refl
  where
    no_sign : (c : ℕ) → 48 ≤ c → (c == 45) ≡ false
    no_sign c h = ground arith

-- What is printed for a signed 64-bit number reads back as that number.
pub kprintf_putint-read_signed :
    (value : ℕ) → value < 2 ^ 64 → read_signed (kprintf_putint value) ≡ value
unfolding kprintf_putint
kprintf_putint-read_signed value h = elim (Bool-cases (negative value)) [
  | inl below ↦
      rw
        (
          below,
          write_string-digits _ (uint_to_str-IsDigit (u64 (2 ^ 64 - value)) 10 21),
          (uint_to_str-read (u64 (2 ^ 64 - value)) (omega arith)).0,
        )
        (ground arith)
  | inr positive ↦
      rw (positive, write_string-digits _ (uint_to_str-IsDigit value 10 21))
        (read_signed-digits _ (uint_to_str-IsDigit value 10 21) ∙ (uint_to_str-read value h).0)
]
