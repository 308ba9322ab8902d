-- ===== src/Elf/Copied.antt =====
-- elf.c: what the loader leaves in the frame of a page.
use hobby_os_kernel.Common.{
  ℕ, ◌+◌, ◌-◌, ◌%◌, ◌^◌, ◌≤◌, ◌<◌, ◌≡◌, refl, sym, ap, ltb→lt, ◌∙◌, ◌⊎◌, Bool, true, false, ◌&&◌,
  Bool-cases, inl, inr, arith, ltb, leb, if◌then◌else◌,
}
use hobby_os_kernel.Word.{u64, page_size}
use hobby_os_kernel.Memory.Copy.{within, memcpy_lem}
use hobby_os_kernel.Frames.{Ram}
use hobby_os_kernel.Elf.{p_offset, p_vaddr, max, min, copy_part}

-- The page `va` with the frame `phys`, and the segment at `seg` of the image at `base`, whose file part
-- lies in memory, off the frame.
pub record Fits (base seg file_start file_end va phys : ℕ) (s : Ram) : Type 0 where
  pub page : va % 4096 ≡ 0
  pub page_small : va + 4096 < 2 ^ 64
  pub start : file_start ≡ p_vaddr s seg
  pub some_part : file_start ≤ file_end
  pub small : file_end < 2 ^ 64
  pub source_small : base + p_offset s seg + (file_end - file_start) < 2 ^ 64
  pub apart :
      (phys + 4096 ≤ base + p_offset s seg)
      ⊎ (base + p_offset s seg + (file_end - file_start) ≤ phys)

-- The ends of the copied window: the later start and the earlier end.
max_lem : (a b : ℕ) → (a ≤ max a b) × (b ≤ max a b) × ((max a b ≡ a) ⊎ (max a b ≡ b))
max_lem a b = ground arith

min_lem : (a b : ℕ) → (min a b ≤ a) × (min a b ≤ b) × ((min a b ≡ a) ⊎ (min a b ≡ b))
min_lem a b = ground arith

-- The bytes of the frame that lie in the window.
abbrev pub in_part : (file_start file_end va phys q : ℕ) → Bool
in_part file_start file_end va phys q =
    within phys 4096 q && (leb file_start (va + (q - phys)) && ltb (va + (q - phys)) file_end)

module _ (file_start file_end va phys lo hi q : ℕ)
    (los : (file_start ≤ lo) × (va ≤ lo) × ((lo ≡ file_start) ⊎ (lo ≡ va)))
    (his : (hi ≤ file_end) × (hi ≤ va + 4096) × ((hi ≡ file_end) ⊎ (hi ≡ va + 4096))) where
  window_some :
      lo < hi → in_part file_start file_end va phys q ≡ within (phys + (lo - va)) (hi - lo) q
  window_some h = ground arith

  window_none : ltb lo hi ≡ false → in_part file_start file_end va phys q ≡ false
  window_none h = ground arith

pub if_cong :
    (b : Bool) (x y z : ℕ) → (b ≡ true → x ≡ y) → (if b then x else z) ≡ (if b then y else z)
if_cong true x y z h = h refl
if_cong false x y z h = refl

module _ {base seg file_start file_end va phys : ℕ} {s : Ram}
    (fits : Fits base seg file_start file_end va phys s) where
  open fits use {page, page_small, start, some_part, small, source_small, apart}

  -- The address in the image of the byte for the address `va + (q - phys)`.
  abbrev pub source : ℕ → ℕ
  source q = base + p_offset s seg + (va + (q - phys) - file_start)

  abbrev lo : ℕ
  lo = max file_start va

  abbrev hi : ℕ
  hi = min file_end (u64 (va + page_size))

  abbrev from : ℕ
  from = u64 (base + p_offset s seg + (lo + 2 ^ 64 - p_vaddr s seg))

  his : (hi ≤ file_end) × (hi ≤ va + 4096) × ((hi ≡ file_end) ⊎ (hi ≡ va + 4096))
  his = let (a, b, c) = min_lem file_end (u64 (va + page_size)) in omega arith

  los : (file_start ≤ lo) × (va ≤ lo) × ((lo ≡ file_start) ⊎ (lo ≡ va))
  los = max_lem file_start va

  from-eq : lo < hi → from ≡ base + p_offset s seg + (lo - file_start)
  from-eq h = omega (arith, start, his, los, source_small, small)

  from_apart :
      lo < hi → (phys + (lo - va) + (hi - lo) ≤ from) ⊎ (from + (hi - lo) ≤ phys + (lo - va))
  from_apart h = elim apart [
    | inl before ↦ inl (omega (arith, from-eq h, his, los))
    | inr behind ↦ inr (omega (arith, from-eq h, his, los))
  ]

  source-eq :
      (q : ℕ)
      → lo < hi
      → within (phys + (lo - va)) (hi - lo) q ≡ true
      → from + (q - (phys + (lo - va))) ≡ source q
  source-eq q h w = ground (arith, from-eq h, los)

  -- Of the frame, `copy_part` fills the bytes whose addresses lie in the file's part of the segment,
  -- each with the byte of the image that the segment has for this address; no other byte of memory
  -- changes.
  pub copy_part_lem :
      (q : ℕ)
      → (copy_part base seg file_start file_end va phys s).bytes q
        ≡ (if in_part file_start file_end va phys q then s.bytes (source q) else s.bytes q)
  unfolding copy_part
  copy_part_lem q = elim (Bool-cases (ltb lo hi)) [
    | inl some_bytes ↦ rw some_bytes (
        memcpy_lem (phys + (lo - va)) from (hi - lo) s.bytes q
          (from_apart (ltb→lt lo hi some_bytes))
        ∙ (if_cong (within (phys + (lo - va)) (hi - lo) q) _ (s.bytes (source q)) (s.bytes q)
              (λ w. ap s.bytes (source-eq q (ltb→lt lo hi some_bytes) w))
            ∙ ap (λ b. if b then s.bytes (source q) else s.bytes q)
                (sym (
                  window_some file_start file_end va phys lo hi q los his
                    (ltb→lt lo hi some_bytes)))))
    | inr no_bytes ↦
        rw (no_bytes, window_none file_start file_end va phys lo hi q los his no_bytes) refl
  ]
