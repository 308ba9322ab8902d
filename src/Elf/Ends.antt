-- ===== src/Elf/Ends.antt =====
-- elf.c: `elf_load` comes to an end, whatever the image says.
use hobby_os_kernel.Common.{
  ℕ, zero, suc, ◌+◌, ◌-◌, ◌*◌, ◌/◌, ◌%◌, ◌^◌, ◌≤◌, ◌<◌, ◌≡◌, ◌≢◌, ◌==◌, if◌then◌else◌, ltb→lt, refl,
  arith, Bool, true, false, not, ◌&&◌, Bool-cases, inl, inr, ltb, none, some, bit_and_field,
}
use hobby_os_kernel.Word.{u64, page_size, rounddown, roundup}
use hobby_os_kernel.Frames.{Ram}
use hobby_os_kernel.Paging.Walk.{Result}
use hobby_os_kernel.Elf.{
  e_magic, e_class, e_phoff, elf_magic, pt_load, p_type, e_phnum, frame_for, Load, going, failed,
  unfinished, and_go, copy_into_frame, load_page, load_pages, load_segment, load_segments, Loaded,
  refused, out_of_fuel, with_entry, elf_load,
}

abbrev Ends : Load → Type 0
Ends unfinished = ⊥
Ends _ = Unit

and_go-Ends : (l : Load) (k : Ram → Load) → Ends l → ((s : Ram) → Ends (k s)) → Ends (and_go l k)
and_go-Ends (going s) k e h = h s
and_go-Ends (failed s) k e h = e
and_go-Ends unfinished k e h = e

-- Either branch ends, and each may use that it was taken.
branch-Ends :
    (b : Bool) (l r : Load)
    → (b ≡ true → Ends l)
    → (b ≡ false → Ends r)
    → Ends (elim b [ true ↦ l | false ↦ r ])
branch-Ends true l r h k = h refl
branch-Ends false l r h k = k refl

copy_into_frame-Ends :
    (base seg file_start file_end va : ℕ) (r : Result)
    → Ends (copy_into_frame base seg file_start file_end va r)
copy_into_frame-Ends base seg file_start file_end va (none, s) = tt
copy_into_frame-Ends base seg file_start file_end va (some phys, s) = tt

-- The address of a page below the end of the address space.
record IsPage (va : ℕ) : Type 0 where
  aligned : va % 4096 ≡ 0
  small : va < 2 ^ 64

rounddown-IsPage : (a : ℕ) → IsPage (rounddown a page_size)
unfolding rounddown
rounddown-IsPage a = omega (arith, bit_and_field 52 12 a)

roundup-IsPage : (a : ℕ) → IsPage (roundup a page_size)
unfolding roundup rounddown
roundup-IsPage a = rounddown-IsPage (u64 (a + 4096 - 1))

-- The step to the next page does not wrap round below a page.
load_pages-Ends :
    (fuel pml4 base seg file_start file_end va vend : ℕ) (s : Ram)
    → IsPage va
    → IsPage vend
    → (vend - va) / 4096 < fuel
    → Ends (load_pages fuel pml4 base seg file_start file_end va vend s)
unfolding load_pages load_page
load_pages-Ends zero pml4 base seg file_start file_end va vend s p q enough = absurd (omega arith)
load_pages-Ends (suc fuel) pml4 base seg file_start file_end va vend s p q enough =
    branch-Ends (ltb va vend) _ (going s)
      (λ below.
        and_go-Ends (copy_into_frame base seg file_start file_end va (frame_for pml4 va s)) _
          (copy_into_frame-Ends base seg file_start file_end va (frame_for pml4 va s))
          λ s'.
            load_pages-Ends fuel pml4 base seg file_start file_end (u64 (va + page_size)) vend s'
              (next va vend p q (ltb→lt va vend below)) q
              (nearer va vend p q (ltb→lt va vend below) enough))
      (λ done. tt)
  where
    next : (va vend : ℕ) → IsPage va → IsPage vend → va < vend → IsPage (u64 (va + page_size))
    next va vend p q h = omega arith

    nearer :
        (va vend : ℕ)
        → IsPage va
        → IsPage vend
        → va < vend
        → (vend - va) / 4096 < suc fuel
        → (vend - u64 (va + page_size)) / 4096 < fuel
    nearer va vend p q h e = omega arith

load_segment-Ends : (pml4 base seg : ℕ) (s : Ram) → Ends (load_segment pml4 base seg s)
unfolding load_segment
load_segment-Ends pml4 base seg s = elim (Bool-cases (p_type s seg == pt_load)) [
  | inl load ↦ rw load (
      load_pages-Ends _ pml4 base seg _ _ _ _ s (rounddown-IsPage _) (roundup-IsPage _)
        (omega arith))
  | inr other ↦ rw other tt
]

load_segments-Ends :
    (fuel pml4 base ph i : ℕ) (s : Ram)
    → i < 2 ^ 16
    → 2 ^ 16 ≤ fuel + i
    → Ends (load_segments fuel pml4 base ph i s)
unfolding load_segments
load_segments-Ends zero pml4 base ph i s small enough = absurd (omega arith)
load_segments-Ends (suc fuel) pml4 base ph i s small enough =
    branch-Ends (ltb i (e_phnum s base)) _ (going s)
      (λ below.
        and_go-Ends (load_segment pml4 base (u64 (ph + 56 * i)) s) _
          (load_segment-Ends pml4 base (u64 (ph + 56 * i)) s)
          λ s'.
            load_segments-Ends fuel pml4 base ph ((i + 1) % 2 ^ 16) s' (omega arith)
              (omega (arith, ltb→lt i (e_phnum s base) below)))
      (λ done. tt)

with_entry-Ends : (base : ℕ) (l : Load) → Ends l → with_entry base l ≢ out_of_fuel
with_entry-Ends base (going s) e h = cc
with_entry-Ends base (failed s) e h = cc
with_entry-Ends base unfinished e h = e

-- The magic number and the class of 64-bit images.
abbrev pub has_header : Ram → ℕ → Bool
has_header s elf_image = (e_magic s elf_image == elf_magic) && (e_class s elf_image == 2)

-- `elf_load` returns for every image, whatever sizes and addresses it states. One without the magic
-- number, or of another class than 64 bits, is refused, and nothing is changed.
pub elf_load-ends :
    (pml4 elf_image : ℕ) (s : Ram)
    → (elf_load pml4 elf_image s ≢ out_of_fuel)
      × (elf_load pml4 elf_image s
          ≡ (if has_header s elf_image then elf_load pml4 elf_image s else refused s))
unfolding elf_load
elf_load-ends pml4 elf_image s = (returns, refuses)
  where
    no_fuel :
        (b : Bool) (x y : Loaded)
        → x ≢ out_of_fuel
        → y ≢ out_of_fuel
        → (if b then x else y) ≢ out_of_fuel
    no_fuel true x y h k = h
    no_fuel false x y h k = k

    refused_returns : refused s ≢ out_of_fuel
    refused_returns h = cc

    checked : Bool → Bool → Loaded → Loaded
    checked magic class x = if not magic then refused s else (if not class then refused s else x)

    by_header :
        (magic class : Bool) (x : Loaded)
        → checked magic class x ≡ (if magic && class then checked magic class x else refused s)
    by_header true true x = refl
    by_header true false x = refl
    by_header false true x = refl
    by_header false false x = refl

    returns : elf_load pml4 elf_image s ≢ out_of_fuel
    returns = no_fuel (not (e_magic s elf_image == elf_magic)) (refused s) _ refused_returns (
        no_fuel (not (e_class s elf_image == 2)) (refused s) _ refused_returns (
          with_entry-Ends elf_image _ (
            load_segments-Ends (2 ^ 16) pml4 elf_image (u64 (elf_image + e_phoff s elf_image)) 0 s
              (omega arith) (omega arith))))

    refuses :
        elf_load pml4 elf_image s
        ≡ (if has_header s elf_image then elf_load pml4 elf_image s else refused s)
    refuses = by_header (e_magic s elf_image == elf_magic) (e_class s elf_image == 2) _
