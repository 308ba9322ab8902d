-- ===== src/Tests/Elf.antt =====
-- A program image in memory, for the theorems on the loader.
use hobby_os_kernel.Common.{
  List, [], ◌∷◌, none, some, ◌+◌, ◌<◌, ◌&&◌, ℕ, ◌-◌, ◌≡◌, refl, ◌≢◌, inl, true, if◌then◌else◌, ◌==◌,
  leb, arith,
}
use hobby_os_kernel.Memory.{load_bytes, load64}
use hobby_os_kernel.Frames.{Ram}
use hobby_os_kernel.Elf.{elf_load, refused, out_of_fuel, load_page, going}
use hobby_os_kernel.Elf.Ends.{has_header, elf_load-ends}
use hobby_os_kernel.Elf.Page.{IsImage, LoadsPage, load_page-LoadsPage}
use hobby_os_kernel.Memory.Words.{load64-clear}
use hobby_os_kernel.Paging.Walk.{entry_at}
use hobby_os_kernel.Paging.Walk.Lookup.{follow, translate}
use hobby_os_kernel.Paging.Walk.Path.{IsTable}
use hobby_os_kernel.Paging.Walk.Create.{HasFree}
use hobby_os_kernel.Tests.Paging.{
  cleared, lone_root-IsTree, lone_root-Off, lone_root-translate, nothing_present,
}

-- Four bytes of a segment at 0x400010, behind the header and one program header.
abbrev image_byte : ℕ → ℕ
image_byte i =
    if i == 0
    then 0x7F
    else if i == 1
    then 0x45
    else if i == 2
    then 0x4C
    else if i == 3
    then 0x46
    else if i == 4
    then 2
    else if i == 24
    then 0x10
    else if i == 26
    then 0x40
    else if i == 32
    then 64
    else if i == 56
    then 1
    else if i == 64
    then 1
    else if i == 72
    then 120
    else if i == 80
    then 0x10
    else if i == 82
    then 0x40
    else if i == 96
    then 4
    else if i == 104
    then 32
    else if leb 120 i
    then (if leb i 123 then i - 119 else 0)
    else 0

abbrev loaded : Ram
loaded = record cleared { bytes = λ q. if leb 0x10000 q then image_byte (q - 0x10000) else 0 }

elf_load-ends_example :
    (elf_load 20480 0x10000 loaded ≢ out_of_fuel)
    × (elf_load 20480 0x10000 loaded
        ≡ (if has_header loaded 0x10000 then elf_load 20480 0x10000 loaded else refused loaded))
elf_load-ends_example = elf_load-ends 20480 0x10000 loaded

the_header : has_header loaded 0x10000 ≡ true
unfolding load_bytes
the_header = refl

-- The image with four free pages, under a top-level table in page 5.
abbrev four_pages : List ℕ
four_pages = 1 ∷ 2 ∷ 3 ∷ 4 ∷ []

abbrev waiting : Ram
waiting = record loaded {
  pages = λ i. record { pp_link = (if leb 1 i && leb i 3 then some (i + 1) else none); pp_ref = 0 };
}

waiting-HasFree : HasFree waiting four_pages
waiting-HasFree = record {
  frees = record {
    chain = (refl, (refl, (refl, (refl, refl))));
    once = (refl, (refl, (refl, (refl, tt))));
    unused = (refl, (refl, (refl, (refl, tt))));
    real = (omega arith, (omega arith, (omega arith, (omega arith, tt))));
  };
  small = (omega arith, (omega arith, (omega arith, (omega arith, tt))));
}

top-IsTable : IsTable 20480
top-IsTable = record { aligned = refl; small = omega arith }

top_empty : (i : ℕ) → i < 512 → follow waiting.bytes (entry_at 20480 i) ≡ none
top_empty i h =
    nothing_present waiting.bytes _
      (load64-clear (entry_at 20480 i) waiting.bytes λ q a b. ground arith)

the_image : IsImage 0x10000 0x10040 0x400010 0x400014 0x400000 20480 1 (2 ∷ 3 ∷ 4 ∷ []) waiting
unfolding load64 load_bytes
the_image = record {
  fits = record {
    page = refl;
    page_small = omega arith;
    start = refl;
    some_part = omega arith;
    small = omega arith;
    source_small = omega arith;
    apart = inl (omega arith);
  };
  header = λ q a b.
      lone_root-Off waiting.bytes four_pages top-IsTable refl top_empty q (ground arith)
        (λ e. omega arith);
  image = λ q a b.
      lone_root-Off waiting.bytes four_pages top-IsTable refl top_empty q (ground arith)
        (λ e. omega arith);
}

untranslated_yet : translate waiting.bytes 20480 0x400000 ≡ none
untranslated_yet = lone_root-translate waiting.bytes four_pages top-IsTable refl top_empty 0x400000

load_page-LoadsPage_example :
    (s' : Ram) × (free' : List ℕ) × (load_page 20480 0x10000 0x10040 0x400010 0x400014 0x400000
        waiting
      ≡ going s')
    × LoadsPage the_image s' free'
load_page-LoadsPage_example =
    load_page-LoadsPage the_image waiting-HasFree
      (lone_root-IsTree waiting.bytes four_pages top-IsTable refl top_empty) (omega arith)
      untranslated_yet
