-- ===== src/Kheap/Owners.antt =====
-- kheap.c: which blocks of the heap an address belongs to, under the operations on blocks.
use hobby_os_kernel.Common.{
  ℕ, ◌+◌, ◌-◌, ◌^◌, ◌≤◌, ◌<◌, ◌≡◌, refl, ap, ap₂, ◌∙◌, ◌⊎◌, Bool, true, false, ◌&&◌, List, [], ◌∷◌,
  Option, none, some, if◌then◌else◌, ◌==◌, ltb, leb, arith, Bool-cases, inl, inr,
}
use hobby_os_kernel.Word.{u64}
use hobby_os_kernel.Kheap.{
  Block, Heap, header_size, is_fit, split_block, append_blocks, put_before, take_block, set_free,
  block_end, joins, joined, coalesce_from, coalesce, kfree,
}

-- 1 if the address lies in the block, header included.
abbrev pub owns : Block → ℕ → ℕ
owns b a = if leb b.addr a && ltb a (block_end b) then 1 else 0

-- The number of blocks that the address lies in.
abbrev pub owners : List Block → ℕ → ℕ
owners [] a = 0
owners (b ∷ bs) a = owns b a + owners bs a

pub owners-append :
    (xs ys : List Block) (a : ℕ) → owners (append_blocks xs ys) a ≡ owners xs a + owners ys a
owners-append [] ys a = omega arith
owners-append (x ∷ xs) ys a = omega (arith, owners-append xs ys a)

pub split_block-owners :
    (b : Block) (size a : ℕ) → size + 40 < 2 ^ 64 → owners (split_block b size) a ≡ owns b a
unfolding split_block
split_block-owners b size a h = ground arith

-- The block at `p` is in use, and `size` bytes at least are behind its header.
abbrev pub Holds : ℕ → ℕ → List Block → Type 0
Holds p size [] = ⊥
Holds p size (b ∷ bs) = ((b.addr ≡ p) × (size ≤ b.size) × (b.free ≡ false)) ⊎ Holds p size bs

-- What `take_block` may find.
abbrev pub Takes : ℕ → List Block → Option (ℕ × List Block) → Type 0
Takes size bs none = Unit {0}
Takes size bs (some (p, bs')) = Holds p size bs' × ((a : ℕ) → owners bs' a ≡ owners bs a)

pub split_block-Holds :
    (b : Block) (size : ℕ) (bs : List Block)
    → size ≤ b.size
    → size + 40 < 2 ^ 64
    → Holds b.addr size (append_blocks (split_block b size) bs)
unfolding split_block
split_block-Holds b size bs h k = elim (Bool-cases (leb (u64 (size + 40)) b.size)) [
  | inl big ↦ rw big (inl (refl, omega arith, refl))
  | inr tight ↦ rw tight (inl (refl, h, refl))
]

put_before-Takes :
    (b : Block) (size : ℕ) (bs : List Block) (o : Option (ℕ × List Block))
    → Takes size bs o
    → Takes size (b ∷ bs) (put_before b o)
put_before-Takes b size bs none t = tt
put_before-Takes b size bs (some (p, bs')) t = (inr t.0, λ a. ap (λ n. owns b a + n) (t.1 a))

-- `take_block` returns the address of a block in use that holds the size, and every address has the
-- owners that it had.
pub take_block-Takes :
    (size : ℕ) (bs : List Block) → size + 40 < 2 ^ 64 → Takes size bs (take_block size bs)
unfolding take_block
take_block-Takes size [] h = tt
take_block-Takes size (b ∷ bs) h = elim (Bool-cases (is_fit size b)) [
  | inl fit ↦ rw fit (
    split_block-Holds b size bs (ground arith) h,
    λ a.
        owners-append (split_block b size) bs a
        ∙ ap (λ n. n + owners bs a) (split_block-owners b size a h),
  )
  | inr unfit ↦
      rw unfit (put_before-Takes b size bs (take_block size bs) (take_block-Takes size bs h))
]

joined-owns : (b c : Block) (a : ℕ) → joins b c ≡ true → owns (joined b c) a ≡ owns b a + owns c a
joined-owns b c a h = ground arith

coalesce_from-owners :
    (b : Block) (bs : List Block) (a : ℕ) → owners (coalesce_from b bs) a ≡ owns b a + owners bs a
unfolding coalesce_from
coalesce_from-owners b [] a = refl
coalesce_from-owners b (c ∷ bs) a = elim (Bool-cases (joins b c)) [
  | inl side_by_side ↦
      rw side_by_side
        (coalesce_from-owners (joined b c) bs a ∙ omega (arith, joined-owns b c a side_by_side))
  | inr apart ↦ rw apart (ap (λ n. owns b a + n) (coalesce_from-owners c bs a))
]

coalesce-owners : (bs : List Block) (a : ℕ) → owners (coalesce bs) a ≡ owners bs a
unfolding coalesce
coalesce-owners [] a = refl
coalesce-owners (b ∷ bs) a = coalesce_from-owners b bs a

set_free-owners : (p : ℕ) (bs : List Block) (a : ℕ) → owners (set_free p bs) a ≡ owners bs a
unfolding set_free
set_free-owners p [] a = refl
set_free-owners p (b ∷ bs) a = ap₂ (λ m n. m + n) (same_owns (b.addr == p)) (set_free-owners p bs a)
  where
    same_owns : (t : Bool) → owns (if t then record b { free = true } else b) a ≡ owns b a
    same_owns true = refl
    same_owns false = refl

-- `kfree` leaves every address the owners that it had: blocks that did not overlap do not overlap
-- afterwards, and no byte of the heap is lost.
pub kfree-owners :
    (ptr : Option ℕ) (h : Heap) (a : ℕ) → owners (kfree ptr h).free_list a ≡ owners h.free_list a
unfolding kfree
kfree-owners none h a = refl
kfree-owners (some ptr) h a =
    coalesce-owners (set_free (ptr - header_size) h.free_list) a
    ∙ set_free-owners (ptr - header_size) h.free_list a
