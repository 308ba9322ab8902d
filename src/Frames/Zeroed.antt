-- ===== src/Frames/Zeroed.antt =====
-- What `page_alloc` does to the memory of the page.
use hobby_os_kernel.Common.{
  ℕ, ◌≡◌, bit_and, ◌&&◌, List, ◌∷◌, if◌then◌else◌, ◌==◌, Bool-cases, inl, inr, ◌∙◌, not,
}
use native.Mathlib.Nat.{add-zero}
use hobby_os_kernel.Memory.Copy.{within, fill_lem}
use hobby_os_kernel.Frames.{Ram, page2pa, alloc_zero, take_page, zero_page, page_alloc}
use hobby_os_kernel.Frames.FreeList.{Frees, page_alloc-some}

-- Asked to zero, `page_alloc` clears the bytes of the page that it returns and no others; else it
-- leaves the memory alone.
pub page_alloc-bytes :
    (flags : ℕ) (s : Ram) (x : ℕ) (xs : List ℕ) (q : ℕ)
    → Frees s (x ∷ xs)
    → (page_alloc flags s).1.bytes q
      ≡ (if not (bit_and flags 1 == 0) && within (page2pa x) 4096 q then 0 else s.bytes q)
unfolding take_page zero_page
page_alloc-bytes flags s x xs q f =
    rw (page_alloc-some flags s x f.chain.0) (elim (Bool-cases (bit_and flags alloc_zero == 0)) [
      | inl keep ↦ rw keep
      | inr clear ↦ rw clear (fill_lem 4096 0 (page2pa x) 0 s.bytes q ∙ rw (add-zero (page2pa x)))
    ])
