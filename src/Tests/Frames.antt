-- ===== src/Tests/Frames.antt =====
-- Concrete inputs for the theorems on the page allocator.
use hobby_os_kernel.Common.{ℕ, ◌≡◌, refl, true, List, ◌∷◌, none, arith, has}
use hobby_os_kernel.Frames.{page_free, count_free}
use hobby_os_kernel.Frames.FreeList.{
  Frees, IsLoose, Allocates, page_alloc-Allocates, page_free-Frees,
}
use hobby_os_kernel.Frames.DoubleFree.{page_free-last_cycles}
use hobby_os_kernel.Frames.Init.{add_regions, fresh}
use hobby_os_kernel.Frames.Init.Regions.{IsUsablePage, add_regions-Frees}
use hobby_os_kernel.Tests.Paging.{cleared, three_pages, cleared-HasFree}
use hobby_os_kernel.Tests.Memory.{one_region}

page_alloc-Allocates_example : Allocates 1 cleared three_pages
page_alloc-Allocates_example = page_alloc-Allocates 1 cleared three_pages cleared-HasFree.frees

-- Page 5 is in nobody's list.
five-IsLoose : IsLoose cleared three_pages 5
five-IsLoose = record { real = omega arith; unused = refl; unlinked = refl; absent = refl }

page_free-Frees_example : Frees (page_free 5 cleared) (5 ∷ three_pages)
page_free-Frees_example = page_free-Frees cleared-HasFree.frees five-IsLoose

page_free-last_cycles_example : count_free 100 (page_free 3 cleared) ≡ none
page_free-last_cycles_example =
    page_free-last_cycles cleared three_pages 3 cleared-HasFree.frees refl refl refl 100

add_regions-Frees_example :
    (xs : List ℕ) × Frees (add_regions 0 one_region 0 8192 (fresh 11 cleared)) xs
    × ((x : ℕ) → has x xs ≡ true → IsUsablePage one_region 0 8192 x)
add_regions-Frees_example =
    add_regions-Frees one_region 0 8192 11 cleared (omega arith, omega arith, tt) (omega arith)
