-- ===== src/Tests/Boot.antt =====
-- Concrete inputs for the theorems on the boot of the kernel: its first stress test, and the search
-- for a module.
use hobby_os_kernel.Common.{
  ℕ, ◌/◌, ◌≡◌, refl, false, List, [], ◌∷◌, Option, some, has, arith, if◌then◌else◌, ◌==◌,
}
use hobby_os_kernel.Memory.{Mem}
use hobby_os_kernel.Stress.{going, alloc_and_free}
use hobby_os_kernel.Stress.RoundTrip.{alloc_and_free-restores}
use hobby_os_kernel.Boot.{LimineFile, find_module}
use hobby_os_kernel.Boot.Found.{HasPaths, IsFirst, find_module-IsFirst}
use hobby_os_kernel.Tests.Paging.{cleared, three_pages, cleared-HasFree}

alloc_and_free-restores_example :
    (m : Mem) × (alloc_and_free 10 0x9000 cleared ≡ going (3, record cleared { bytes = m }))
    × ((q : ℕ) → has (q / 4096) three_pages ≡ false → m q ≡ 0)
alloc_and_free-restores_example =
    alloc_and_free-restores {pages_at = 0x9000} 10 cleared three_pages cleared-HasFree
      (record { not_null = omega arith; fits = omega arith }) (omega arith)

-- "/a", "/ab" and the suffix "b", one after the other from address 1 on.
abbrev text : Mem
text q =
    if q == 1
    then 47
    else if q == 2
    then 97
    else if q == 4
    then 47
    else if q == 5
    then 97
    else if q == 6
    then 98
    else if q == 8
    then 98
    else 0

abbrev two_modules : List LimineFile
two_modules = record { address = 0x1000; path = 1 } ∷ record { address = 0x2000; path = 4 } ∷ []

abbrev chars_of : LimineFile → List ℕ
chars_of f = if f.path == 1 then 47 ∷ 97 ∷ [] else 47 ∷ 97 ∷ 98 ∷ []

two_modules-HasPaths : HasPaths text 10 chars_of two_modules
two_modules-HasPaths = (
  ((refl, (λ e. omega arith), (refl, (λ e. omega arith), refl)), omega arith),
  (
    (
      (refl, (λ e. omega arith), (refl, (λ e. omega arith), (refl, (λ e. omega arith), refl))),
      omega arith,
    ),
    tt,
  ),
)

find_module-IsFirst_example :
    (r : Option LimineFile) × (find_module 10 text (some two_modules) 8 ≡ some r)
    × IsFirst chars_of (98 ∷ []) two_modules r
find_module-IsFirst_example =
    find_module-IsFirst 10 text 8 chars_of (98 ∷ []) two_modules (refl, (λ e. omega arith), refl)
      (omega arith) two_modules-HasPaths
