-- ===== src/Boot.antt =====
-- main.c: the search for a program among the modules that the boot loader has loaded. A string is
-- its address in memory.
pub mod Found
use hobby_os_kernel.Common.{
  ℕ, zero, suc, ◌+◌, ◌-◌, Bool, true, false, not, List, [], ◌∷◌, Option, none, some, if◌then◌else◌,
  ◌==◌, ltb,
}
use hobby_os_kernel.Memory.{Mem}

-- A `struct limine_file` of the boot protocol: where the module lies, and its path.
pub record LimineFile : Type 0 where
  pub address : ℕ
  pub path : ℕ

-- `while (s[n] != '\0') n++;`; `none` says that the fuel ran out.
pub string_length : (fuel : ℕ) → Mem → (s n : ℕ) → Option ℕ
string_length zero m s n = none
string_length (suc fuel) m s n =
    let rest = string_length fuel m s (n + 1) in if not (m (s + n) == 0) then rest else some n

-- Whether the comparison of the tail with the suffix goes on to the end of `rounds` characters.
pub same_from : (rounds j tail suffix : ℕ) → Mem → Bool
same_from zero j tail suffix m = true
same_from (suc rounds) j tail suffix m =
    let rest = same_from rounds (j + 1) tail suffix m in
    if not (m (tail + j) == m (suffix + j)) then false else rest

pub ends_in : Mem → (suffix suffix_len path path_len : ℕ) → Bool
ends_in m suffix suffix_len path path_len =
    if ltb path_len suffix_len
    then false
    else same_from suffix_len 0 (path + (path_len - suffix_len)) suffix m

abbrev with_length {ℓ} : {A : Type ℓ} → Option ℕ → (ℕ → Option A) → Option A
with_length none k = none
with_length (some n) k = k n

pub search_modules :
    (fuel : ℕ) → Mem → (suffix suffix_len : ℕ) → List LimineFile → Option (Option LimineFile)
search_modules fuel m suffix suffix_len [] = some none
search_modules fuel m suffix suffix_len (f ∷ fs) =
    let rest = search_modules fuel m suffix suffix_len fs in
    with_length (string_length fuel m f.path 0)
      λ path_len. if ends_in m suffix suffix_len f.path path_len then some (some f) else rest

-- `module_request.response` with its modules.
pub find_module : (fuel : ℕ) → Mem → Option (List LimineFile) → ℕ → Option (Option LimineFile)
find_module fuel m none suffix = some none
find_module fuel m (some modules) suffix =
    with_length (string_length fuel m suffix 0)
      λ suffix_len. search_modules fuel m suffix suffix_len modules
