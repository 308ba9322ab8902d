-- ===== src/Paging/Walk/Space.antt =====
-- The new address space that `vmm_new_address_space` makes.
use hobby_os_kernel.Common.{
  ℕ, zero, suc, ◌+◌, ◌*◌, ◌^◌, ◌≤◌, ◌<◌, ◌≡◌, refl, sym, ap, ◌∙◌, subst, ◌⊎◌, inl, inr, ◌≢◌, true,
  ◌&&◌, List, [], ◌∷◌, Option, none, some, arith, if◌then◌else◌, ltb, leb, dec_lt, ℕ_discrete, has,
}
use hobby_os_kernel.Memory.{Mem, load64, load_bytes}
use hobby_os_kernel.Memory.Words.{load64-store64_self, load64-store64_ne, load64-cong, load64-clear}
use hobby_os_kernel.Memory.Copy.{within}
use hobby_os_kernel.Frames.{Ram, page2pa, page_alloc}
use hobby_os_kernel.Frames.FreeList.{Frees, page_alloc-Allocates}
use hobby_os_kernel.Frames.Addresses.{page2pa-small}
use hobby_os_kernel.Frames.Zeroed.{page_alloc-bytes}
use hobby_os_kernel.Paging.Walk.{
  entry_at, load_entry, store_entry, Result, get_current_pml4, copy_entries, share_kernel,
  vmm_new_address_space,
}
use hobby_os_kernel.Paging.Walk.Path.{IsTable}

-- Every address holds a byte.
abbrev pub IsBytes : Mem → Type 0
IsBytes m = (q : ℕ) → m q < 256

load64-small : (m : Mem) (a : ℕ) → IsBytes m → load64 m a < 2 ^ 64
unfolding load64 load_bytes
load64-small m a h = omega (
  arith,
  h a,
  h (a + 1),
  h (a + 1 + 1),
  h (a + 1 + 1 + 1),
  h (a + 1 + 1 + 1 + 1),
  h (a + 1 + 1 + 1 + 1 + 1),
  h (a + 1 + 1 + 1 + 1 + 1 + 1),
  h (a + 1 + 1 + 1 + 1 + 1 + 1 + 1),
)

-- The entries of `from` are the 64-bit words `value` of their index.
abbrev HasEntries : Ram → ℕ → (ℕ → ℕ) → Type 0
HasEntries s from value = (j : ℕ) → j < 512 → load_entry s (entry_at from j) ≡ value j

module _ (from to : ℕ) (apart : (from + 4096 ≤ to) ⊎ (to + 4096 ≤ from)) (value : ℕ → ℕ)
    (words : (j : ℕ) → value j < 2 ^ 64) where
  store-HasEntries :
      (s : Ram) (i v : ℕ)
      → i < 512
      → HasEntries s from value
      → HasEntries (store_entry (entry_at to i) v s) from value
  store-HasEntries s i v h e j k =
      load64-store64_ne s.bytes (entry_at to i) (entry_at from j) v (omega (arith, apart)) ∙ e j k

  copy_entries-entries :
      (rounds i : ℕ) (s : Ram)
      → i + rounds ≤ 512
      → HasEntries s from value
      → (j : ℕ) → j < 512
      → load_entry (copy_entries rounds i from to s) (entry_at to j)
        ≡ (if leb i j && ltb j (i + rounds) then value j else load_entry s (entry_at to j))
  unfolding copy_entries
  copy_entries-entries zero i s h e j k = ground arith
  copy_entries-entries (suc rounds) i s h e j k =
      copy_entries-entries rounds (i + 1) next (omega arith)
        (store-HasEntries s i _ (omega arith) e) j k
      ∙ by_index
    where
      next : Ram
      next = store_entry (entry_at to i) (load_entry s (entry_at from i)) s

      here : load_entry next (entry_at to i) ≡ value i
      here =
          load64-store64_self s.bytes (entry_at to i) (load_entry s (entry_at from i))
            (subst (λ v. v < 2 ^ 64) (sym (e i (omega arith))) (words i))
          ∙ e i (omega arith)

      beside : j ≢ i → (entry_at to j + 8 ≤ entry_at to i) ⊎ (entry_at to i + 8 ≤ entry_at to j)
      beside ne = elim (dec_lt j i) [ yes below ↦ inl (omega arith) | no above ↦ inr (omega arith) ]

      there : j ≢ i → load_entry next (entry_at to j) ≡ load_entry s (entry_at to j)
      there ne = load64-store64_ne s.bytes (entry_at to i) (entry_at to j) _ (beside ne)

      by_index :
          (if leb (i + 1) j && ltb j (i + 1 + rounds)
            then value j
            else load_entry next (entry_at to j))
          ≡ (if leb i j && ltb j (i + suc rounds) then value j else load_entry s (entry_at to j))
      by_index = elim (ℕ_discrete j i) [
        | yes same ↦ rw same (ground (arith, here))
        | no ne ↦ ground (arith, there ne)
      ]

-- The table at `new` has the kernel half of the table at `from`, and an empty user half.
abbrev pub SharesKernel : Ram → ℕ → Ram → ℕ → Type 0
SharesKernel s from s' new =
    ((i : ℕ) → 256 ≤ i → i < 512 → load_entry s' (entry_at new i) ≡ load_entry s (entry_at from i))
    × ((i : ℕ) → i < 256 → load_entry s' (entry_at new i) ≡ 0)

copy_entries-Frees :
    (rounds i from to : ℕ) (s : Ram) (xs : List ℕ)
    → Frees s xs
    → Frees (copy_entries rounds i from to s) xs
unfolding copy_entries
copy_entries-Frees zero i from to s xs f = f
copy_entries-Frees (suc rounds) i from to s xs f =
    copy_entries-Frees rounds (i + 1) from to
      (store_entry (entry_at to i) (load_entry s (entry_at from i)) s) xs
      record { chain = f.chain; once = f.once; unused = f.unused; real = f.real }

-- What `vmm_new_address_space` may come to, with the free pages `xs`.
abbrev pub NewSpace : ℕ → Ram → List ℕ → Result → Type 0
NewSpace from s [] r = r ≡ (none, s)
NewSpace from s (x ∷ xs) (none, s') = ⊥
NewSpace from s (x ∷ xs) (some new, s') =
    (new ≡ x * 4096) × SharesKernel s from s' new × Frees s' xs

module _ (cr3 : ℕ) (s : Ram) (bytes : IsBytes s.bytes)
    (active : IsTable (get_current_pml4 cr3)) where
  abbrev from : ℕ
  from = get_current_pml4 cr3

  module _ (x : ℕ) (t : Ram) (small : x < 2 ^ 40) (other : x * 4096 ≢ from)
      (clear : (q : ℕ) → t.bytes q ≡ (if within (x * 4096) 4096 q then 0 else s.bytes q)) where
    apart_lem : (from + 4096 ≤ x * 4096) ⊎ (x * 4096 + 4096 ≤ from)
    apart_lem = elim (dec_lt from (x * 4096)) [
      | yes below ↦ inl (omega (arith, active.aligned))
      | no above ↦ inr (omega (arith, active.aligned))
    ]

    same_entries : HasEntries t from (λ j. load_entry s (entry_at from j))
    same_entries j h =
        load64-cong (entry_at from j) s.bytes t.bytes λ q a b. clear q ∙ ground (arith, apart_lem)

    entries :
        (i : ℕ)
        → i < 512
        → load_entry (copy_entries 256 256 from (x * 4096) t) (entry_at (x * 4096) i) ≡ (
            if leb 256 i && ltb i 512
            then load_entry s (entry_at from i)
            else load_entry t (entry_at (x * 4096) i))
    entries i h =
        copy_entries-entries from (x * 4096) apart_lem (λ j. load_entry s (entry_at from j))
          (λ j. load64-small s.bytes (entry_at from j) bytes) 256 256 t (omega arith) same_entries i
          h

    copied-SharesKernel : SharesKernel s from (copy_entries 256 256 from (x * 4096) t) (x * 4096)
    copied-SharesKernel =
        ((λ i a b. entries i b ∙ ground arith), (λ i a. entries i (omega arith) ∙ user_half i a))
      where
        empty : (i : ℕ) → i < 256 → load_entry t (entry_at (x * 4096) i) ≡ 0
        empty i a = load64-clear (entry_at (x * 4096) i) t.bytes λ q b c. clear q ∙ ground arith

        user_half :
            (i : ℕ)
            → i < 256
            → (if leb 256 i && ltb i 512
                then load_entry s (entry_at from i)
                else load_entry t (entry_at (x * 4096) i))
              ≡ 0
        user_half i a = ground (arith, empty i a)

  share-NewSpace :
      (x : ℕ) (xs : List ℕ) (r : Result)
      → x < 2 ^ 40
      → x * 4096 ≢ from
      → r.0 ≡ some x
      → Frees r.1 xs
      → ((q : ℕ) → r.1.bytes q ≡ (if within (page2pa x) 4096 q then 0 else s.bytes q))
      → NewSpace from s (x ∷ xs) (share_kernel from r)
  unfolding share_kernel
  share-NewSpace x xs (none, t) small other e f clear = absurd (cc e)
  share-NewSpace x xs (some y, t) small other e f clear =
      subst
        (λ to.
          (to ≡ x * 4096)
          × SharesKernel s from (copy_entries 256 256 from to t) to
          × Frees (copy_entries 256 256 from to t) xs)
        (sym (ap page2pa same ∙ page2pa-small x (omega arith)))
        (
          refl,
          copied-SharesKernel x t small other (
              subst (λ a. (q : ℕ) → t.bytes q ≡ (if within a 4096 q then 0 else s.bytes q))
                (page2pa-small x (omega arith)) clear),
          copy_entries-Frees 256 256 from (x * 4096) t xs f,
        )
    where
      value : Option ℕ → ℕ
      value none = x
      value (some n) = n

      same : y ≡ x
      same = ap value e

  -- With no free page `vmm_new_address_space` returns NULL and changes nothing. Otherwise it returns
  -- the first free page as a table with the kernel half of the active table and an empty user half,
  -- and the other free pages stay; that page is not the active table, and memory holds bytes.
  pub vmm_new_address_space-NewSpace :
      (xs : List ℕ)
      → Frees s xs
      → ((x : ℕ) → has x xs ≡ true → (x < 2 ^ 40) × (x * 4096 ≢ from))
      → NewSpace from s xs (vmm_new_address_space cr3 s)
  unfolding vmm_new_address_space share_kernel
  vmm_new_address_space-NewSpace [] f ok = ap (share_kernel from) (page_alloc-Allocates 1 s [] f)
  vmm_new_address_space-NewSpace (x ∷ xs) f ok =
      let (e, frees, loose) = page_alloc-Allocates 1 s (x ∷ xs) f in
      let (small, other) = ok x (ground arith) in
      share-NewSpace x xs (page_alloc 1 s) small other e frees λ q. page_alloc-bytes 1 s x xs q f
