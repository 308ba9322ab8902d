-- ===== src/Paging/Walk/Path.antt =====
-- The walk as one recursion over the indices of the levels, and the tables on its way.
use hobby_os_kernel.Common.{
  ℕ, ◌+◌, ◌/◌, ◌%◌, ◌^◌, ◌≤◌, ◌<◌, ◌≡◌, ap, ◌∙◌, ◌≢◌, ◌⊎◌, inl, inr, true, false, List, [], ◌∷◌,
  some, arith, has, dec_lt,
}
use hobby_os_kernel.Memory.{Mem, load64, store64}
use hobby_os_kernel.Memory.Words.{load64-store64_ne}
use hobby_os_kernel.Paging.Walk.{entry_at}
use hobby_os_kernel.Paging.Walk.Lookup.{follow, resolve}

-- A table's address: a page, below 2 ^ 52.
pub record IsTable (t : ℕ) : Type 0 where
  pub aligned : t % 4096 ≡ 0
  pub small : t < 2 ^ 52

-- The tables from `t` on, along the entries of `is`, lead to the table `last`, which none of the
-- others is.
abbrev pub Resolves : Mem → ℕ → List ℕ → ℕ → Type 0
Resolves m t [] last = t ≡ last
Resolves m t (i ∷ is) last =
    IsTable t
    × (i < 512)
    × (t ≢ last)
    × ((u : ℕ) × (follow m (entry_at t i) ≡ some u) × Resolves m u is last)

-- An entry of one table is no part of another one.
pub entries_apart :
    {t u i j : ℕ}
    → IsTable t
    → IsTable u
    → t ≢ u
    → i < 512
    → j < 512
    → (entry_at t i + 8 ≤ entry_at u j) ⊎ (entry_at u j + 8 ≤ entry_at t i)
entries_apart {t} {u} {i} {j} a b ne hi hj = elim (dec_lt t u) [
  | yes h ↦ inl (omega arith)
  | no h ↦ inr (omega arith)
]

-- A table that the walk may come to: no free page, and none of the tables behind it.
pub record IsGood (free seen : List ℕ) (t : ℕ) : Type 0 where
  pub table : IsTable t
  pub in_use : has (t / 4096) free ≡ false
  pub new : has t seen ≡ false

-- The tables that exist on the way are good, each with those before it.
abbrev pub PathOk : Mem → List ℕ → List ℕ → ℕ → List ℕ → Type 0
PathOk m free seen t [] = IsGood free seen t
PathOk m free seen t (i ∷ is) =
    IsGood free seen t
    × ((u : ℕ) → follow m (entry_at t i) ≡ some u → PathOk m free (t ∷ seen) u is)

-- The entries of the tables `seen` read the same in both memories.
abbrev pub Kept : List ℕ → Mem → Mem → Type 0
Kept seen m m' =
    (t i : ℕ) → has t seen ≡ true → i < 512 → load64 m' (entry_at t i) ≡ load64 m (entry_at t i)

pub follow-cong :
    (m m' : Mem) (slot : ℕ) → load64 m' slot ≡ load64 m slot → follow m' slot ≡ follow m slot
follow-cong m m' slot e = rw e

-- A store into one table leaves the entries of the others alone.
pub load_other_table :
    (m : Mem) {t u i j : ℕ} (v : ℕ)
    → IsTable t
    → IsTable u
    → u ≢ t
    → i < 512
    → j < 512
    → load64 (store64 m (entry_at t i) v) (entry_at u j) ≡ load64 m (entry_at u j)
load_other_table m {t} {u} {i} {j} v a b ne hi hj =
    load64-store64_ne m (entry_at t i) (entry_at u j) v (entries_apart b a ne hj hi)

-- A store into the last table of a path is not seen on the way to it.
pub Resolves-store64 :
    (m : Mem) (t : ℕ) (is : List ℕ) {last : ℕ} (j v : ℕ)
    → IsTable last
    → j < 512
    → Resolves m t is last
    → Resolves (store64 m (entry_at last j) v) t is last
Resolves-store64 m t [] j v a hj r = r
Resolves-store64 m t (i ∷ is) {last} j v a hj (table, hi, ne, (u, link, rest)) = (
  table,
  hi,
  ne,
  (
    u,
    follow-cong m (store64 m (entry_at last j) v) (entry_at t i)
          (load_other_table m v a table ne hj hi)
        ∙ link,
    Resolves-store64 m u is j v a hj rest,
  ),
)

pub resolve-Resolves :
    (m : Mem) (t : ℕ) (is : List ℕ) {last : ℕ} → Resolves m t is last → resolve m t is ≡ some last
unfolding resolve
resolve-Resolves m t [] r = ap some r
resolve-Resolves m t (i ∷ is) (table, hi, ne, (u, link, rest)) =
    rw link (resolve-Resolves m u is rest)
