-- ===== src/Paging/Walk/Levels.antt =====
-- The walk that makes the missing tables, all its levels together.
use hobby_os_kernel.Common.{
  ℕ, suc, ◌+◌, ◌/◌, ◌≤◌, ◌<◌, ◌≡◌, refl, sym, ◌∙◌, subst, true, false, List, [], ◌∷◌, none, some,
  arith, has, All, Option-cases, inl, inr, Bool-cases, ℕ_discrete, length,
}
use hobby_os_kernel.Memory.{Mem}
use hobby_os_kernel.Frames.{Ram}
use hobby_os_kernel.Paging.Walk.{entry_at, Result}
use hobby_os_kernel.Paging.Walk.Lookup.{follow, walk_levels, level-present}
use hobby_os_kernel.Paging.Walk.Path.{IsTable, IsGood, PathOk, Kept, Resolves, follow-cong}
use hobby_os_kernel.Paging.Walk.Create.{
  HasFree, Made, address, address-IsTable, linked, linked-Made, level-full, level-makes,
}

-- The tables that the walk has passed are in use.
abbrev pub SeenOk : List ℕ → List ℕ → Type 0
SeenOk free seen = (u : ℕ) → has u seen ≡ true → IsTable u × (has (u / 4096) free ≡ false)

-- The walk ended in a table that the path leads to, none of those it had passed, and these read as
-- before. Or it failed, with fewer free pages than levels.
abbrev pub Walked : ℕ → List ℕ → Mem → ℕ → List ℕ → Result → Type 0
Walked pages seen m t is (none, s') = pages < length is
Walked pages seen m t is (some last, s') =
    Resolves s'.bytes t is last × IsTable last × (has last seen ≡ false) × Kept seen m s'.bytes

Walked-cons :
    (pages rest : ℕ) (seen : List ℕ) (m m' : Mem) (t i u : ℕ) (is : List ℕ) (r : Result)
    → IsTable t
    → i < 512
    → follow m' (entry_at t i) ≡ some u
    → Kept seen m m'
    → pages ≤ rest + 1
    → Walked rest (t ∷ seen) m' u is r
    → Walked pages seen m t (i ∷ is) r
Walked-cons pages rest seen m m' t i u is (none, s') table hi link kept le w = omega arith
Walked-cons pages rest seen m m' t i u is (some last, s') table hi link kept le
      (res, last_table, new, later) =
    (
      (
        table,
        hi,
        (λ e. ground arith),
        (u, follow-cong m' s'.bytes (entry_at t i) (later t i (ground arith) hi) ∙ link, res),
      ),
      last_table,
      ground arith,
      (λ v j k hj. later v j (ground arith) hj ∙ kept v j k hj),
    )

module _ (free seen : List ℕ) {t : ℕ} (good : IsGood free seen t) (ok : SeenOk free seen) where
  SeenOk-cons : SeenOk free (t ∷ seen)
  SeenOk-cons u h = elim (ℕ_discrete u t) [
    | yes e ↦
        subst (λ v. IsTable v × (has (v / 4096) free ≡ false)) (sym e) (good.table, good.in_use)
    | no ne ↦ ok u (ground arith)
  ]

SeenOk-tail : (x : ℕ) (free seen : List ℕ) → SeenOk (x ∷ free) seen → SeenOk free seen
SeenOk-tail x free seen ok u h = let (table, used) = ok u h in (table, ground arith)

-- No table in use is the page that the allocator hands out.
address-new : (x : ℕ) (free seen : List ℕ) → SeenOk (x ∷ free) seen → has (address x) seen ≡ false
address-new x free seen ok = elim (Bool-cases (has (address x) seen)) [
  | inl h ↦ absurd (ground (arith, (ok (address x) h).1))
  | inr h ↦ h
]

-- The new table is good, and has no tables behind it.
PathOk-clear :
    (m : Mem) (free seen : List ℕ) (t : ℕ) (is : List ℕ)
    → IsGood free seen t
    → All (λ i. i < 512) is
    → ((j : ℕ) → j < 512 → follow m (entry_at t j) ≡ none)
    → PathOk m free seen t is
PathOk-clear m free seen t [] good his clear = good
PathOk-clear m free seen t (i ∷ is) good his clear = (good, λ u link. absurd (cc (clear i his.0)))

-- Where the entry is present, the walk goes on from its table.
Walked-present :
    (pages t i : ℕ) (is : List ℕ) (s : Ram) (seen : List ℕ) (u : ℕ)
    → IsTable t
    → i < 512
    → follow s.bytes (entry_at t i) ≡ some u
    → Walked pages (t ∷ seen) s.bytes u is (walk_levels u is true s)
    → Walked pages seen s.bytes t (i ∷ is) (walk_levels t (i ∷ is) true s)
unfolding walk_levels
Walked-present pages t i is s seen u table hi link w =
    rw (level-present (entry_at t i) true s u link) (
      Walked-cons pages pages seen s.bytes s.bytes t i u is (walk_levels u is true s) table hi link
        (λ v j k hj. refl) (omega arith) w)

-- Where it is missing, the walk goes on from the new table.
module _ {t i x : ℕ} {s : Ram} {free seen : List ℕ} (f : HasFree s (x ∷ free))
    (good : IsGood (x ∷ free) seen t) (hi : i < 512) (ok : SeenOk (x ∷ free) seen) where
  made : Made s x free t i (linked f (entry_at t i))
  made = linked-Made f good.table good.in_use hi

  made-SeenOk : SeenOk free (t ∷ seen)
  made-SeenOk = SeenOk-tail x free (t ∷ seen) (SeenOk-cons (x ∷ free) seen good ok)

  made-IsGood : IsGood free (t ∷ seen) (address x)
  made-IsGood = record {
    table = address-IsTable x made.small;
    in_use = ground (arith, made.fresh);
    new = address-new x free (t ∷ seen) (SeenOk-cons (x ∷ free) seen good ok);
  }

  made-Kept : Kept seen s.bytes (linked f (entry_at t i)).bytes
  made-Kept u j h hj =
      made.others u j (ok u h).0 (λ e. ground (arith, good.new))
        (λ e. ground (arith, address-new x free seen ok)) hj

  Walked-missing :
      (is : List ℕ)
      → follow s.bytes (entry_at t i) ≡ none
      → Walked
          (length free)
          (t ∷ seen)
          (linked f (entry_at t i)).bytes
          (address x)
          is
          (walk_levels (address x) is true (linked f (entry_at t i)))
      → Walked (suc (length free)) seen s.bytes t (i ∷ is) (walk_levels t (i ∷ is) true s)
  unfolding walk_levels
  Walked-missing is missing w = rw (level-makes f good.table good.in_use hi missing) (
      Walked-cons (suc (length free)) (length free) seen s.bytes (linked f (entry_at t i)).bytes t i
        (address x) is (walk_levels (address x) is true (linked f (entry_at t i))) good.table hi
        made.linked made-Kept (omega arith) w)

-- A walk over good tables that may make tables ends in one, or runs out of pages.
pub walk_levels-Walked :
    (t : ℕ) (is : List ℕ) (s : Ram) (free seen : List ℕ)
    → HasFree s free
    → SeenOk free seen
    → All (λ i. i < 512) is
    → PathOk s.bytes free seen t is
    → Walked (length free) seen s.bytes t is (walk_levels t is true s)
walk_levels-Walked t [] s free seen f ok his good =
    unfold walk_levels in (refl, good.table, good.new, λ u i h k. refl)
walk_levels-Walked t (i ∷ is) s [] seen f ok his (good, next) =
    elim (Option-cases (follow s.bytes (entry_at t i))) [
      | inr (u, link) ↦ Walked-present 0 t i is s seen u good.table his.0 link (
          walk_levels-Walked u is s [] (t ∷ seen) f (SeenOk-cons [] seen good ok) his.1
            (next u link))
      | inl missing ↦
          unfold walk_levels in rw (level-full (entry_at t i) s missing f.frees) (omega arith)
    ]
walk_levels-Walked t (i ∷ is) s (x ∷ free) seen f ok his (good, next) =
    elim (Option-cases (follow s.bytes (entry_at t i))) [
      | inr (u, link) ↦ Walked-present (suc (length free)) t i is s seen u good.table his.0 link (
          walk_levels-Walked u is s (x ∷ free) (t ∷ seen) f (SeenOk-cons (x ∷ free) seen good ok)
            his.1 (next u link))
      | inl missing ↦ Walked-missing f good his.0 ok is missing (
          walk_levels-Walked (address x) is (linked f (entry_at t i)) free (t ∷ seen)
            (made f good his.0 ok).has_free (made-SeenOk f good his.0 ok) his.1
            (PathOk-clear _ free (t ∷ seen) (address x) is (made-IsGood f good his.0 ok) his.1
              (made f good his.0 ok).clear))
    ]
