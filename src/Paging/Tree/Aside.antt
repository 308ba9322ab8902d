-- ===== src/Paging/Tree/Aside.antt =====
-- Changes of memory that leave the tables of an address space alone, such as a write to a frame.
use hobby_os_kernel.Common.{
  ℕ, ◌*◌, ◌%◌, ◌+◌, ◌/◌, ◌≤◌, ◌<◌, ◌≡◌, refl, sym, ap, ◌∙◌, List, [], ◌∷◌, ◌++◌, some, length,
  length-append, Option-cases, arith, inl, inr,
}
use hobby_os_kernel.Memory.{Mem}
use hobby_os_kernel.Memory.Words.{load64-cong}
use hobby_os_kernel.Paging.Walk.{entry_at}
use hobby_os_kernel.Paging.Walk.Lookup.{follow, resolve, translate, bind_opt}
use hobby_os_kernel.Paging.Walk.Path.{follow-cong}
use hobby_os_kernel.Paging.Tree.{
  Indices, IsTree, Off, resolve-snoc, All-append, follow-some, follow-none,
}
use hobby_os_kernel.Paging.Tree.Pages.{translate-resolve, way_of, way-Indices}

-- The bytes of every table are the same in both memories.
abbrev pub SameTables : Mem → Mem → ℕ → Type 0
SameTables m m' root =
    (is : List ℕ) (u q : ℕ)
    → length is ≤ 3
    → Indices is
    → resolve m root is ≡ some u
    → q / 4096 * 4096 ≡ u
    → m' q ≡ m q

module _ {m m' : Mem} {root : ℕ} {free : List ℕ} (tree : IsTree m root free)
    (same : SameTables m m' root) where
  same_link :
      (ps : List ℕ) (u j : ℕ)
      → resolve m root ps ≡ some u
      → length ps ≤ 3
      → Indices ps
      → j < 512
      → follow m' (entry_at u j) ≡ follow m (entry_at u j)
  same_link ps u j e len oks hj = follow-cong m m' (entry_at u j) (
      load64-cong (entry_at u j) m m'
        λ q lo hi. same ps u q len oks e (in_table q lo hi (tree.tables ps u len oks e).0.aligned))
    where
      in_table :
          (q : ℕ) → entry_at u j ≤ q → q < entry_at u j + 8 → u % 4096 ≡ 0 → q / 4096 * 4096 ≡ u
      in_table q lo hi a = omega arith

  same_resolve :
      (ps js : List ℕ) (u : ℕ)
      → resolve m root ps ≡ some u
      → length ps + length js ≤ 4
      → Indices ps
      → Indices js
      → resolve m' u js ≡ resolve m u js
  same_resolve ps [] u e len oks h = unfold resolve in refl
  same_resolve ps (j ∷ js) u e len oks (hj, h) =
      let link = same_link ps u j e (omega arith) oks hj in
      elim (Option-cases (follow m (entry_at u j))) [
        | inl gone ↦ follow-none m' u j js (link ∙ gone) ∙ sym (follow-none m u j js gone)
        | inr (w, there) ↦
            follow-some m' u j js (link ∙ there)
            ∙ (same_resolve (ps ++ j ∷ []) js w (resolve-snoc m root ps j e there)
                  (omega (arith, length-append ps (j ∷ []))) (All-append ps (j ∷ []) oks (hj, tt)) h
                ∙ sym (follow-some m u j js there))
      ]

  pub aside-resolve :
      (js : List ℕ) → length js ≤ 4 → Indices js → resolve m' root js ≡ resolve m root js
  aside-resolve js len h = same_resolve [] js root (unfold resolve in refl) (omega arith) tt h

  pub aside-IsTree : IsTree m' root free
  aside-IsTree = record {
    tables = λ js u len h e. tree.tables js u len h (sym (aside-resolve js (omega arith) h) ∙ e);
    one_way = λ js ks u len len' h h' e e'.
        tree.one_way js ks u len len' h h' (sym (aside-resolve js (omega arith) h) ∙ e)
          (sym (aside-resolve ks (omega arith) h') ∙ e');
  }

  pub aside-translate : (b : ℕ) → translate m' root b ≡ translate m root b
  aside-translate b =
      translate-resolve m' root b
      ∙ (ap (λ o. bind_opt o λ page. some (page + b % 4096))
            (aside-resolve (way_of b) (omega arith) (way-Indices b))
          ∙ sym (translate-resolve m root b))

  pub aside-Off : {q : ℕ} → Off m root free q → Off m' root free q
  aside-Off off = record {
    not_free = off.not_free;
    not_table =
        λ js u len h e. off.not_table js u len h (sym (aside-resolve js (omega arith) h) ∙ e);
  }
