-- ===== src/Paging/Tree/Attach.antt =====
-- A new table in the tree of an address space.
use hobby_os_kernel.Common.{
  ℕ, ◌*◌, ◌+◌, ◌/◌, ◌^◌, ◌≤◌, ◌<◌, ◌≡◌, refl, sym, ap, ◌∙◌, subst, ◌≢◌, ◌⊎◌, inl, inr, false, List,
  [], ◌∷◌, ◌++◌, Option, none, some, has, length, length-append, Option-cases, ℕ_discrete, arith,
}
use mathlib.Core.List.{append_assoc}
use hobby_os_kernel.Memory.{Mem, load64}
use hobby_os_kernel.Paging.Walk.{entry_at}
use hobby_os_kernel.Paging.Walk.Lookup.{follow, resolve}
use hobby_os_kernel.Paging.Walk.Path.{IsTable, follow-cong}
use hobby_os_kernel.Paging.Walk.Create.{address, address-IsTable}
use hobby_os_kernel.Paging.Tree.{
  Indices, IsTree, Off, resolve-snoc, All-append, follow-some, follow-none,
}

-- Memory `m'` is `m` with the cleared table of page `x` behind entry `i` of the table `t`.
pub record Attached (m m' : Mem) (x t i : ℕ) : Type 0 where
  pub small : x < 2 ^ 40
  pub missing : follow m (entry_at t i) ≡ none
  pub linked : follow m' (entry_at t i) ≡ some (address x)
  pub clear : (j : ℕ) → j < 512 → follow m' (entry_at (address x) j) ≡ none
  pub others :
      (u j : ℕ)
      → IsTable u
      → u ≢ address x
      → j < 512
      → (u ≢ t) ⊎ (j ≢ i)
      → load64 m' (entry_at u j) ≡ load64 m (entry_at u j)

module _ {m m' : Mem} {x t i root : ℕ} {free : List ℕ} (made : Attached m m' x t i)
    (tree : IsTree m root (x ∷ free)) (is : List ℕ) (short : length is ≤ 2) (ok : Indices is)
    (at : resolve m root is ≡ some t) where
  not_new : {u : ℕ} → has (u / 4096) (x ∷ free) ≡ false → u ≢ address x
  not_new h e = ground arith

  kept_link :
      (ps : List ℕ) (u j : ℕ)
      → resolve m root ps ≡ some u
      → length ps ≤ 3
      → Indices ps
      → j < 512
      → (u ≢ t) ⊎ (j ≢ i)
      → follow m' (entry_at u j) ≡ follow m (entry_at u j)
  kept_link ps u j e len oks hj ne =
      let (table, used) = tree.tables ps u len oks e in
      follow-cong m m' (entry_at u j) (made.others u j table (not_new used) hj ne)

  -- What the indices `js` lead to from a table `u` of the old tree: what they did, or the new table.
  abbrev Leads : List ℕ → ℕ → List ℕ → Type 0
  Leads ps u js =
      (resolve m' u js ≡ resolve m u js)
      ⊎ ((ps ++ js ≡ is ++ i ∷ []) × (resolve m' u js ≡ some (address x)) × (resolve m u js ≡ none))

  -- Through an entry that both memories share.
  through :
      (ps : List ℕ) (u j : ℕ) (js : List ℕ)
      → follow m' (entry_at u j) ≡ follow m (entry_at u j)
      → ((w : ℕ) → follow m (entry_at u j) ≡ some w → Leads (ps ++ j ∷ []) w js)
      → Leads ps u (j ∷ js)
  through ps u j js same rest = elim (Option-cases (follow m (entry_at u j))) [
    | inl gone ↦ inl (follow-none m' u j js (same ∙ gone) ∙ sym (follow-none m u j js gone))
    | inr (w, link) ↦ further w link (rest w link)
  ]
    where
      further :
          (w : ℕ)
          → follow m (entry_at u j) ≡ some w
          → Leads (ps ++ j ∷ []) w js
          → Leads ps u (j ∷ js)
      further w link (inl e) =
          inl (follow-some m' u j js (same ∙ link) ∙ (e ∙ sym (follow-some m u j js link)))
      further w link (inr (way, new, old)) = inr (
        sym (append_assoc ps (j ∷ []) js) ∙ way,
        follow-some m' u j js (same ∙ link) ∙ new,
        follow-some m u j js link ∙ old,
      )

  -- Through the new entry.
  at_new :
      (ps js : List ℕ)
      → resolve m root ps ≡ some t
      → length ps ≤ 3
      → Indices ps
      → Indices js
      → Leads ps t (i ∷ js)
  at_new ps [] e len oks h = inr (
    ap (λ l. l ++ i ∷ []) (tree.one_way ps is t len (omega arith) oks ok e at),
    follow-some m' t i [] made.linked ∙ unfold resolve in refl,
    follow-none m t i [] made.missing,
  )
  at_new ps (k ∷ js) e len oks (hk, h) = inl (
      follow-some m' t i (k ∷ js) made.linked
      ∙ (follow-none m' (address x) k js (made.clear k hk)
          ∙ sym (follow-none m t i (k ∷ js) made.missing)))

  leads :
      (ps js : List ℕ) (u : ℕ)
      → resolve m root ps ≡ some u
      → length ps + length js ≤ 4
      → Indices ps
      → Indices js
      → Leads ps u js
  leads ps [] u e len oks h = inl (unfold resolve in refl)
  leads ps (j ∷ js) u e len oks (hj, h) =
      let rest = λ (w : ℕ) (link : follow m (entry_at u j) ≡ some w).
        leads (ps ++ j ∷ []) js w (resolve-snoc m root ps j e link)
          (omega (arith, length-append ps (j ∷ []))) (All-append ps (j ∷ []) oks (hj, tt)) h in
      elim (ℕ_discrete u t) [
        | no ne ↦ through ps u j js (kept_link ps u j e (omega arith) oks hj (inl ne)) rest
        | yes here ↦ elim (ℕ_discrete j i) [
          | no ne ↦ through ps u j js (kept_link ps u j e (omega arith) oks hj (inr ne)) rest
          | yes this ↦
              subst (λ n. Leads ps n (j ∷ js)) (sym here)
                (subst (λ n. Leads ps t (n ∷ js)) (sym this)
                  (at_new ps js (e ∙ ap some here) (omega arith) oks h))
        ]
      ]

  old_or_new :
      (js : List ℕ) (u : ℕ)
      → length js ≤ 4
      → Indices js
      → resolve m' root js ≡ some u
      → (resolve m root js ≡ some u) ⊎ ((js ≡ is ++ i ∷ []) × (u ≡ address x))
  old_or_new js u len h e = by_case (leads [] js root (unfold resolve in refl) (omega arith) tt h)
    where
      value : Option ℕ → ℕ
      value none = 0
      value (some a) = a

      by_case :
          Leads [] root js → (resolve m root js ≡ some u) ⊎ ((js ≡ is ++ i ∷ []) × (u ≡ address x))
      by_case (inl same) = inl (sym same ∙ e)
      by_case (inr (way, new, old)) = inr (way, ap value (sym e ∙ new))

  pub attach-old :
      (js : List ℕ) (u : ℕ)
      → length js ≤ 4
      → Indices js
      → resolve m root js ≡ some u
      → resolve m' root js ≡ some u
  attach-old js u len h e = by_case (leads [] js root (unfold resolve in refl) (omega arith) tt h)
    where
      by_case : Leads [] root js → resolve m' root js ≡ some u
      by_case (inl same) = same ∙ e
      by_case (inr (way, new, old)) = absurd (cc (sym old ∙ e))

  -- The way to the new table.
  pub attach-new : resolve m' root (is ++ i ∷ []) ≡ some (address x)
  attach-new = resolve-snoc m' root is i (attach-old is t (omega arith) ok at) made.linked

  -- No page's translation changes.
  pub attach-pages :
      (js : List ℕ) → length js ≡ 4 → Indices js → resolve m' root js ≡ resolve m root js
  attach-pages js len h = by_case (leads [] js root (unfold resolve in refl) (omega arith) tt h)
    where
      by_case : Leads [] root js → resolve m' root js ≡ resolve m root js
      by_case (inl same) = same
      by_case (inr (way, new, old)) =
          absurd (omega (arith, ap length way, length-append is (i ∷ [])))

  pub attach-IsTree : has x free ≡ false → IsTree m' root free
  attach-IsTree fresh = record {
    tables = λ js u len h e. table_of js u len h (old_or_new js u (omega arith) h e);
    one_way = λ js ks u len len' h h' e e'.
        same_way js ks u len len' h h' (old_or_new js u (omega arith) h e)
          (old_or_new ks u (omega arith) h' e');
  }
    where
      table_of :
          (js : List ℕ) (u : ℕ)
          → length js ≤ 3
          → Indices js
          → (resolve m root js ≡ some u) ⊎ ((js ≡ is ++ i ∷ []) × (u ≡ address x))
          → IsTable u × (has (u / 4096) free ≡ false)
      table_of js u len h (inl old) =
          let (table, used) = tree.tables js u len h old in (table, ground arith)
      table_of js u len h (inr (way, e)) =
          rw e (address-IsTable x made.small, ground (arith, fresh))

      clash :
          (js : List ℕ) (u : ℕ)
          → length js ≤ 3
          → Indices js
          → resolve m root js ≡ some u
          → u ≡ address x
          → ⊥
      clash js u len h old e = not_new (tree.tables js u len h old).1 e

      same_way :
          (js ks : List ℕ) (u : ℕ)
          → length js ≤ 3
          → length ks ≤ 3
          → Indices js
          → Indices ks
          → (resolve m root js ≡ some u) ⊎ ((js ≡ is ++ i ∷ []) × (u ≡ address x))
          → (resolve m root ks ≡ some u) ⊎ ((ks ≡ is ++ i ∷ []) × (u ≡ address x))
          → js ≡ ks
      same_way js ks u len len' h h' (inl a) (inl b) = tree.one_way js ks u len len' h h' a b
      same_way js ks u len len' h h' (inl a) (inr (way, e)) = absurd (clash js u len h a e)
      same_way js ks u len len' h h' (inr (way, e)) (inl b) = absurd (clash ks u len' h' b e)
      same_way js ks u len len' h h' (inr (way, e)) (inr (way', e')) = way ∙ sym way'

  -- An address off the tables and the free pages stays so.
  pub attach-Off : (q : ℕ) → Off m root (x ∷ free) q → Off m' root free q
  attach-Off q off = record {
    not_free = ground (arith, off.not_free);
    not_table = λ js u len h e. by_case js u len h (old_or_new js u (omega arith) h e);
  }
    where
      by_case :
          (js : List ℕ) (u : ℕ)
          → length js ≤ 3
          → Indices js
          → (resolve m root js ≡ some u) ⊎ ((js ≡ is ++ i ∷ []) × (u ≡ address x))
          → q / 4096 * 4096 ≢ u
      by_case js u len h (inl old) e = off.not_table js u len h old e
      by_case js u len h (inr (way, new)) e = ground (arith, off.not_free)
