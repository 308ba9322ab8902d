-- ===== src/Paging/Tree/Leaf.antt =====
-- A write to an entry of a last-level table in the tree of an address space.
use hobby_os_kernel.Common.{
  ℕ, ◌*◌, ◌/◌, ◌%◌, suc, ◌+◌, ◌≤◌, ◌<◌, ◌≡◌, refl, sym, ap, ◌∙◌, ◌≢◌, ◌⊎◌, inl, inr, List, [], ◌∷◌,
  ◌++◌, Option, none, some, length, length-append, Option-cases, ℕ_discrete, dec_lt, arith,
}
use mathlib.Core.List.{append_assoc}
use hobby_os_kernel.Memory.{Mem, store64}
use hobby_os_kernel.Memory.Words.{load64-store64_ne, store64-outside}
use hobby_os_kernel.Paging.Walk.{entry_at}
use hobby_os_kernel.Paging.Walk.Lookup.{follow, bind_opt, resolve}
use hobby_os_kernel.Paging.Walk.Path.{IsTable, entries_apart, follow-cong}
use hobby_os_kernel.Paging.Tree.{
  Indices, IsTree, Off, resolve-append, resolve-snoc, All-append, follow-some, follow-none,
}

module _ {m : Mem} {root : ℕ} {free : List ℕ} (tree : IsTree m root free) (is : List ℕ) {last : ℕ}
    (three : length is ≡ 3) (ok : Indices is) (at : resolve m root is ≡ some last) (i v : ℕ)
    (hi : i < 512) where
  abbrev written : Mem
  written = store64 m (entry_at last i) v

  last-IsTable : IsTable last
  last-IsTable = (tree.tables is last (omega arith) ok at).0

  slots :
      (u j : ℕ)
      → IsTable u
      → j < 512
      → (u ≢ last) ⊎ (j ≢ i)
      → (entry_at u j + 8 ≤ entry_at last i) ⊎ (entry_at last i + 8 ≤ entry_at u j)
  slots u j table hj apart = elim (ℕ_discrete u last) [
    | no ne ↦ entries_apart table last-IsTable ne hj hi
    | yes e ↦ same_table apart e
  ]
    where
      same_table :
          (u ≢ last) ⊎ (j ≢ i)
          → u ≡ last
          → (entry_at u j + 8 ≤ entry_at last i) ⊎ (entry_at last i + 8 ≤ entry_at u j)
      same_table (inl ne) e = absurd (ne e)
      same_table (inr ne) e = elim (dec_lt j i) [
        | yes below ↦ inl (omega arith)
        | no above ↦ inr (omega arith)
      ]

  kept_link :
      (ps : List ℕ) (u j : ℕ)
      → resolve m root ps ≡ some u
      → length ps ≤ 3
      → Indices ps
      → j < 512
      → (u ≢ last) ⊎ (j ≢ i)
      → follow written (entry_at u j) ≡ follow m (entry_at u j)
  kept_link ps u j e len oks hj ne = follow-cong m written (entry_at u j) (
      load64-store64_ne m (entry_at last i) (entry_at u j) v
        (slots u j (tree.tables ps u len oks e).0 hj ne))

  -- What the indices `js` lead to from a table `u`: what they did, or what the entry now says.
  abbrev Leads : List ℕ → ℕ → List ℕ → Type 0
  Leads ps u js = (resolve written u js ≡ resolve m u js) ⊎ (ps ++ js ≡ is ++ i ∷ [])

  through :
      (ps : List ℕ) (u j : ℕ) (js : List ℕ)
      → follow written (entry_at u j) ≡ follow m (entry_at u j)
      → ((w : ℕ) → follow m (entry_at u j) ≡ some w → Leads (ps ++ j ∷ []) w js)
      → Leads ps u (j ∷ js)
  through ps u j js same rest = elim (Option-cases (follow m (entry_at u j))) [
    | inl gone ↦ inl (follow-none written u j js (same ∙ gone) ∙ sym (follow-none m u j js gone))
    | inr (w, link) ↦ further w link (rest w link)
  ]
    where
      further :
          (w : ℕ)
          → follow m (entry_at u j) ≡ some w
          → Leads (ps ++ j ∷ []) w js
          → Leads ps u (j ∷ js)
      further w link (inl e) =
          inl (follow-some written u j js (same ∙ link) ∙ (e ∙ sym (follow-some m u j js link)))
      further w link (inr way) = inr (sym (append_assoc ps (j ∷ []) js) ∙ way)

  at_entry :
      (ps js : List ℕ)
      → resolve m root ps ≡ some last
      → length ps + suc (length js) ≤ 4
      → Indices ps
      → ps ++ i ∷ js ≡ is ++ i ∷ []
  at_entry ps js e len oks =
      ends js (tree.one_way ps is last (omega arith) (omega arith) oks ok e at) len
    where
      ends : (js : List ℕ) → ps ≡ is → length ps + suc (length js) ≤ 4 → ps ++ i ∷ js ≡ is ++ i ∷ []
      ends [] same h = ap (λ l. l ++ i ∷ []) same
      ends (j ∷ js) same h = absurd (omega (arith, three, ap length same))

  leads :
      (ps js : List ℕ) (u : ℕ)
      → resolve m root ps ≡ some u
      → length ps + length js ≤ 4
      → Indices ps
      → Indices js
      → Leads ps u js
  leads ps [] u e len oks h = inl (unfold resolve in refl)
  leads ps (j ∷ js) u e len oks (hj, h) =
      let rest = λ (w : ℕ) (link : follow m (entry_at u j) ≡ some w).
        leads (ps ++ j ∷ []) js w (resolve-snoc m root ps j e link)
          (omega (arith, length-append ps (j ∷ []))) (All-append ps (j ∷ []) oks (hj, tt)) h in
      elim (ℕ_discrete u last) [
        | no ne ↦ through ps u j js (kept_link ps u j e (omega arith) oks hj (inl ne)) rest
        | yes here ↦ elim (ℕ_discrete j i) [
          | no ne ↦ through ps u j js (kept_link ps u j e (omega arith) oks hj (inr ne)) rest
          | yes this ↦ inr (ap (λ n. ps ++ n ∷ js) this ∙ at_entry ps js (e ∙ ap some here) len oks)
        ]
      ]

  root_way : (js : List ℕ) → length js ≤ 4 → Indices js → Leads [] root js
  root_way js len h = leads [] js root (unfold resolve in refl) (omega arith) tt h

  -- Every other page is translated as before.
  pub leaf-others :
      (js : List ℕ)
      → length js ≤ 4
      → Indices js
      → js ≢ is ++ i ∷ []
      → resolve written root js ≡ resolve m root js
  leaf-others js len h ne = by_case (root_way js len h)
    where
      by_case : Leads [] root js → resolve written root js ≡ resolve m root js
      by_case (inl same) = same
      by_case (inr way) = absurd (ne way)

  leaf-tables :
      (js : List ℕ) → length js ≤ 3 → Indices js → resolve written root js ≡ resolve m root js
  leaf-tables js len h =
      leaf-others js (omega arith) h
        λ e. omega (arith, three, ap length e, length-append is (i ∷ []))

  -- The page of the entry is translated as the entry says.
  pub leaf-page : resolve written root (is ++ i ∷ []) ≡ follow written (entry_at last i)
  unfolding resolve
  leaf-page =
      resolve-append written root is (i ∷ [])
      ∙ rw (leaf-tables is (omega arith) ok, at) (last_step (follow written (entry_at last i)))
    where
      last_step : (o : Option ℕ) → bind_opt o (λ u. some u) ≡ o
      last_step none = refl
      last_step (some a) = refl

  pub leaf-IsTree : IsTree written root free
  leaf-IsTree = record {
    tables = λ js u len h e. tree.tables js u len h (sym (leaf-tables js len h) ∙ e);
    one_way = λ js ks u len len' h h' e e'.
        tree.one_way js ks u len len' h h' (sym (leaf-tables js len h) ∙ e)
          (sym (leaf-tables ks len' h') ∙ e');
  }

  pub leaf-Off : (q : ℕ) → Off m root free q → (written q ≡ m q) × Off written root free q
  leaf-Off q off = (
    store64-outside m (entry_at last i) v q
        (outside (last-IsTable.aligned) (off.not_table is last (omega arith) ok at)),
    record {
      not_free = off.not_free;
      not_table = λ js u len h e. off.not_table js u len h (sym (leaf-tables js len h) ∙ e);
    },
  )
    where
      outside :
          last % 4096 ≡ 0
          → q / 4096 * 4096 ≢ last
          → (q < entry_at last i) ⊎ (entry_at last i + 8 ≤ q)
      outside a ne = elim (dec_lt q (entry_at last i)) [
        | yes below ↦ inl below
        | no above ↦ inr (ground (arith, ne))
      ]
