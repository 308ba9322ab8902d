-- ===== src/Paging/Tree/Walk.antt =====
-- The walk that makes the missing tables keeps the tree of an address space, and every translation.
use hobby_os_kernel.Common.{
  ℕ, ◌*◌, ◌/◌, ◌%◌, suc, ◌+◌, ◌/◌, ◌≤◌, ◌<◌, ◌≡◌, refl, sym, ◌∙◌, subst, ◌≢◌, ◌⊎◌, inl, inr, true,
  false, List, [], ◌∷◌, ◌++◌, Option, none, some, has, length, length-append, Option-cases, arith,
  dec_lt, ℕ_discrete,
}
use mathlib.Core.List.{append_assoc, append-nil}
use hobby_os_kernel.Memory.{Mem, load64}
use hobby_os_kernel.Memory.Words.{load64-store64_ne, store64-outside}
use hobby_os_kernel.Frames.{Ram}
use hobby_os_kernel.Paging.Walk.{entry_at, Result}
use hobby_os_kernel.Paging.Walk.Lookup.{follow, resolve, walk_levels, level-present}
use hobby_os_kernel.Paging.Walk.Path.{IsTable}
use hobby_os_kernel.Paging.Walk.Create.{
  HasFree, Made, address, linked, linked-Made, alloc_others, alloc_bytes, level-full, level-makes,
}
use hobby_os_kernel.Paging.Tree.{Indices, IsTree, Off, resolve-snoc, All-append}
use hobby_os_kernel.Paging.Tree.Attach.{
  Attached, attach-new, attach-pages, attach-IsTree, attach-Off,
}

module _ {s : Ram} {x t i : ℕ} {free : List ℕ} (f : HasFree s (x ∷ free)) (table : IsTable t)
    (used : has (t / 4096) (x ∷ free) ≡ false) (hi : i < 512)
    (missing : follow s.bytes (entry_at t i) ≡ none) where
  made : Made s x free t i (linked f (entry_at t i))
  made = linked-Made f table used hi

  linked_others :
      (u j : ℕ)
      → IsTable u
      → u ≢ address x
      → j < 512
      → (u ≢ t) ⊎ (j ≢ i)
      → load64 (linked f (entry_at t i)).bytes (entry_at u j) ≡ load64 s.bytes (entry_at u j)
  linked_others u j a ne hj apart = elim (ℕ_discrete u t) [
    | no other ↦ made.others u j a other ne hj
    | yes same ↦
        load64-store64_ne _ (entry_at t i) (entry_at u j) _ (slots apart same)
        ∙ alloc_others f u j a ne hj
  ]
    where
      slots :
          (u ≢ t) ⊎ (j ≢ i)
          → u ≡ t
          → (entry_at u j + 8 ≤ entry_at t i) ⊎ (entry_at t i + 8 ≤ entry_at u j)
      slots (inl ne) e = absurd (ne e)
      slots (inr ne) e = elim (dec_lt j i) [
        | yes below ↦ inl (omega arith)
        | no above ↦ inr (omega arith)
      ]

  -- The memory off the new table and the one above it.
  linked-bytes :
      (q : ℕ)
      → has (q / 4096) (x ∷ free) ≡ false
      → q / 4096 * 4096 ≢ t
      → (linked f (entry_at t i)).bytes q ≡ s.bytes q
  linked-bytes q not_free ne =
      store64-outside _ (entry_at t i) _ q (outside table.aligned)
      ∙ ground (arith, alloc_bytes f q, not_free)
    where
      outside : t % 4096 ≡ 0 → (q < entry_at t i) ⊎ (entry_at t i + 8 ≤ q)
      outside a = elim (dec_lt q (entry_at t i)) [
        | yes below ↦ inl below
        | no above ↦ inr (ground (arith, ne))
      ]

  pub linked-Attached : Attached s.bytes (linked f (entry_at t i)).bytes x t i
  linked-Attached = record {
    small = made.small;
    missing = missing;
    linked = made.linked;
    clear = made.clear;
    others = linked_others;
  }

-- A tree with the free pages left, in which every page is translated as in `s`.
pub record Extends (s : Ram) (root : ℕ) (free : List ℕ) (s' : Ram) (free' : List ℕ) : Type 0 where
  pub has_free : HasFree s' free'
  pub tree : IsTree s'.bytes root free'
  pub pages :
      (js : List ℕ)
      → length js ≡ 4
      → Indices js
      → resolve s'.bytes root js ≡ resolve s.bytes root js
  pub untouched :
      (q : ℕ) → Off s.bytes root free q → (s'.bytes q ≡ s.bytes q) × Off s'.bytes root free' q

-- The walk along `way` ended in its table; or there were fewer free pages than `levels`.
abbrev pub Ended : Mem → ℕ → List ℕ → ℕ → List ℕ → Option ℕ → Type 0
Ended m root way levels free none = length free < levels
Ended m root way levels free (some last) = resolve m root way ≡ some last

abbrev pub Walks : Ram → ℕ → List ℕ → ℕ → List ℕ → Result → Type 0
Walks s root way levels free r =
    (free' : List ℕ) × Extends s root free r.1 free' × Ended r.1.bytes root way levels free r.0

snoc_short :
    (ps : List ℕ) (i : ℕ) (is : List ℕ)
    → length ps + suc (length is) ≤ 3
    → length (ps ++ i ∷ []) + length is ≤ 3
snoc_short ps i is h = omega (arith, length-append ps (i ∷ []))

module _ {root : ℕ} where
  Walks-later :
      (s s1 : Ram) (free1 : List ℕ) (way : List ℕ) (levels : ℕ) (free : List ℕ) (r : Result)
      → Extends s root free s1 free1
      → length free ≤ suc (length free1)
      → Walks s1 root way levels free1 r
      → Walks s root way (suc levels) free r
  Walks-later s s1 free1 way levels free (o, s') e le (free', e', ended) = (
    free',
    record {
      has_free = e'.has_free;
      tree = e'.tree;
      pages = λ js len h. e'.pages js len h ∙ e.pages js len h;
      untouched = λ q off.
          let (same, off1) = e.untouched q off in
          let (same', off') = e'.untouched q off1 in (same' ∙ same, off');
    },
    ends o ended,
  )
    where
      ends :
          (o : Option ℕ)
          → Ended s'.bytes root way levels free1 o
          → Ended s'.bytes root way (suc levels) free o
      ends none h = omega arith
      ends (some last) h = h

  stays :
      {s : Ram} {free : List ℕ}
      → HasFree s free
      → IsTree s.bytes root free
      → Extends s root free s free
  stays f tree = record {
    has_free = f;
    tree = tree;
    pages = λ js len h. refl;
    untouched = λ q off. (refl, off);
  }

  regroup :
      (s : Ram) (ps : List ℕ) (i : ℕ) (is : List ℕ) (levels : ℕ) (free : List ℕ) (r : Result)
      → Walks s root ((ps ++ i ∷ []) ++ is) levels free r
      → Walks s root (ps ++ i ∷ is) levels free r
  regroup s ps i is levels free r w =
      subst (λ way. Walks s root way levels free r) (append_assoc ps (i ∷ []) is) w

  -- Where the entry is present, the walk goes on from its table.
  walk_present :
      (t i : ℕ) (is : List ℕ) (s : Ram) (free ps : List ℕ) (u : ℕ)
      → HasFree s free
      → IsTree s.bytes root free
      → follow s.bytes (entry_at t i) ≡ some u
      → Walks s root ((ps ++ i ∷ []) ++ is) (length is) free (walk_levels u is true s)
      → Walks s root (ps ++ i ∷ is) (suc (length is)) free (walk_levels t (i ∷ is) true s)
  unfolding walk_levels
  walk_present t i is s free ps u f tree link w = rw (level-present (entry_at t i) true s u link) (
      Walks-later s s free (ps ++ i ∷ is) (length is) free (walk_levels u is true s) (stays f tree)
        (omega arith) (regroup s ps i is _ _ _ w))

  walk_full :
      (t i : ℕ) (is : List ℕ) (s : Ram) (ps : List ℕ)
      → HasFree s []
      → IsTree s.bytes root []
      → follow s.bytes (entry_at t i) ≡ none
      → Walks s root (ps ++ i ∷ is) (suc (length is)) [] (walk_levels t (i ∷ is) true s)
  unfolding walk_levels
  walk_full t i is s ps f tree missing =
      rw (level-full (entry_at t i) s missing f.frees) ([], stays f tree, omega arith)

  -- Where it is missing, the walk goes on from the new table.
  module _ (ps : List ℕ) {t i x : ℕ} {s : Ram} {free : List ℕ} (f : HasFree s (x ∷ free))
      (tree : IsTree s.bytes root (x ∷ free)) (e : resolve s.bytes root ps ≡ some t)
      (short : length ps ≤ 2) (oks : Indices ps) (hi : i < 512)
      (missing : follow s.bytes (entry_at t i) ≡ none) where
    at-IsTable : IsTable t × (has (t / 4096) (x ∷ free) ≡ false)
    at-IsTable = tree.tables ps t (omega arith) oks e

    pub attached : Attached s.bytes (linked f (entry_at t i)).bytes x t i
    attached = linked-Attached f at-IsTable.0 at-IsTable.1 hi missing

    pub attached-Extends : Extends s root (x ∷ free) (linked f (entry_at t i)) free
    attached-Extends = record {
      has_free = (made f at-IsTable.0 at-IsTable.1 hi missing).has_free;
      tree =
          attach-IsTree attached tree ps short oks e
            (made f at-IsTable.0 at-IsTable.1 hi missing).fresh;
      pages = attach-pages attached tree ps short oks e;
      untouched = λ q off. (
        linked-bytes f at-IsTable.0 at-IsTable.1 hi missing q off.not_free
            (off.not_table ps t (omega arith) oks e),
        attach-Off attached tree ps short oks e q off,
      );
    }

    walk_missing :
        (is : List ℕ)
        → Walks
            (linked f (entry_at t i))
            root
            ((ps ++ i ∷ []) ++ is)
            (length is)
            free
            (walk_levels (address x) is true (linked f (entry_at t i)))
        → Walks s root (ps ++ i ∷ is) (suc (length is)) (x ∷ free) (walk_levels t (i ∷ is) true s)
    unfolding walk_levels
    walk_missing is w = rw (level-makes f at-IsTable.0 at-IsTable.1 hi missing) (
        Walks-later s (linked f (entry_at t i)) free (ps ++ i ∷ is) (length is) (x ∷ free)
          (walk_levels (address x) is true (linked f (entry_at t i))) attached-Extends (omega arith)
          (regroup (linked f (entry_at t i)) ps i is _ _ _ w))

  pub walk_levels-Walks :
      (t : ℕ) (is : List ℕ) (s : Ram) (free ps : List ℕ)
      → HasFree s free
      → IsTree s.bytes root free
      → resolve s.bytes root ps ≡ some t
      → length ps + length is ≤ 3
      → Indices ps
      → Indices is
      → Walks s root (ps ++ is) (length is) free (walk_levels t is true s)
  walk_levels-Walks t [] s free ps f tree e len oks h =
      unfold walk_levels in
      (free, stays f tree, subst (λ l. resolve s.bytes root l ≡ some t) (sym (append-nil ps)) e)
  walk_levels-Walks t (i ∷ is) s [] ps f tree e len oks (hi, h) =
      elim (Option-cases (follow s.bytes (entry_at t i))) [
        | inr (u, link) ↦ walk_present t i is s [] ps u f tree link (
            walk_levels-Walks u is s [] (ps ++ i ∷ []) f tree
              (resolve-snoc s.bytes root ps i e link) (snoc_short ps i is len)
              (All-append ps (i ∷ []) oks (hi, tt)) h)
        | inl missing ↦ walk_full t i is s ps f tree missing
      ]
  walk_levels-Walks t (i ∷ is) s (x ∷ free) ps f tree e len oks (hi, h) =
      elim (Option-cases (follow s.bytes (entry_at t i))) [
        | inr (u, link) ↦ walk_present t i is s (x ∷ free) ps u f tree link (
            walk_levels-Walks u is s (x ∷ free) (ps ++ i ∷ []) f tree
              (resolve-snoc s.bytes root ps i e link) (snoc_short ps i is len)
              (All-append ps (i ∷ []) oks (hi, tt)) h)
        | inl missing ↦
            let next = attached-Extends ps f tree e (omega arith) oks hi missing in
            walk_missing ps f tree e (omega arith) oks hi missing is (
              walk_levels-Walks (address x) is (linked f (entry_at t i)) free (ps ++ i ∷ [])
                next.has_free next.tree
                (attach-new (attached ps f tree e (omega arith) oks hi missing) tree ps
                  (omega arith) oks e)
                (snoc_short ps i is len) (All-append ps (i ∷ []) oks (hi, tt)) h)
      ]
