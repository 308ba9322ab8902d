-- ===== src/Paging/Tree/Map.antt =====
-- `vmm_map` and `vmm_unmap` as changes of one page of the map that the processor sees.
use hobby_os_kernel.Common.{
  ℕ, ◌+◌, ◌%◌, ◌^◌, ◌<◌, ◌≡◌, refl, sym, ap, ◌∙◌, ◌⊎◌, inl, inr, Bool, true, false, if◌then◌else◌,
  List, [], ◌∷◌, Option, none, some, arith, Bool-cases, length,
}
use hobby_os_kernel.Memory.{Mem, store64}
use hobby_os_kernel.Memory.Words.{load64-store64_self}
use hobby_os_kernel.Frames.{Ram}
use hobby_os_kernel.Paging.Entry.{present, pte_get_addr, pte_make, pt_index}
use hobby_os_kernel.Paging.RoundTrip.{
  IsFrameAddress, pte_make-sum, pte_make_round_trip, pte_make-flags,
}
use hobby_os_kernel.Paging.Walk.{
  entry_at, load_entry, store_entry, Result, and_then, write_entry, vmm_map, clear_entry, vmm_unmap,
}
use hobby_os_kernel.Paging.Walk.Lookup.{
  bind_opt, resolve, upper_indices, translate, walk_levels, vmm_walk-levels, vmm_walk-lookup,
}
use hobby_os_kernel.Paging.Walk.Create.{HasFree}
use hobby_os_kernel.Paging.Tree.{IsTree, Off, resolve-append, follow-none}
use hobby_os_kernel.Paging.Tree.Pages.{
  upper-Indices, pt_index-lt, same_page, way_of, translate-resolve, way-Indices, way-eq, way-ne,
}
use hobby_os_kernel.Paging.Tree.Walk.{Extends, Walks, walk_levels-Walks}
use hobby_os_kernel.Paging.Tree.Leaf.{leaf-others, leaf-page, leaf-IsTree, leaf-Off}

bind-if :
    (b : Bool) (a : ℕ) (k : ℕ → Option ℕ)
    → bind_opt (if b then some a else none) k ≡ (if b then k a else none)
bind-if true a k = refl
bind-if false a k = refl

module _ {m : Mem} {root : ℕ} {free : List ℕ} (tree : IsTree m root free) (a : ℕ) {last : ℕ}
    (at : resolve m root (upper_indices a) ≡ some last) (v : ℕ) (small : v < 2 ^ 64) where
  abbrev slot_of : ℕ
  slot_of = entry_at last (pt_index a)

  written-IsTree : IsTree (store64 m slot_of v) root free
  written-IsTree =
      leaf-IsTree tree (upper_indices a) refl (upper-Indices a) at (pt_index a) v (pt_index-lt a)

  written-Off :
      (q : ℕ)
      → Off m root free q
      → (store64 m slot_of v q ≡ m q) × Off (store64 m slot_of v) root free q
  written-Off =
      leaf-Off tree (upper_indices a) refl (upper-Indices a) at (pt_index a) v (pt_index-lt a)

  -- After a write of `v` to the last entry for `a`, the page of `a` is translated by `v`, and every other
  -- page as before.
  written-translate :
      (b : ℕ)
      → translate (store64 m slot_of v) root b ≡ (
          if same_page a b
          then (if present v then some (pte_get_addr v + b % 4096) else none)
          else translate m root b)
  written-translate b = elim (Bool-cases (same_page a b)) [
    | inl same ↦ rw same (
        translate-resolve (store64 m slot_of v) root b
        ∙ (ap (λ l. bind_opt (resolve (store64 m slot_of v) root l) λ page. some (page + b % 4096))
              (way-eq a b same)
            ∙ (ap (λ o. bind_opt o λ page. some (page + b % 4096))
                  (leaf-page tree (upper_indices a) refl (upper-Indices a) at (pt_index a) v
                      (pt_index-lt a)
                    ∙ ap (λ w. if present w then some (pte_get_addr w) else none)
                        (load64-store64_self m slot_of v small))
                ∙ bind-if (present v) (pte_get_addr v) (λ page. some (page + b % 4096)))))
    | inr other ↦ rw other (
        translate-resolve (store64 m slot_of v) root b
        ∙ (ap (λ o. bind_opt o λ page. some (page + b % 4096))
              (leaf-others tree (upper_indices a) refl (upper-Indices a) at (pt_index a) v
                (pt_index-lt a) (way_of b) (omega arith) (way-Indices b) (way-ne a b other))
            ∙ sym (translate-resolve m root b)))
  ]

stored-HasFree :
    {s : Ram} {free : List ℕ} (slot v : ℕ) → HasFree s free → HasFree (store_entry slot v s) free
stored-HasFree slot v f = record {
  frees = record {
    chain = f.frees.chain;
    once = f.frees.once;
    unused = f.frees.unused;
    real = f.frees.real;
  };
  small = f.small;
}

Extends-translate :
    {s s' : Ram} {root : ℕ} {free free' : List ℕ}
    → Extends s root free s' free'
    → (b : ℕ) → translate s'.bytes root b ≡ translate s.bytes root b
Extends-translate {s} {s'} {root} e b =
    translate-resolve s'.bytes root b
    ∙ (ap (λ o. bind_opt o λ page. some (page + b % 4096)) (e.pages (way_of b) refl (way-Indices b))
        ∙ sym (translate-resolve s.bytes root b))

-- What an operation makes of the map that the processor sees: a tree again, with the free pages
-- `free'`, in which each address is translated by `view`. What lies off the tables and the free pages
-- keeps its bytes, and lies off them still.
pub record Shows (root : ℕ) (s : Ram) (free : List ℕ) (view : ℕ → Option ℕ) (s' : Ram)
    (free' : List ℕ) : Type 0 where
  pub has_free : HasFree s' free'
  pub tree : IsTree s'.bytes root free'
  pub seen : (b : ℕ) → translate s'.bytes root b ≡ view b
  pub untouched :
      (q : ℕ) → Off s.bytes root free q → (s'.bytes q ≡ s.bytes q) × Off s'.bytes root free' q

module _ {phys flags : ℕ} (frame : IsFrameAddress phys) (low : flags < 2 ^ 12)
    (on : present flags ≡ true) where
  write_entry-Shows :
      (s : Ram) (root a : ℕ) (free : List ℕ) (r : Result)
      → Walks s root (upper_indices a) 3 free r
      → (free' : List ℕ) × ((length free < 3)
            × Shows root s free
                (translate s.bytes root)
                (write_entry phys flags (and_then r λ pt s. (some (entry_at pt (pt_index a)), s)))
                free'
          ⊎ Shows root s free
              (λ b. if same_page a b then some (phys + b % 4096) else translate s.bytes root b)
              (write_entry phys flags (and_then r λ pt s. (some (entry_at pt (pt_index a)), s)))
              free')
  unfolding write_entry
  write_entry-Shows s root a free (none, s') (free', e, short) = (
    free',
    inl (
      short,
      record {
        has_free = e.has_free;
        tree = e.tree;
        seen = Extends-translate e;
        untouched = e.untouched;
      },
    ),
  )
  write_entry-Shows s root a free (some last, s') (free', e, at) = (
    free',
    inr (record {
      has_free = stored-HasFree (entry_at last (pt_index a)) (pte_make phys flags) e.has_free;
      tree = written-IsTree e.tree a at (pte_make phys flags) small;
      seen = λ b.
          written-translate e.tree a at (pte_make phys flags) small b
          ∙ (ap (λ o. if same_page a b then o else translate s'.bytes root b) (made b)
              ∙ ap (λ o. if same_page a b then some (phys + b % 4096) else o)
                  (Extends-translate e b));
      untouched = λ q off.
          let (same, off') = e.untouched q off in
          let (same', off'') = written-Off e.tree a at (pte_make phys flags) small q off' in
          (same' ∙ same, off'');
    }),
  )
    where
      small : pte_make phys flags < 2 ^ 64
      small = omega (arith, pte_make-sum flags frame low)

      made :
          (b : ℕ)
          → (if present (pte_make phys flags)
              then some (pte_get_addr (pte_make phys flags) + b % 4096)
              else none)
            ≡ some (phys + b % 4096)
      made b =
          rw ((pte_make-flags flags frame low).0, on, (pte_make_round_trip flags frame low).0) refl

  -- On a tree of tables, `vmm_map` with a present entry for a page-aligned frame below 2 ^ 52 changes the
  -- translation of the page's addresses to the frame, at the same offset, and no other. Or nothing is
  -- translated otherwise than before, and there were fewer than three free pages. The tables stay a tree,
  -- and the memory off the tables and the free pages stays as it was.
  pub vmm_map-Shows :
      (s : Ram) (root a : ℕ) (free : List ℕ)
      → HasFree s free
      → IsTree s.bytes root free
      → (free' : List ℕ) × (((length free < 3)
            × Shows root s free (translate s.bytes root) (vmm_map root a phys flags s) free')
          ⊎ Shows root s free
              (λ b. if same_page a b then some (phys + b % 4096) else translate s.bytes root b)
              (vmm_map root a phys flags s)
              free')
  unfolding vmm_map
  vmm_map-Shows s root a free f tree = rw (vmm_walk-levels root a true s) (
      write_entry-Shows s root a free (walk_levels root (upper_indices a) true s) (
        walk_levels-Walks root (upper_indices a) s free [] f tree (unfold resolve in refl)
          (omega arith) tt (upper-Indices a)))

-- A page that is not translated.
nothing_seen :
    (m : Mem) (root a : ℕ)
    → resolve m root (way_of a) ≡ none
    → (b : ℕ) → translate m root b ≡ (if same_page a b then none else translate m root b)
nothing_seen m root a e b = elim (Bool-cases (same_page a b)) [
  | inr other ↦ rw other refl
  | inl same ↦ rw same (
      translate-resolve m root b
      ∙ ap (λ o. bind_opt o λ page. some (page + b % 4096))
          (ap (resolve m root) (way-eq a b same) ∙ e))
]

clear_entry-Shows :
    (s : Ram) (root a : ℕ) (free : List ℕ) (o : Option ℕ)
    → HasFree s free
    → IsTree s.bytes root free
    → resolve s.bytes root (upper_indices a) ≡ o
    → Shows root s free
        (λ b. if same_page a b then none else translate s.bytes root b)
        (clear_entry (bind_opt o (λ pt. some (entry_at pt (pt_index a))), s))
        free
unfolding clear_entry
clear_entry-Shows s root a free none f tree e = record {
  has_free = f;
  tree = tree;
  seen =
      nothing_seen s.bytes root a
        (resolve-append s.bytes root (upper_indices a) (pt_index a ∷ []) ∙ rw e refl);
  untouched = λ q off. (refl, off);
}
clear_entry-Shows s root a free (some last) f tree e =
    elim (Bool-cases (present (load_entry s (entry_at last (pt_index a))))) [
      | inl there ↦ rw there (record {
        has_free = stored-HasFree (entry_at last (pt_index a)) 0 f;
        tree = written-IsTree tree a e 0 (omega arith);
        seen = λ b. written-translate tree a e 0 (omega arith) b ∙ unfold present in refl;
        untouched = written-Off tree a e 0 (omega arith);
      })
      | inr gone ↦ rw gone (record {
        has_free = f;
        tree = tree;
        seen = nothing_seen s.bytes root a (
            resolve-append s.bytes root (upper_indices a) (pt_index a ∷ [])
            ∙ rw e (follow-none s.bytes last (pt_index a) [] (rw gone refl)));
        untouched = λ q off. (refl, off);
      })
    ]

-- On a tree of tables, `vmm_unmap` takes the translation from the page's addresses, and changes no other.
-- The tables stay a tree, and the free pages and the memory off these and the tables are as before.
pub vmm_unmap-Shows :
    (s : Ram) (root a : ℕ) (free : List ℕ)
    → HasFree s free
    → IsTree s.bytes root free
    → Shows root s free
        (λ b. if same_page a b then none else translate s.bytes root b)
        (vmm_unmap root a s)
        free
unfolding vmm_unmap
vmm_unmap-Shows s root a free f tree =
    rw (vmm_walk-lookup root a s)
      (clear_entry-Shows s root a free (resolve s.bytes root (upper_indices a)) f tree refl)
