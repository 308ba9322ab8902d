-- ===== src/Frames/Init/Usable.antt =====
-- Which pages `frame_alloc_init` makes free.
use hobby_os_kernel.Common.{
  ℕ, zero, suc, ◌+◌, ◌*◌, ◌/◌, ◌%◌, ◌^◌, ◌≤◌, ◌<◌, ◌≡◌, refl, sym, subst, ◌∙◌, true, false, List,
  ◌∷◌, some, ltb, leb, arith, has, Bool-cases, inl, inr, ℕ_discrete, ltb→lt,
}
use hobby_os_kernel.Word.{u64}
use hobby_os_kernel.Frames.{Ram, set_link, put_page}
use hobby_os_kernel.Frames.FreeList.{Frees, put_page-Frees}
use hobby_os_kernel.Frames.Init.{push_page, pages_loop}

-- The free list holds pages below `limit`, of which `P` holds, and no page is in use.
pub record Filled (P : ℕ → Type 0) (s : Ram) (xs : List ℕ) (limit : ℕ) : Type 0 where
  pub frees : Frees s xs
  pub below : (x : ℕ) → has x xs ≡ true → x * 4096 < limit
  pub holds : (x : ℕ) → has x xs ≡ true → P x
  pub unused : (x : ℕ) → x < s.npages → (s.pages x).pp_ref ≡ 0

-- Somewhere below the new limit, with the same number of pages.
abbrev pub FilledTo : (ℕ → Type 0) → ℕ → Ram → ℕ → Type 0
FilledTo P npages s limit = (xs : List ℕ) × Filled P s xs limit × (s.npages ≡ npages)

module _ (P : ℕ → Type 0) where
  push_page-Filled :
      (s : Ram) (idx limit : ℕ)
      → FilledTo P s.npages s limit
      → limit ≤ idx * 4096
      → P idx
      → FilledTo P s.npages (push_page idx s) (idx * 4096 + 4096)
  unfolding push_page put_page
  push_page-Filled s idx limit (xs, f, e) h p = elim (Bool-cases (leb s.npages idx)) [
    | inl over ↦ rw over (xs, wider f, refl)
    | inr real ↦ rw real (idx ∷ xs, pushed (ground arith), refl)
  ]
    where
      wider : Filled P s xs limit → Filled P s xs (idx * 4096 + 4096)
      wider f = record {
        frees = f.frees;
        below = λ x k. omega (arith, f.below x k);
        holds = f.holds;
        unused = f.unused;
      }

      off : has idx xs ≡ false
      off = elim (Bool-cases (has idx xs)) [
        | inl on ↦ absurd (omega (arith, f.below idx on))
        | inr not_on ↦ not_on
      ]

      pushed :
          idx < s.npages
          → Filled P
              (record s {
                pages = set_link s.pages idx s.page_free_list;
                page_free_list = some idx;
              })
              (idx ∷ xs)
              (idx * 4096 + 4096)
      pushed real = record {
        frees = put_page-Frees f.frees real (f.unused idx real) off;
        below = λ x k. elim (ℕ_discrete x idx) [
          | yes e ↦ omega arith
          | no ne ↦ omega (arith, f.below x (ground arith))
        ];
        holds = λ x k. elim (ℕ_discrete x idx) [
          | yes e ↦ subst P (sym e) p
          | no ne ↦ f.holds x (ground arith)
        ];
        unused = λ x k. ground (arith, f.unused x k);
      }

  pub Filled-wider :
      (n : ℕ) (s : Ram) (limit limit' : ℕ)
      → limit ≤ limit'
      → FilledTo P n s limit
      → FilledTo P n s limit'
  Filled-wider n s limit limit' h (xs, f, e) = (
    xs,
    record {
      frees = f.frees;
      below = λ x k. omega (arith, f.below x k);
      holds = f.holds;
      unused = f.unused;
    },
    e,
  )

  pub pages_loop-Filled :
      (fuel addr stop n : ℕ) (s : Ram) (limit : ℕ)
      → addr % 4096 ≡ 0
      → stop + 4096 < 2 ^ 64
      → stop % 4096 ≡ 0
      → ((idx : ℕ) → addr ≤ idx * 4096 → idx * 4096 < stop → P idx)
      → FilledTo P n s limit
      → limit ≤ addr
      → (top : ℕ) → limit ≤ top
      → stop ≤ top
      → FilledTo P n (pages_loop fuel addr stop s) top
  unfolding pages_loop
  pages_loop-Filled zero addr stop n s limit al room al' all f low top h h' =
      Filled-wider n s limit top h f
  pages_loop-Filled (suc fuel) addr stop n s limit al room al' all f low top h h' =
      elim (Bool-cases (ltb addr stop)) [
        | inr over ↦ rw over (Filled-wider n s limit top h f)
        | inl more ↦
            rw (more, next more)
              (pages_loop-Filled fuel (addr + 4096) stop n (push_page (addr / 4096) s) (addr + 4096)
                (omega arith) room al' (λ idx a b. all idx (omega arith) b)
                (subst (FilledTo P n (push_page (addr / 4096) s)) (omega arith) (
                  pushed f
                    (all (addr / 4096) (omega arith) (omega (arith, ltb→lt addr stop more)))))
                (omega arith) top (omega (arith, ltb→lt addr stop more)) h')
      ]
    where
      next : ltb addr stop ≡ true → u64 (addr + 4096) ≡ addr + 4096
      next more = omega (arith, ltb→lt addr stop more)

      pushed :
          FilledTo P n s limit
          → P (addr / 4096)
          → FilledTo P n (push_page (addr / 4096) s) (addr / 4096 * 4096 + 4096)
      pushed (xs, f, e) p =
          let (ys, g, e') = push_page-Filled s (addr / 4096) limit (xs, f, refl) (omega arith) p in
          (ys, g, e' ∙ e)
