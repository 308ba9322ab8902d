-- ===== src/Paging/Tree.antt =====
-- The tables of an address space as a tree, for the functions of paging.c that change them.
pub mod Attach
pub mod Walk
pub mod Leaf
pub mod Pages
pub mod Map
pub mod Aside
pub mod Fresh
use hobby_os_kernel.Common.{
  ℕ, ◌+◌, ◌/◌, ◌*◌, ◌≢◌, ◌≤◌, ◌<◌, ◌≡◌, refl, ap, fun_ext, ◌∙◌, false, List, [], ◌∷◌, ◌++◌, Option,
  none, some, has, All, length, arith,
}
use hobby_os_kernel.Memory.{Mem}
use hobby_os_kernel.Paging.Walk.{entry_at}
use hobby_os_kernel.Paging.Walk.Lookup.{follow, bind_opt, resolve}
use hobby_os_kernel.Paging.Walk.Path.{IsTable}

abbrev pub Indices : List ℕ → Type 0
Indices is = All (λ i. i < 512) is

-- Three indices lead to a table of the last level at most, and a fourth to the frame of a page.
-- Every table is a page in use, and one way alone leads to it.
pub record IsTree (m : Mem) (root : ℕ) (free : List ℕ) : Type 0 where
  pub tables :
      (is : List ℕ) (u : ℕ)
      → length is ≤ 3
      → Indices is
      → resolve m root is ≡ some u
      → IsTable u × (has (u / 4096) free ≡ false)
  pub one_way :
      (is js : List ℕ) (u : ℕ)
      → length is ≤ 3
      → length js ≤ 3
      → Indices is
      → Indices js
      → resolve m root is ≡ some u
      → resolve m root js ≡ some u
      → is ≡ js

pub bind_assoc :
    (o : Option ℕ) (k l : ℕ → Option ℕ)
    → bind_opt o (λ u. bind_opt (k u) l) ≡ bind_opt (bind_opt o k) l
bind_assoc none k l = refl
bind_assoc (some u) k l = refl

-- An address in no free page and in none of the tables, such as one in a frame.
pub record Off (m : Mem) (root : ℕ) (free : List ℕ) (q : ℕ) : Type 0 where
  pub not_free : has (q / 4096) free ≡ false
  pub not_table :
      (is : List ℕ) (u : ℕ)
      → length is ≤ 3
      → Indices is
      → resolve m root is ≡ some u
      → q / 4096 * 4096 ≢ u

pub resolve-append :
    (m : Mem) (t : ℕ) (is js : List ℕ)
    → resolve m t (is ++ js) ≡ bind_opt (resolve m t is) λ u. resolve m u js
unfolding resolve
resolve-append m t [] js = refl
resolve-append m t (i ∷ is) js =
    ap (bind_opt (follow m (entry_at t i))) (fun_ext λ u. resolve-append m u is js)
    ∙ bind_assoc (follow m (entry_at t i)) (λ u. resolve m u is) (λ u. resolve m u js)

-- One index further.
pub resolve-snoc :
    (m : Mem) (root : ℕ) (ps : List ℕ) (j : ℕ) {u w : ℕ}
    → resolve m root ps ≡ some u
    → follow m (entry_at u j) ≡ some w
    → resolve m root (ps ++ j ∷ []) ≡ some w
unfolding resolve
resolve-snoc m root ps j {u} e link = resolve-append m root ps (j ∷ []) ∙ rw e (rw link refl)

pub All-append : (is js : List ℕ) → Indices is → Indices js → Indices (is ++ js)
All-append [] js a b = b
All-append (i ∷ is) js (h, a) b = (h, All-append is js a b)

pub follow-some :
    (n : Mem) (u j : ℕ) (js : List ℕ) {w : ℕ}
    → follow n (entry_at u j) ≡ some w
    → resolve n u (j ∷ js) ≡ resolve n w js
unfolding resolve
follow-some n u j js e = rw e refl

pub follow-none :
    (n : Mem) (u j : ℕ) (js : List ℕ) → follow n (entry_at u j) ≡ none → resolve n u (j ∷ js) ≡ none
unfolding resolve
follow-none n u j js e = rw e refl
