-- ===== src/Task/Slots.antt =====
-- The free slots of the task table as a list, and the operations on it.
use hobby_os_kernel.Common.{
  ℕ, ◌≤◌, ◌<◌, ◌≡◌, refl, sym, ap, ◌∙◌, subst, ◌≢◌, Bool, true, false, ◌&&◌, List, [], ◌∷◌, Option,
  none, some, arith, leb, has, Distinct, ==_ne, ==_self, ℕ_discrete,
}
use hobby_os_kernel.Task.{
  Task, Kernel, task_unused, in_state, set_task, unlink, slot_head, task_slot_alloc, released,
  task_slot_free,
}

-- From `p` the links lead through the slots `xs` to NULL.
abbrev pub Chain : (ℕ → Task) → Option ℕ → List ℕ → Type 0
Chain table p [] = p ≡ none
Chain table p (x ∷ xs) = (p ≡ some x) × Chain table (table x).next_free xs

abbrev pub unused : (ℕ → Task) → ℕ → Bool
unused table i = in_state task_unused (table i)

-- The free list holds, each once, the slots whose task is unused; slot 0 is unused and never on it.
pub record Slots (table : ℕ → Task) (free : Option ℕ) (xs : List ℕ) : Type 0 where
  pub chain : Chain table free xs
  pub once : Distinct xs
  pub inside : (i : ℕ) → has i xs ≡ true → i < 64
  pub listed : (i : ℕ) → i < 64 → has i xs ≡ (leb 1 i && unused table i)
  pub reserved : unused table 0 ≡ true

-- The same with slot `t`, which may be in any state, off the list.
pub record Detached (table : ℕ → Task) (free : Option ℕ) (xs : List ℕ) (t : ℕ) : Type 0 where
  pub chain : Chain table free xs
  pub once : Distinct xs
  pub inside : (i : ℕ) → has i xs ≡ true → i < 64
  pub listed : (i : ℕ) → i < 64 → i ≢ t → has i xs ≡ (leb 1 i && unused table i)
  pub reserved : unused table 0 ≡ true
  pub absent : has t xs ≡ false
  pub positive : 1 ≤ t
  pub real : t < 64

pub set_task_ne : (table : ℕ → Task) (i j : ℕ) (t : Task) → j ≢ i → set_task table i t j ≡ table j
set_task_ne table i j t ne = rw (==_ne j i ne)

pub set_task_self : (table : ℕ → Task) (i : ℕ) (t : Task) → set_task table i t i ≡ t
set_task_self table i t = rw (==_self i)

-- A change to one slot is not seen from a chain without it.
pub Chain-set_task :
    (table : ℕ → Task) (i : ℕ) (t : Task) (p : Option ℕ) (xs : List ℕ)
    → has i xs ≡ false
    → Chain table p xs
    → Chain (set_task table i t) p xs
Chain-set_task table i t p [] h c = c
Chain-set_task table i t p (x ∷ xs) h c = (
  c.0,
  subst (λ u. Chain (set_task table i t) u.next_free xs)
      (sym (set_task_ne table i x t (λ e. ground (arith, e))))
      (Chain-set_task table i t (table x).next_free xs (ground arith) c.1),
)

pub unused-set_task_ne :
    (table : ℕ → Task) (t : ℕ) (task : Task) (i : ℕ)
    → i ≢ t
    → unused (set_task table t task) i ≡ unused table i
unused-set_task_ne table t task i ne = ap (in_state task_unused) (set_task_ne table t i task ne)

pub unused-set_task_self :
    (table : ℕ → Task) (t : ℕ) (task : Task)
    → unused (set_task table t task) t ≡ in_state task_unused task
unused-set_task_self table t task = ap (in_state task_unused) (set_task_self table t task)

module _ {table : ℕ → Task} {free : Option ℕ} {xs : List ℕ} {t : ℕ} where
  -- A detached slot may be changed at will.
  pub Detached-set_task :
      (task : Task) → Detached table free xs t → Detached (set_task table t task) free xs t
  Detached-set_task task d = record {
    chain = Chain-set_task table t task free xs d.absent d.chain;
    once = d.once;
    inside = d.inside;
    listed = λ i small ne.
        d.listed i small ne ∙ ap (λ b. leb 1 i && b) (sym (unused-set_task_ne table t task i ne));
    reserved = unused-set_task_ne table t task 0 (omega (arith, d.positive)) ∙ d.reserved;
    absent = d.absent;
    positive = d.positive;
    real = d.real;
  }

  -- Once its task is in use, all slots are accounted for again.
  pub Detached-fill : Detached table free xs t → unused table t ≡ false → Slots table free xs
  Detached-fill d used = record {
    chain = d.chain;
    once = d.once;
    inside = d.inside;
    listed = λ i small. elim (ℕ_discrete i t) [
      | yes e ↦ rw e (rw (used, d.absent) (ground arith))
      | no ne ↦ d.listed i small ne
    ];
    reserved = d.reserved;
  }

  -- A slot in use is off the list.
  pub Slots-used : Slots table free xs → t < 64 → unused table t ≡ false → Detached table free xs t
  Slots-used s small used = record {
    chain = s.chain;
    once = s.once;
    inside = s.inside;
    listed = λ i k ne. s.listed i k;
    reserved = s.reserved;
    absent = s.listed t small ∙ rw used (ground arith);
    positive = elim (ℕ_discrete t 0) [
      | yes e ↦ absurd (cc (e, used, s.reserved))
      | no ne ↦ omega arith
    ];
    real = small;
  }

  -- A change that leaves a used task in use keeps the slots.
  pub Slots-set_task :
      (task : Task)
      → Slots table free xs
      → t < 64
      → unused table t ≡ false
      → in_state task_unused task ≡ false
      → Slots (set_task table t task) free xs
  Slots-set_task task s small used still = again (Detached-set_task task (Slots-used s small used))
    where
      again : Detached (set_task table t task) free xs t → Slots (set_task table t task) free xs
      again d = record {
        chain = d.chain;
        once = d.once;
        inside = d.inside;
        listed = λ i k. elim (ℕ_discrete i t) [
          | yes e ↦ rw e (rw (unused-set_task_self table t task, still, d.absent) (ground arith))
          | no ne ↦ d.listed i k ne
        ];
        reserved = d.reserved;
      }

pub Slots-first :
    {table : ℕ → Task} {free : Option ℕ} {x : ℕ} {xs : List ℕ}
    → Slots table free (x ∷ xs)
    → Detached table (table x).next_free xs x
Slots-first {table} {free} {x} {xs} s = record {
  chain = s.chain.1;
  once = s.once.1;
  inside = λ i h. s.inside i (ground arith);
  listed = λ i small ne. ground (arith, s.listed i small);
  reserved = s.reserved;
  absent = s.once.0;
  positive = ground (arith, s.listed x small_x);
  real = small_x;
}
  where
    small_x : x < 64
    small_x = s.inside x (ground arith)

abbrev pub Allocates : Kernel → List ℕ → Type 0
Allocates k [] = task_slot_alloc k ≡ (none, k)
Allocates k (x ∷ xs) =
    let (r, k') = task_slot_alloc k in (r ≡ some x) × Detached k'.task_table k'.task_free_list xs x

pub slot_alloc-some :
    (k : Kernel) (x : ℕ) → k.task_free_list ≡ some x → task_slot_alloc k ≡ slot_head (some x) k
unfolding task_slot_alloc
slot_alloc-some k x e = ap (λ p. slot_head p k) e

pub slot_alloc-none : (k : Kernel) → k.task_free_list ≡ none → task_slot_alloc k ≡ (none, k)
unfolding task_slot_alloc
slot_alloc-none k e = ap (λ p. slot_head p k) e

-- With no free slot `task_slot_alloc` returns NULL and changes nothing. Otherwise it takes the first
-- slot off the list.
pub task_slot_alloc-Allocates :
    (k : Kernel) (xs : List ℕ) → Slots k.task_table k.task_free_list xs → Allocates k xs
task_slot_alloc-Allocates k [] s = slot_alloc-none k s.chain
task_slot_alloc-Allocates k (x ∷ xs) s =
    rw (slot_alloc-some k x s.chain.0) (unfold slot_head in (refl, detached))
  where
    detached :
        Detached (set_task k.task_table x (unlink (k.task_table x))) (k.task_table x).next_free xs x
    detached = Detached-set_task (unlink (k.task_table x)) (Slots-first s)

-- A detached slot becomes the first free one.
pub task_slot_free-Slots :
    (k : Kernel) (xs : List ℕ) (t : ℕ)
    → Detached k.task_table k.task_free_list xs t
    → Slots (task_slot_free t k).task_table (task_slot_free t k).task_free_list (t ∷ xs)
unfolding task_slot_free
task_slot_free-Slots k xs t d = record {
  chain = (
    refl,
    subst (λ u. Chain (set_task k.task_table t freed) u.next_free xs)
        (sym (set_task_self k.task_table t freed))
        (Chain-set_task k.task_table t freed k.task_free_list xs d.absent d.chain),
  );
  once = (d.absent, d.once);
  inside = λ i h. elim (ℕ_discrete i t) [
    | yes e ↦ omega (arith, d.real, e)
    | no ne ↦ d.inside i (ground arith)
  ];
  listed = λ i small. elim (ℕ_discrete i t) [
    | yes e ↦ rw e (rw (unused-set_task_self k.task_table t freed) (ground (arith, d.positive)))
    | no ne ↦
        rw (unused-set_task_ne k.task_table t freed i ne) (ground (arith, d.listed i small ne))
  ];
  reserved = unused-set_task_ne k.task_table t freed 0 (omega (arith, d.positive)) ∙ d.reserved;
}
  where
    freed : Task
    freed = released k.task_free_list (k.task_table t)
