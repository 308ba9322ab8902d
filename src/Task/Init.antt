-- ===== src/Task/Init.antt =====
-- The free list that `task_table_init` makes.
use hobby_os_kernel.Common.{
  ℕ, zero, suc, ◌<◌, ◌≤◌, ◌⊎◌, inl, inr, ◌≡◌, refl, sym, ◌∙◌, subst, true, false, ◌&&◌, List, [],
  ◌∷◌, Option, none, some, arith, has, Distinct, ℕ_discrete, ltb,
}
use hobby_os_kernel.Task.{Task, Kernel, set_task, blank, init_slot, init_loop, task_table_init}
use hobby_os_kernel.Task.Slots.{
  Chain, unused, Slots, Chain-set_task, set_task_self, unused-set_task_ne, unused-set_task_self,
}

-- The slots above `i` are on the list, and unused, as slot 0 is.
record Above (i : ℕ) (table : ℕ → Task) (free : Option ℕ) (xs : List ℕ) : Type 0 where
  chain : Chain table free xs
  once : Distinct xs
  listed : (j : ℕ) → has j xs ≡ (ltb i j && ltb j 64)
  unused_above : (j : ℕ) → i < j → j < 64 → unused table j ≡ true
  reserved : unused table 0 ≡ true

Above-next :
    (i : ℕ) (k : Kernel) (xs : List ℕ)
    → suc i < 64
    → Above (suc i) k.task_table k.task_free_list xs
    → Above i (init_slot (suc i) k).task_table (some (suc i)) (suc i ∷ xs)
Above-next i k xs small a = record {
  chain = (
    refl,
    subst (λ u. Chain (set_task k.task_table (suc i) fresh) u.next_free xs)
        (sym (set_task_self k.task_table (suc i) fresh))
        (Chain-set_task k.task_table (suc i) fresh k.task_free_list xs off a.chain),
  );
  once = (off, a.once);
  listed = λ j. ground (arith, a.listed j);
  unused_above = λ j above h. elim (ℕ_discrete j (suc i)) [
    | yes e ↦ rw e (unused-set_task_self k.task_table (suc i) fresh)
    | no ne ↦ unused-set_task_ne k.task_table (suc i) fresh j ne ∙ a.unused_above j (omega arith) h
  ];
  reserved = unused-set_task_ne k.task_table (suc i) fresh 0 (omega arith) ∙ a.reserved;
}
  where
    fresh : Task
    fresh = blank (suc i) k.task_free_list

    off : has (suc i) xs ≡ false
    off = ground (arith, a.listed (suc i))

-- The slots in the order in which the loop leaves them.
abbrev pub stacked : ℕ → List ℕ → List ℕ
stacked zero xs = xs
stacked (suc i) xs = stacked i (suc i ∷ xs)

init_loop-Slots :
    (i : ℕ) (k : Kernel) (xs : List ℕ)
    → i < 64
    → Above i k.task_table k.task_free_list xs
    → Slots (init_loop i k).task_table (init_loop i k).task_free_list (stacked i xs)
unfolding init_loop
init_loop-Slots zero k xs small a = record {
  chain = a.chain;
  once = a.once;
  inside = λ j h. ground (arith, a.listed j);
  listed = λ j h. elim (ℕ_discrete j 0) [
    | yes e ↦ ground (arith, a.listed j)
    | no ne ↦ ground (arith, a.listed j, a.unused_above j (omega arith) h)
  ];
  reserved = a.reserved;
}
init_loop-Slots (suc i) k xs small a =
    init_loop-Slots i (init_slot (suc i) k) (suc i ∷ xs) (omega arith) (Above-next i k xs small a)

-- After `task_table_init`, whatever the table held, the free slots are 1 to 63, in this order, and
-- every task of the table is unused.
pub task_table_init-Slots :
    (k : Kernel)
    → Slots (task_table_init k).task_table (task_table_init k).task_free_list (stacked 63 [])
unfolding task_table_init
task_table_init-Slots k = init_loop-Slots 63 _ [] (omega arith) record {
  chain = refl;
  once = tt;
  listed = λ j. ground arith;
  unused_above = λ j h l. absurd (omega arith);
  reserved = unused-set_task_self k.task_table 0 (blank 0 none);
}

init_loop-others :
    (i : ℕ) (k : Kernel)
    → ((init_loop i k).current_task ≡ k.current_task) × ((init_loop i k).idle_task ≡ k.idle_task)
unfolding init_loop
init_loop-others zero k = (refl, refl)
init_loop-others (suc i) k = init_loop-others i (init_slot (suc i) k)

-- The pointers of the scheduler are left alone.
pub task_table_init-others :
    (k : Kernel)
    → ((task_table_init k).current_task ≡ k.current_task)
      × ((task_table_init k).idle_task ≡ k.idle_task)
unfolding task_table_init
task_table_init-others k =
    init_loop-others 63
      (record k { task_table = set_task k.task_table 0 (blank 0 none); task_free_list = none })

has-stacked :
    (i j : ℕ) (xs : List ℕ) → ((1 ≤ j) × (j ≤ i)) ⊎ (has j xs ≡ true) → has j (stacked i xs) ≡ true
has-stacked zero j xs (inl h) = absurd (omega arith)
has-stacked zero j xs (inr h) = h
has-stacked (suc i) j xs h = has-stacked i j (suc i ∷ xs) (ground (arith, h))

-- Every slot is unused after `task_table_init`.
pub task_table_init-unused :
    (k : Kernel) (j : ℕ) → j < 64 → unused (task_table_init k).task_table j ≡ true
task_table_init-unused k j h = elim (ℕ_discrete j 0) [
  | yes e ↦ rw e (task_table_init-Slots k).reserved
  | no ne ↦
      ground (arith, has-stacked 63 j [] (inl (omega arith)), (task_table_init-Slots k).listed j h)
]
