-- ===== src/Task/Table.antt =====
-- The searches through the task table.
use hobby_os_kernel.Common.{
  ℕ, zero, suc, ◌+◌, ◌≤◌, ◌<◌, ◌≡◌, subst, Bool, true, false, Option, none, some, arith, Bool-cases,
  inl, inr, dec_lt,
}
use hobby_os_kernel.Task.{Task, find_from, find_task, task_table_ptr, on_task}

-- What a search over `from ≤ i < stop` may answer: the first number that passes, or none if none does.
abbrev pub IsFirst : ℕ → ℕ → (ℕ → Bool) → Option ℕ → Type 0
IsFirst from stop test none = (j : ℕ) → from ≤ j → j < stop → test j ≡ false
IsFirst from stop test (some i) =
    (from ≤ i) × (i < stop) × (test i ≡ true) × ((j : ℕ) → from ≤ j → j < i → test j ≡ false)

IsFirst-at :
    (from stop : ℕ) (test : ℕ → Bool) (o : Option ℕ)
    → test from ≡ false
    → IsFirst (from + 1) stop test o
    → IsFirst from stop test o
IsFirst-at from stop test none miss later = λ j h k. elim (dec_lt from j) [
  | yes after ↦ later j (omega arith) k
  | no here ↦ subst (λ n. test n ≡ false) (omega arith) miss
]
IsFirst-at from stop test (some i) miss later = (
  omega (arith, later.0),
  later.1,
  later.2,
  (λ j h k. elim (dec_lt from j) [
    | yes after ↦ later.3 j (omega arith) k
    | no here ↦ subst (λ n. test n ≡ false) (omega arith) miss
  ]),
)

pub find_from-IsFirst :
    (rounds i : ℕ) (test : ℕ → Bool) → IsFirst i (i + rounds) test (find_from rounds i test)
unfolding find_from
find_from-IsFirst zero i test = λ j h k. absurd (omega arith)
find_from-IsFirst (suc rounds) i test = elim (Bool-cases (test i)) [
  | inl hit ↦ rw hit (omega arith, omega arith, hit, λ j h k. absurd (omega arith))
  | inr miss ↦ rw miss (
      IsFirst-at i (i + suc rounds) test (find_from rounds (i + 1) test) miss (
        subst (λ n. IsFirst (i + 1) n test (find_from rounds (i + 1) test)) (omega arith)
          (find_from-IsFirst rounds (i + 1) test)))
]

pub table_ptr_lem : (i : ℕ) → i < 64 → task_table_ptr i ≡ some i
unfolding task_table_ptr
table_ptr_lem i h = ground arith

at_slot :
    (table : ℕ → Task) (test : Task → Bool) (j : ℕ)
    → j < 64
    → {b : Bool} → on_task table test (task_table_ptr j) ≡ b
    → test (table j) ≡ b
at_slot table test j small {b} e = subst (λ p. on_task table test p ≡ b) (table_ptr_lem j small) e

narrow :
    (table : ℕ → Task) (test : Task → Bool) (o : Option ℕ)
    → IsFirst 0 64 (λ i. on_task table test (task_table_ptr i)) o
    → IsFirst 0 64 (λ i. test (table i)) o
narrow table test none h = λ j a b. at_slot table test j b (h j a b)
narrow table test (some i) h = (
  h.0,
  h.1,
  at_slot table test i h.1 h.2,
  λ j a b. at_slot table test j (omega (arith, h.1)) (h.3 j a b),
)

-- A search through the table answers the first of the 64 slots whose task passes, or NULL.
pub find_task-IsFirst :
    (table : ℕ → Task) (test : Task → Bool)
    → IsFirst 0 64 (λ i. test (table i)) (find_task table test)
unfolding find_task
find_task-IsFirst table test =
    narrow table test _ (find_from-IsFirst 64 0 (λ i. on_task table test (task_table_ptr i)))
