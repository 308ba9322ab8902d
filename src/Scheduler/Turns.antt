-- ===== src/Scheduler/Turns.antt =====
-- How long a runnable task waits for its turn.
use hobby_os_kernel.Common.{
  ℕ, zero, suc, ◌+◌, ◌-◌, ◌%◌, ◌≤◌, ◌<◌, ◌≡◌, sym, ap, ◌∙◌, subst, ◌⊎◌, inl, inr, true, Option,
  none, some, arith, ℕ_discrete, dec_lt,
}
use hobby_os_kernel.Task.{Kernel}
use hobby_os_kernel.Scheduler.{scheduler_pick_next}
use hobby_os_kernel.Scheduler.Pick.{runnable, IsNextOffset, picked, scheduler_pick_next-first}

-- The number of slots between `c` and `t`, in the order round the table.
abbrev pub between : ℕ → ℕ → ℕ
between c t = (t + 63 - c) % 64

-- The pick is `t` itself, or lies nearer to it.
abbrev pub Nearer : ℕ → ℕ → ℕ → Type 0
Nearer c t n = (n ≡ t) ⊎ ((n < 64) × (between n t < between c t))

abbrev pub Approaches : Kernel → ℕ → ℕ → Type 0
Approaches k c t = (n : ℕ) × (scheduler_pick_next (some c) k ≡ some n) × Nearer c t n

module _ (k : Kernel) (c t : ℕ) (hc : c < 64) (ht : t < 64) (ready : runnable k t ≡ true) where
  offset_of : (o : Option ℕ) → IsNextOffset k c o → Nearer c t (picked k c o)
  offset_of none first = absurd (cc (here, first (between c t + 1) (omega arith) (omega arith)))
    where
      here : runnable k ((c + (between c t + 1)) % 64) ≡ true
      here = subst (λ n. runnable k n ≡ true) (omega arith) ready
  offset_of (some d) first = elim (dec_lt (between c t + 1) d) [
    | yes behind ↦ absurd (cc (here, first.3 (between c t + 1) (omega arith) behind))
    | no not_behind ↦ elim (ℕ_discrete d (between c t + 1)) [
      | yes e ↦ inl (omega arith)
      | no ne ↦ inr (omega arith, omega (arith, first.0))
    ]
  ]
    where
      here : runnable k ((c + (between c t + 1)) % 64) ≡ true
      here = subst (λ n. runnable k n ≡ true) (omega arith) ready

  -- While `t` is runnable, each pick is `t` or a task nearer to `t`.
  pub scheduler_pick_next-Approaches : Approaches k c t
  scheduler_pick_next-Approaches =
      let (o, first, e) = scheduler_pick_next-first k c hc in (picked k c o, e, offset_of o first)

-- Turn after turn, the scheduler's pick is the next current task.
abbrev pub TakesTurns : (ℕ → Kernel) → (ℕ → ℕ) → Type 0
TakesTurns kernels currents =
    (n : ℕ) → scheduler_pick_next (some (currents n)) (kernels n) ≡ some (currents (n + 1))

abbrev pub value_of : Option ℕ → ℕ
value_of none = 0
value_of (some n) = n

abbrev pub HasTurn : (ℕ → ℕ) → ℕ → ℕ → ℕ → Type 0
HasTurn currents from stop t = (n : ℕ) × (from < n) × (n ≤ stop) × (currents n ≡ t)

module _ (kernels : ℕ → Kernel) (currents : ℕ → ℕ) (t : ℕ) (turns : TakesTurns kernels currents)
    (ht : t < 64) (ready : (n : ℕ) → runnable (kernels n) t ≡ true) where
  within : (d n : ℕ) → currents n < 64 → between (currents n) t < d → HasTurn currents n (n + d) t
  within zero n small h = absurd (omega arith)
  within (suc d) n small h =
      let (next, picks, near) =
        scheduler_pick_next-Approaches (kernels n) (currents n) t small ht (ready n) in
      elim near [
        | inl now ↦ (n + 1, omega arith, omega arith, same next picks ∙ now)
        | inr later ↦ step_on (
            within d (n + 1) (omega (arith, same next picks, later.0))
              (rw (same next picks) (omega (arith, later.1, h))))
      ]
    where
      same :
          (next : ℕ)
          → scheduler_pick_next (some (currents n)) (kernels n) ≡ some next
          → currents (n + 1) ≡ next
      same next picks = ap value_of (sym (turns n) ∙ picks)

      step_on : HasTurn currents (n + 1) (n + 1 + d) t → HasTurn currents n (n + suc d) t
      step_on (m, after, by, turn) = (m, omega (arith, after), omega (arith, by), turn)

  -- A task that stays runnable gets a turn within 64 picks.
  pub runnable-HasTurn : currents 0 < 64 → HasTurn currents 0 64 t
  runnable-HasTurn small = within 64 0 small (omega arith)
