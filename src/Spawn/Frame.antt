-- ===== src/Spawn/Frame.antt =====
-- What a new task finds on its kernel stack when it is switched to.
use hobby_os_kernel.Common.{ℕ, ◌+◌, ◌^◌, ◌≤◌, ◌<◌, ◌≡◌, List, [], ◌∷◌}
use hobby_os_kernel.Word.{u64}
use hobby_os_kernel.Memory.{Mem, load64}
use hobby_os_kernel.Spawn.{Labels}

-- The words at `a` are `ws`.
abbrev pub Reads : Mem → ℕ → List ℕ → Type 0
Reads m a [] = Unit {0}
Reads m a (w ∷ ws) = (load64 m a ≡ w) × Reads m (a + 8) ws

abbrev pub IsWord : ℕ → Type 0
IsWord w = w < 2 ^ 64

-- The words that `context_switch` pops: r15, r14, r13, r12, rbp, rbx and the return address.
abbrev pub popped : ℕ → ℕ → List ℕ
popped ret r12 = 0 ∷ 0 ∷ 0 ∷ r12 ∷ 0 ∷ 0 ∷ ret ∷ []

module _ (labels : Labels) (regs : ℕ) (m : Mem) (room : 56 ≤ regs)
    (return_label : IsWord labels.syscall_entry_return) where
  abbrev pub regs_pointer : ℕ
  regs_pointer = u64 (regs + labels.hhdm_offset)
