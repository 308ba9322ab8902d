-- ===== src/Spinlock.antt =====
-- spinlock.c: a lock that processors with an interrupt flag of their own spin on, one atomic
-- instruction at a time, interleaved in any order.
pub mod Guards
use hobby_os_kernel.Common.{ℕ, suc, ◌+◌, ◌-◌, ◌/◌, ◌%◌, Bool, true, false, if◌then◌else◌, ◌==◌}

-- Where a processor stands, with the flags that `spinlock_acquire` has saved.
pub data Place : Type 0 where
  outside : Place
  spinning holding released : (flags : ℕ) → Place

pub record Cpu : Type 0 where
  pub rflags : ℕ
  pub place : Place

pub record System : Type 0 where
  pub locked : ℕ
  pub cpu : ℕ → Cpu

unfoldable pub spinlock_init : System → System
spinlock_init s = record s { locked = 0 }

-- Bit 9 of the flags, IF.
abbrev pub interrupts_on : ℕ → Bool
interrupts_on rflags = rflags / 512 % 2 == 1

-- `pushfq; pop flags; cli`
unfoldable pub save_and_disable_interrupts : Cpu → Cpu
save_and_disable_interrupts c = record c {
  rflags = if interrupts_on c.rflags then c.rflags - 512 else c.rflags;
  place = spinning c.rflags;
}

-- `push flags; popfq`
unfoldable pub restore_interrupts : ℕ → Cpu → Cpu
restore_interrupts flags c = record { rflags = flags; place = outside }

-- One turn of the loop: the lock's old value is read and 1 is written, in one instruction.
unfoldable pub try_acquire : ℕ → ℕ → Cpu → Cpu
try_acquire locked flags c = if locked == 0 then record c { place = holding flags } else c

-- What a processor's next instruction of the two functions does to the lock and to itself.
unfoldable pub next_at : Place → ℕ → Cpu → ℕ × Cpu
next_at outside locked c = (locked, save_and_disable_interrupts c)
next_at (spinning flags) locked c = (1, try_acquire locked flags c)
next_at (holding flags) locked c = (0, record c { place = released flags })
next_at (released flags) locked c = (locked, restore_interrupts flags c)

abbrev pub set_cpu : (ℕ → Cpu) → ℕ → Cpu → ℕ → Cpu
set_cpu cpu i c j = if j == i then c else cpu j

unfoldable pub advance : ℕ → System → System
advance i s =
    let (locked, c) = next_at (s.cpu i).place s.locked (s.cpu i) in
    record { locked = locked; cpu = set_cpu s.cpu i c }

abbrev pub is_outside : Place → Bool
is_outside outside = true
is_outside _ = false

abbrev pub is_holding : Place → Bool
is_holding (holding flags) = true
is_holding _ = false
