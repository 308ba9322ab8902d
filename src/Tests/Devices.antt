-- ===== src/Tests/Devices.antt =====
-- Concrete inputs for the theorems on descriptors and on printed numbers.
use hobby_os_kernel.Common.{ℕ, ◌+◌, ◌*◌, ◌≡◌, arith}
use hobby_os_kernel.Console.{kprintf_putint}
use hobby_os_kernel.Console.Numbers.{read_signed, kprintf_putint-read_signed}
use hobby_os_kernel.Descriptors.{IdtEntry}

-- Minus five.
kprintf_putint-read_signed_example :
    read_signed (kprintf_putint 0xfffffffffffffffb) ≡ 0xfffffffffffffffb
kprintf_putint-read_signed_example = kprintf_putint-read_signed 0xfffffffffffffffb (omega arith)

abbrev no_gates : ℕ → IdtEntry
no_gates i = record {
  offset_low = 0;
  selector = 0;
  ist = 0;
  type_attr = 0;
  offset_mid = 0;
  offset_high = 0;
  reserved = 0;
}

abbrev handler_of : ℕ → ℕ
handler_of v = 0x100000 + 16 * v
