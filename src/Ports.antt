-- ===== src/Ports.antt =====
-- io.h: the input and output ports of the processor, and the devices behind them. What a device does
-- is no code of the kernel: the device's state and the two instructions are the record `Ports`.
pub mod Pic
pub mod Pit
pub mod Uart
use hobby_os_kernel.Common.{ℕ}

pub record Ports : Type 1 where
  pub Device : Type 0
  pub outb : (port v : ℕ) → Device → Device
  pub inb : (port : ℕ) → Device → ℕ × Device

module _ (io : Ports) where
  open io use {Device, outb}

  -- A write to an unused port, which takes the time that a slow device needs.
  unfoldable pub io_wait : Device → Device
  io_wait d = outb 0x80 0 d
