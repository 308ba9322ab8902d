-- ===== src/Ports/Pic.antt =====
-- pic.c: the two interrupt controllers.
pub mod Chips
pub mod Masks
use hobby_os_kernel.Common.{ℕ, ◌+◌, ◌-◌, ◌%◌, ◌^◌, bit_and, bit_or, if◌then◌else◌, ltb, ◌<<◌}
use hobby_os_kernel.Ports.{Ports, io_wait}

abbrev pub pic1_cmd : ℕ
pic1_cmd = 0x20

abbrev pub pic1_data : ℕ
pic1_data = 0x21

abbrev pub pic2_cmd : ℕ
pic2_cmd = 0xA0

abbrev pub pic2_data : ℕ
pic2_data = 0xA1

-- `PIC_EOI`
abbrev pub pic_eoi : ℕ
pic_eoi = 0x20

abbrev pub icw1 : ℕ
icw1 = bit_or 0x10 0x01

abbrev pub icw4_8086 : ℕ
icw4_8086 = 0x01

-- The port and the line of an interrupt.
abbrev pub data_port : ℕ → ℕ
data_port irq = if ltb irq 8 then pic1_data else pic2_data

abbrev pub irq_line : ℕ → ℕ
irq_line irq = if ltb irq 8 then irq else irq - 8

-- `(uint8_t)(value | (1 << line))` and `(uint8_t)(value & ~(1 << line))`
abbrev pub with_line : ℕ → ℕ → ℕ
with_line line value = bit_or value (1 << line) % 256

abbrev pub without_line : ℕ → ℕ → ℕ
without_line line value = bit_and value (2 ^ 32 - 1 - (1 << line)) % 256

module _ (io : Ports) where
  open io use {Device, outb, inb}

  abbrev pub out_wait : ℕ → ℕ → Device → Device
  out_wait port v d = io_wait io (outb port v d)

  -- The initialisation words, the controllers' masks as they were read, and the mode of the
  -- interrupt wire.
  initialised : ℕ → ℕ → Device → Device
  initialised mask1 mask2 d =
      let d = out_wait pic1_cmd icw1 d in
      let d = out_wait pic2_cmd icw1 d in
      let d = out_wait pic1_data 0x20 d in
      let d = out_wait pic2_data 0x28 d in
      let d = out_wait pic1_data 0x04 d in
      let d = out_wait pic2_data 0x02 d in
      let d = out_wait pic1_data icw4_8086 d in
      let d = out_wait pic2_data icw4_8086 d in
      let d = outb pic1_data mask1 d in
      let d = outb pic2_data mask2 d in let d = outb 0x22 0x70 d in outb 0x23 0x01 d

  pub pic_remap : Device → Device
  unfolding initialised
  pic_remap d =
      let (mask1, d) = inb pic1_data d in
      let (mask2, d) = inb pic2_data d in initialised mask1 mask2 d

  pub pic_send_eoi : ℕ → Device → Device
  pic_send_eoi irq d =
      let d' = if ltb irq 8 then d else outb pic2_cmd pic_eoi d in outb pic1_cmd pic_eoi d'

  pub pic_set_mask : ℕ → Device → Device
  pic_set_mask irq d =
      let (value, d) = inb (data_port irq) d in
      outb (data_port irq) (with_line (irq_line irq) value) d

  pub pic_clear_mask : ℕ → Device → Device
  pic_clear_mask irq d =
      let (value, d) = inb (data_port irq) d in
      outb (data_port irq) (without_line (irq_line irq) value) d
