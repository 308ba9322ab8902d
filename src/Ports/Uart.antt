-- ===== src/Ports/Uart.antt =====
-- serial.c at the ports: the set-up of the serial port, and the polling for its ready bit.
pub mod Line
use hobby_os_kernel.Common.{
  ℕ, zero, suc, ◌%◌, bit_and, Bool, not, List, [], ◌∷◌, Option, none, some, if◌then◌else◌, ◌==◌,
}
use hobby_os_kernel.Ports.{Ports}

-- `UART_DATA` and the registers behind it.
abbrev pub uart_data : ℕ
uart_data = 0x3F8

abbrev pub uart_int_enable : ℕ
uart_int_enable = 0x3F9

abbrev pub uart_fifo_ctrl : ℕ
uart_fifo_ctrl = 0x3FA

abbrev pub uart_line_ctrl : ℕ
uart_line_ctrl = 0x3FB

abbrev pub uart_modem_ctrl : ℕ
uart_modem_ctrl = 0x3FC

abbrev pub uart_line_status : ℕ
uart_line_status = 0x3FD

abbrev pub lcr_dlab : ℕ
lcr_dlab = 0x80

abbrev pub lcr_8n1 : ℕ
lcr_8n1 = 0x03

abbrev pub lsr_tx_empty : ℕ
lsr_tx_empty = 0x20

module _ (io : Ports) where
  open io use {Device, outb, inb}

  -- The registers are set, and the port is in loopback mode.
  prepared : Device → Device
  prepared d =
      let d = outb uart_int_enable 0x00 d in
      let d = outb uart_line_ctrl lcr_dlab d in
      let d = outb uart_data 0x01 d in
      let d = outb uart_int_enable 0x00 d in
      let d = outb uart_line_ctrl lcr_8n1 d in
      let d = outb uart_fifo_ctrl 0xC7 d in
      let d = outb uart_modem_ctrl 0x0B d in outb uart_modem_ctrl 0x1E d

  -- `none`: the test byte does not come back, and the processor halts for ever.
  pub serial_init : Device → Option Device
  unfolding prepared
  serial_init d =
      let (byte, d) = inb uart_data (outb uart_data 0xAE (prepared d)) in
      if not (byte == 0xAE) then none else some (outb uart_modem_ctrl 0x0F d)

  pub serial_tx_empty : Device → Bool × Device
  serial_tx_empty d =
      let (status, d) = inb uart_line_status d in (not (bit_and status lsr_tx_empty == 0), d)

  -- `while (!serial_tx_empty());` and the byte; `none` says that the fuel ran out.
  pub serial_write_char : ℕ → ℕ → Device → Option Device
  unfolding serial_tx_empty
  serial_write_char zero c d = none
  serial_write_char (suc fuel) c d =
      let (empty, d) = serial_tx_empty d in
      let rest = serial_write_char fuel c d in
      if not empty then rest else some (outb uart_data (c % 256) d)

  abbrev pub next : Option Device → (Device → Option Device) → Option Device
  next none k = none
  next (some d) k = k d

  -- `fuel` bounds the polling for each byte.
  pub serial_write_string : ℕ → List ℕ → Device → Option Device
  serial_write_string fuel [] d = some d
  serial_write_string fuel (c ∷ str) d =
      next (if c == 10 then serial_write_char fuel 13 d else some d)
        λ d. next (serial_write_char fuel c d) λ d. serial_write_string fuel str d
