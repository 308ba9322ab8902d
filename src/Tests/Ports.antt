-- ===== src/Tests/Ports.antt =====
-- Devices that behave as the theorems on ports ask, and concrete inputs for these.
use hobby_os_kernel.Common.{
  ℕ, ◌+◌, ◌-◌, ◌*◌, ◌/◌, ◌%◌, ◌≤◌, ◌<◌, ◌≡◌, refl, ◌⊎◌, inl, inr, Bool, true, false, ◌&&◌, ◌||◌,
  List, [], ◌∷◌, ◌++◌, some, if◌then◌else◌, ◌==◌, arith, Bool-cases,
}
use hobby_os_kernel.Console
use hobby_os_kernel.Ports.{Ports}
use hobby_os_kernel.Ports.Pic.{pic_set_mask, pic_clear_mask}
use hobby_os_kernel.Ports.Pic.Chips.{Chip, Expects, icw3, ready, command, data_at, Has8259}
use hobby_os_kernel.Ports.Pic.Masks.{IsReady, is_masked, pic_masks}
use hobby_os_kernel.Ports.Pit.{pit_base_frequency, pit_init, pit_init-rate}
use hobby_os_kernel.Ports.Uart.{serial_write_string}
use hobby_os_kernel.Ports.Uart.Line.{
  Registers, write_register, is_online, Has16550, serial_write_string-sends,
}

abbrev write_chips : ℕ → ℕ → Chip × Chip → Chip × Chip
write_chips p v d =
    if p == 0x20
    then (command v d.0, d.1)
    else (if p == 0xA0
        then (d.0, command v d.1)
        else (if p == 0x21
            then (data_at d.0.expects v d.0, d.1)
            else (if p == 0xA1 then (d.0, data_at d.1.expects v d.1) else d)))

abbrev read_chips : ℕ → Chip × Chip → ℕ
read_chips p d = if p == 0x21 then d.0.mask else (if p == 0xA1 then d.1.mask else 0)

abbrev chip_ports : Ports
chip_ports = record { Device = Chip × Chip; outb = write_chips; inb = λ p d. (read_chips p d, d) }

other_port :
    (p v : ℕ) (d : Chip × Chip) → (p ≡ 0x22) ⊎ ((p ≡ 0x23) ⊎ (p ≡ 0x80)) → write_chips p v d ≡ d
other_port p v d (inl e) = rw e refl
other_port p v d (inr (inl e)) = rw e refl
other_port p v d (inr (inr e)) = rw e refl

abbrev chip_laws : Has8259 chip_ports
chip_laws = record {
  chips = λ d. d;
  command1 = λ v d. refl;
  command2 = λ v d. refl;
  data1 = λ v d. refl;
  data2 = λ v d. refl;
  read1 = λ d. refl;
  read2 = λ d. refl;
  reading = λ p d. refl;
  elsewhere = other_port;
}

abbrev chip_in : Expects → ℕ → ℕ → Chip
chip_in expects vector mask = record {
  expects = expects;
  vector = vector;
  cascade = 0;
  mask = mask;
  ended = 0;
}

-- The first controller is in the middle of its set-up, the second has the vectors of real mode.
abbrev at_boot : Chip × Chip
at_boot = (chip_in icw3 0 0xFB, chip_in ready 0x70 0x8E)

abbrev at_work : Chip × Chip
at_work = (chip_in ready 0x20 0xFB, chip_in ready 0x28 0x8E)

at_work-IsReady : IsReady chip_ports chip_laws at_work
at_work-IsReady = record {
  first = refl;
  second = refl;
  first_byte = omega arith;
  second_byte = omega arith;
}

pic_masks_example :
    (is_masked chip_ports chip_laws 9 (pic_set_mask chip_ports 12 at_work) ≡ true)
    × (is_masked chip_ports chip_laws 9 (pic_clear_mask chip_ports 12 at_work) ≡ true)
pic_masks_example =
    pic_masks chip_ports chip_laws 12 9 at_work at_work-IsReady (omega arith) (omega arith)

pit_init-rate_example :
    (count : ℕ) × (low : ℕ) × (high : ℕ) × (pit_init chip_ports 100 at_work
      ≡ write_chips 0x40 high (write_chips 0x40 low (write_chips 0x43 0x34 at_work)))
    × (low < 256)
    × (high < 256)
    × (low + 256 * high ≡ count)
    × (1 ≤ count)
    × ((100 < 19)
        ⊎ ((pit_base_frequency < 100)
            ⊎ ((100 * count ≤ pit_base_frequency) × (pit_base_frequency < 100 * (count + 1)))))
pit_init-rate_example = pit_init-rate chip_ports 100 at_work

-- A serial port that is busy for one reading of its status after each byte.
record Port : Type 0 where
  regs : Registers
  sent : List ℕ
  waits : Bool
  last : ℕ

abbrev busy_for : Port → ℕ
busy_for d = if d.waits then 1 else 0

abbrev write_port : ℕ → ℕ → Port → Port
write_port p v d = record {
  regs = write_register p v d.regs;
  sent = if (p == 0x3F8) && is_online d.regs && (busy_for d == 0) then d.sent ++ v ∷ [] else d.sent;
  waits = (p == 0x3F8) || d.waits;
  last = v;
}

abbrev read_port : ℕ → Port → ℕ × Port
read_port p d =
    if p == 0x3FD then (if d.waits then 0 else 32, record d { waits = false }) else (d.last, d)

abbrev uart_ports : Ports
uart_ports = record { Device = Port; outb = write_port; inb = read_port }

port_reading :
    (p : ℕ) (d : Port) → ((read_port p d).1.regs ≡ d.regs) × ((read_port p d).1.sent ≡ d.sent)
port_reading p d = elim (Bool-cases (p == 0x3FD)) [
  | inl e ↦ rw e (refl, refl)
  | inr e ↦ rw e (refl, refl)
]

port_status : (b : Bool) → ((if b then 0 else 32) / 32 % 2 == 1) ≡ ((if b then 1 else 0) == 0)
port_status true = refl
port_status false = refl

port_polling : (b : Bool) → 0 ≡ (if b then 1 else 0) - 1
port_polling true = refl
port_polling false = refl

port_patient : (b : Bool) → (if b then 1 else 0) ≤ 1
port_patient true = omega arith
port_patient false = omega arith

abbrev uart_laws : Has16550 uart_ports
uart_laws = record {
  registers = λ d. d.regs;
  sent = λ d. d.sent;
  busy = busy_for;
  patience = 1;
  patient = λ d. port_patient d.waits;
  writing = λ p v d. refl;
  reading = λ p d. (port_reading p d).0;
  status = λ d. port_status d.waits;
  polling = λ d. port_polling d.waits;
  listening = λ p d. (port_reading p d).1;
  sending = λ p v d small. refl;
  looping = λ v d closed loops small. refl;
}

abbrev powered_on : Port
powered_on = record {
  regs = record { divisor = 12; int_enable = 5; fifo_ctrl = 0; line_ctrl = 0; modem_ctrl = 0 };
  sent = 33 ∷ [];
  waits = true;
  last = 0;
}

serial_write_string-sends_example :
    (d' : Port) × (serial_write_string uart_ports 2 (104 ∷ 105 ∷ 10 ∷ []) powered_on ≡ some d')
    × (is_online d'.regs ≡ true)
    × (d'.sent ≡ (33 ∷ []) ++ Console.serial_write_string (104 ∷ 105 ∷ 10 ∷ []))
serial_write_string-sends_example =
    serial_write_string-sends uart_ports uart_laws 2 (104 ∷ 105 ∷ 10 ∷ []) powered_on (omega arith)
      (omega arith, (omega arith, (omega arith, tt))) refl
