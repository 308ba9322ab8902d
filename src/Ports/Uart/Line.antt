-- ===== src/Ports/Uart/Line.antt =====
-- What serial.c relies on, the 16550 as its data sheet describes it, and what its functions make of it.
use hobby_os_kernel.Common.{
  ℕ, zero, suc, ◌+◌, ◌-◌, ◌*◌, ◌/◌, ◌%◌, ◌≤◌, ◌<◌, ◌≡◌, refl, sym, ap, ◌∙◌, Bool, true, false, not,
  ◌&&◌, List, [], ◌∷◌, ◌++◌, Option, some, if◌then◌else◌, ◌==◌, arith, bit_and, bit_and_field,
  Bool-cases, inl, inr, All,
}
use mathlib.Core.List.{append-nil, append_assoc}
use hobby_os_kernel.Console
use hobby_os_kernel.Ports.{Ports}
use hobby_os_kernel.Ports.Uart.{
  uart_data, uart_int_enable, uart_fifo_ctrl, uart_line_ctrl, uart_modem_ctrl, uart_line_status,
  lsr_tx_empty, prepared, serial_init, serial_tx_empty, serial_write_char, next,
  serial_write_string,
}

pub record Registers : Type 0 where
  pub divisor : ℕ
  pub int_enable : ℕ
  pub fifo_ctrl : ℕ
  pub line_ctrl : ℕ
  pub modem_ctrl : ℕ

-- Whether the first two ports are those of the divisor.
abbrev pub latch_open : Registers → Bool
latch_open r = r.line_ctrl / 128 % 2 == 1

abbrev pub loopback : Registers → Bool
loopback r = r.modem_ctrl / 16 % 2 == 1

-- A byte to the data port goes out on the line.
abbrev pub is_online : Registers → Bool
is_online r = not (latch_open r) && not (loopback r)

abbrev pub write_register : ℕ → ℕ → Registers → Registers
write_register p v r =
    if p == uart_data
    then (if latch_open r then record r { divisor = r.divisor / 256 * 256 + v } else r)
    else if p == uart_int_enable
    then (if latch_open r
        then record r { divisor = v * 256 + r.divisor % 256 }
        else record r { int_enable = v })
    else if p == uart_fifo_ctrl
    then record r { fifo_ctrl = v }
    else if p == uart_line_ctrl
    then record r { line_ctrl = v }
    else if p == uart_modem_ctrl
    then record r { modem_ctrl = v }
    else r

pub record Has16550 (io : Ports) : Type 1 where
  pub registers : io.Device → Registers
  -- The bytes that have gone out on the line.
  pub sent : io.Device → List ℕ
  -- How often the line status is yet to be read before the transmitter is empty, and a bound of it.
  pub busy : io.Device → ℕ
  pub patience : ℕ
  pub patient : (d : io.Device) → busy d ≤ patience
  pub writing :
      (p v : ℕ) (d : io.Device) → registers (io.outb p v d) ≡ write_register p v (registers d)
  pub reading : (p : ℕ) (d : io.Device) → registers (io.inb p d).1 ≡ registers d
  pub status : (d : io.Device) → ((io.inb uart_line_status d).0 / 32 % 2 == 1) ≡ (busy d == 0)
  pub polling : (d : io.Device) → busy (io.inb uart_line_status d).1 ≡ busy d - 1
  pub listening : (p : ℕ) (d : io.Device) → sent (io.inb p d).1 ≡ sent d
  pub sending :
      (p v : ℕ) (d : io.Device)
      → v < 256
      → sent (io.outb p v d) ≡ (
          if (p == uart_data) && is_online (registers d) && (busy d == 0)
          then sent d ++ v ∷ []
          else sent d)
  -- In loopback mode what is sent comes back.
  pub looping :
      (v : ℕ) (d : io.Device)
      → latch_open (registers d) ≡ false
      → loopback (registers d) ≡ true
      → v < 256
      → (io.inb uart_data (io.outb uart_data v d)).0 ≡ v

-- The registers after the set-up, but for the modem control.
abbrev pub set_up : ℕ → Registers
set_up modem = record {
  divisor = 1;
  int_enable = 0;
  fifo_ctrl = 0xC7;
  line_ctrl = 3;
  modem_ctrl = modem;
}

module _ (io : Ports) (has : Has16550 io) where
  open io use {Device, outb, inb}
  open has use {
    registers, sent, busy, patience, patient, writing, reading, status, polling, listening, sending,
    looping,
  }

  wrote :
      {r : Registers} (p v : ℕ) (d : Device)
      → registers d ≡ r
      → registers (outb p v d) ≡ write_register p v r
  wrote p v d e = writing p v d ∙ ap (write_register p v) e

  -- A write that is no byte for the line.
  unsent :
      (p v : ℕ) (d : Device)
      → v < 256
      → (p == uart_data) && is_online (registers d) ≡ false
      → sent (outb p v d) ≡ sent d
  unsent p v d small off = sending p v d small ∙ ground arith

  module _ (d : Device) (closed : latch_open (registers d) ≡ false) where
    first_write : registers (outb uart_int_enable 0 d) ≡ record (registers d) { int_enable = 0 }
    first_write = writing uart_int_enable 0 d ∙ rw closed refl

    prepared-registers : registers (prepared io d) ≡ set_up 0x1E
    unfolding prepared
    prepared-registers =
        wrote uart_modem_ctrl 0x1E _ (
          wrote uart_modem_ctrl 0x0B _ (
            wrote uart_fifo_ctrl 0xC7 _ (
              wrote uart_line_ctrl 3 _ (
                wrote uart_int_enable 0 _
                  (wrote uart_data 1 _ (wrote uart_line_ctrl 0x80 _ first_write))))))
        ∙ ap
            (λ n. record {
              divisor = n;
              int_enable = 0;
              fifo_ctrl = 0xC7;
              line_ctrl = 3;
              modem_ctrl = 0x1E;
            })
            (omega arith)

    prepared-sent : sent (prepared io d) ≡ sent d
    unfolding prepared
    prepared-sent =
        unsent uart_modem_ctrl 0x1E _ (omega arith) refl
        ∙ (unsent uart_modem_ctrl 0x0B _ (omega arith) refl
            ∙ (unsent uart_fifo_ctrl 0xC7 _ (omega arith) refl
                ∙ (unsent uart_line_ctrl 3 _ (omega arith) refl
                    ∙ (unsent uart_int_enable 0 _ (omega arith) refl
                        ∙ (unsent uart_data 1 _ (omega arith)
                              (ap is_online (wrote uart_line_ctrl 0x80 _ first_write))
                            ∙ (unsent uart_line_ctrl 0x80 _ (omega arith) refl
                                ∙ unsent uart_int_enable 0 _ (omega arith) refl))))))

    -- Where the divisor latch is closed, `serial_init` finds the test byte and ends: at 115200 baud, with
    -- 8 bits, no parity and one stop bit, no interrupts and out of loopback mode. No byte of it goes out on
    -- the line.
    pub serial_init-set_up :
        (d' : Device) × (serial_init io d ≡ some d')
        × (registers d' ≡ set_up 0x0F)
        × (sent d' ≡ sent d)
    unfolding serial_init
    serial_init-set_up = (
      outb uart_modem_ctrl 0x0F (inb uart_data (outb uart_data 0xAE (prepared io d))).1,
      rw
          (looping 0xAE (prepared io d) (ap latch_open prepared-registers)
            (ap loopback prepared-registers) (omega arith))
          refl,
      wrote uart_modem_ctrl 0x0F _
          (reading uart_data _ ∙ wrote uart_data 0xAE _ prepared-registers),
      unsent uart_modem_ctrl 0x0F _ (omega arith) refl
          ∙ (listening uart_data _
              ∙ (unsent uart_data 0xAE _ (omega arith) (ap is_online prepared-registers)
                  ∙ prepared-sent)),
    )

  Online : Device → Type 0
  Online d = is_online (registers d) ≡ true

  -- A byte went out on the line, from `d` to what a function returned.
  abbrev Sends : List ℕ → Device → Option Device → Type 0
  Sends bytes d o = (d' : Device) × (o ≡ some d') × Online d' × (sent d' ≡ sent d ++ bytes)

  status_bit : (v : ℕ) → not (bit_and v lsr_tx_empty == 0) ≡ (v / 32 % 2 == 1)
  status_bit v = ground (arith, bit_and_field 1 5 v)

  tx_empty : (d : Device) → (serial_tx_empty io d).0 ≡ (busy d == 0)
  unfolding serial_tx_empty
  tx_empty d = status_bit (inb uart_line_status d).0 ∙ status d

  abbrev polled : Device → Device
  polled d = (inb uart_line_status d).1

  write_char_step :
      (fuel c : ℕ) (d : Device)
      → serial_write_char io (suc fuel) c d ≡ (
          if not (busy d == 0)
          then serial_write_char io fuel c (polled d)
          else some (outb uart_data (c % 256) (polled d)))
  unfolding serial_write_char serial_tx_empty
  write_char_step fuel c d =
      ap
        (λ b.
          if not b
          then serial_write_char io fuel c (polled d)
          else some (outb uart_data (c % 256) (polled d)))
        (tx_empty d)

  module _ (c : ℕ) (d : Device) (on : Online d) (small : c < 256) where
    now_Sends : busy d ≡ 0 → Sends (c ∷ []) d (some (outb uart_data (c % 256) (polled d)))
    unfolding Online
    now_Sends idle = (
      outb uart_data (c % 256) (polled d),
      refl,
      ap is_online (wrote uart_data (c % 256) (polled d) (reading uart_line_status d))
          ∙ ground (arith, on),
      sending uart_data (c % 256) (polled d) (omega arith)
          ∙ ground (
            arith,
            polling d,
            listening uart_line_status d,
            on,
            ap is_online (reading uart_line_status d),
          ),
    )

  -- Sends after a step that sends nothing.
  later_Sends :
      (bytes : List ℕ) (d d' : Device) (o : Option Device)
      → sent d' ≡ sent d
      → Sends bytes d' o
      → Sends bytes d o
  later_Sends bytes d d' o e (d'', r, on, s) = (d'', r, on, s ∙ ap (λ l. l ++ bytes) e)

  write_char-Sends :
      (fuel c : ℕ) (d : Device)
      → busy d < fuel
      → Online d
      → c < 256
      → Sends (c ∷ []) d (serial_write_char io fuel c d)
  unfolding Online
  write_char-Sends zero c d enough on small = absurd (omega arith)
  write_char-Sends (suc fuel) c d enough on small =
      rw (write_char_step fuel c d) (elim (Bool-cases (busy d == 0)) [
        | inl idle ↦ rw idle (now_Sends c d on small (ground arith))
        | inr waits ↦ rw waits (
            later_Sends (c ∷ []) d (polled d) _ (listening uart_line_status d) (
              write_char-Sends fuel c (polled d) (ground (arith, polling d))
                (ap is_online (reading uart_line_status d) ∙ on) small))
      ])

  -- One call after another.
  both_Sends :
      (a b : List ℕ) (d : Device) (o : Option Device) (k : Device → Option Device)
      → Sends a d o
      → ((d' : Device) → Online d' → Sends b d' (k d'))
      → Sends (a ++ b) d (next io o k)
  both_Sends a b d o k (d', r, on, s) h =
      let (d'', r', on', s') = h d' on in
      (d'', rw r r', on', s' ∙ (ap (λ l. l ++ b) s ∙ append_assoc (sent d) a b))

  -- With fuel for the longest wait, `serial_write_string` on a port that is set up sends exactly the
  -- bytes of the console's `serial_write_string`, in this order, and leaves the port set up.
  pub serial_write_string-sends :
      (fuel : ℕ) (str : List ℕ) (d : Device)
      → patience < fuel
      → All (λ c. c < 256) str
      → is_online (registers d) ≡ true
      → (d' : Device) × (serial_write_string io fuel str d ≡ some d')
        × (is_online (registers d') ≡ true)
        × (sent d' ≡ sent d ++ Console.serial_write_string str)
  unfolding serial_write_string Console.serial_write_string Online
  serial_write_string-sends fuel [] d enough small on = (d, refl, on, sym (append-nil (sent d)))
  serial_write_string-sends fuel (c ∷ str) d enough (small, rest) on =
      let rest_sent =
        λ (d' : Device) (on' : Online d'). serial_write_string-sends fuel str d' enough rest on' in
      let char = λ (c : ℕ) (h : c < 256) (d' : Device) (on' : Online d').
        write_char-Sends fuel c d' (omega (arith, patient d')) on' h in
      elim (Bool-cases (c == 10)) [
        | inl newline ↦ rw newline (
            both_Sends (13 ∷ []) _ d _ _ (char 13 (omega arith) d on)
              λ d' on'. both_Sends (c ∷ []) _ d' _ _ (char c small d' on') rest_sent)
        | inr other ↦ rw other (both_Sends (c ∷ []) _ d _ _ (char c small d on) rest_sent)
      ]
