-- ===== src/Ports/Pic/Chips.antt =====
-- What pic.c relies on: the 8259 controllers, as their data sheet describes them.
use hobby_os_kernel.Common.{
  ℕ, suc, ◌⊎◌, inl, inr, ◌/◌, ◌%◌, ◌*◌, ◌≡◌, refl, ◌∙◌, ap, Bool-cases, ltb, if◌then◌else◌, ◌==◌,
}
use hobby_os_kernel.Ports.{Ports}
use hobby_os_kernel.Ports.Pic.{pic1_cmd, pic1_data, pic2_cmd, pic2_data, pic_eoi, pic_send_eoi}

-- Which initialisation word a controller waits for, or none.
pub data Expects : Type 0 where
  icw2 icw3 icw4 ready : Expects

-- A controller: the first vector of its eight interrupts, the wiring of the two, the mask, and the
-- number of the interrupts in service that it was told the end of.
pub record Chip : Type 0 where
  pub expects : Expects
  pub vector : ℕ
  pub cascade : ℕ
  pub mask : ℕ
  pub ended : ℕ

-- A byte to the command port: the first initialisation word, an end of interrupt, or another.
abbrev pub command : ℕ → Chip → Chip
command v c =
    if v / 16 % 2 == 1
    then record c { expects = icw2; mask = 0 }
    else (if v / 32 % 2 == 1 then record c { ended = suc c.ended } else c)

abbrev pub data_at : Expects → ℕ → Chip → Chip
data_at icw2 v c = record c { expects = icw3; vector = v / 8 * 8 }
data_at icw3 v c = record c { expects = icw4; cascade = v }
data_at icw4 v c = record c { expects = ready }
data_at ready v c = record c { mask = v }

-- A controller that is ready, with the vectors from `vector` on.
abbrev pub set_up : (vector cascade mask : ℕ) → Chip → Chip
set_up vector cascade mask c = record {
  expects = ready;
  vector = vector;
  cascade = cascade;
  mask = mask;
  ended = c.ended;
}

-- The two controllers behind the ports, first the one with the interrupts 0 to 7.
pub record Has8259 (io : Ports) : Type 1 where
  pub chips : io.Device → Chip × Chip
  pub command1 :
      (v : ℕ) (d : io.Device) → chips (io.outb pic1_cmd v d) ≡ (command v (chips d).0, (chips d).1)
  pub command2 :
      (v : ℕ) (d : io.Device) → chips (io.outb pic2_cmd v d) ≡ ((chips d).0, command v (chips d).1)
  pub data1 :
      (v : ℕ) (d : io.Device)
      → chips (io.outb pic1_data v d) ≡ (data_at (chips d).0.expects v (chips d).0, (chips d).1)
  pub data2 :
      (v : ℕ) (d : io.Device)
      → chips (io.outb pic2_data v d) ≡ ((chips d).0, data_at (chips d).1.expects v (chips d).1)
  -- The mask is read at the data port.
  pub read1 : (d : io.Device) → (io.inb pic1_data d).0 ≡ (chips d).0.mask
  pub read2 : (d : io.Device) → (io.inb pic2_data d).0 ≡ (chips d).1.mask
  pub reading : (p : ℕ) (d : io.Device) → chips (io.inb p d).1 ≡ chips d
  -- Three ports that are none of theirs.
  pub elsewhere :
      (p v : ℕ) (d : io.Device)
      → (p ≡ 0x22) ⊎ ((p ≡ 0x23) ⊎ (p ≡ 0x80))
      → chips (io.outb p v d) ≡ chips d

module _ (io : Ports) (has : Has8259 io) where
  open io use {Device, outb, inb}
  open has use {chips, command1, command2, data1, data2, read1, read2, reading, elsewhere}

  begun1 :
      {m s : Chip} (v : ℕ) (d : Device)
      → chips d ≡ (m, s)
      → chips (outb pic1_cmd v d) ≡ (command v m, s)
  begun1 v d e = command1 v d ∙ ap (λ (c : Chip × Chip). (command v c.0, c.1)) e

  begun2 :
      {m s : Chip} (v : ℕ) (d : Device)
      → chips d ≡ (m, s)
      → chips (outb pic2_cmd v d) ≡ (m, command v s)
  begun2 v d e = command2 v d ∙ ap (λ (c : Chip × Chip). (c.0, command v c.1)) e

  pub wrote1 :
      {m s : Chip} (v : ℕ) (d : Device)
      → chips d ≡ (m, s)
      → chips (outb pic1_data v d) ≡ (data_at m.expects v m, s)
  wrote1 v d e = data1 v d ∙ ap (λ (c : Chip × Chip). (data_at c.0.expects v c.0, c.1)) e

  pub wrote2 :
      {m s : Chip} (v : ℕ) (d : Device)
      → chips d ≡ (m, s)
      → chips (outb pic2_data v d) ≡ (m, data_at s.expects v s)
  wrote2 v d e = data2 v d ∙ ap (λ (c : Chip × Chip). (c.0, data_at c.1.expects v c.1)) e

  -- The end of an interrupt is told to the controllers that it came through.
  pub pic_send_eoi-ended :
      (irq : ℕ) (d : Device)
      → ((chips (pic_send_eoi io irq d)).0.ended ≡ suc (chips d).0.ended)
        × ((chips (pic_send_eoi io irq d)).1.ended
            ≡ (if ltb irq 8 then (chips d).1.ended else suc (chips d).1.ended))
  unfolding pic_send_eoi
  pic_send_eoi-ended irq d = elim (Bool-cases (ltb irq 8)) [
    | inl first ↦
        rw (first, pic_send_eoi)
          (let e = begun1 pic_eoi d refl in
            (ap (λ (c : Chip × Chip). c.0.ended) e, ap (λ (c : Chip × Chip). c.1.ended) e))
    | inr second ↦
        rw (second, pic_send_eoi)
          (let e = begun1 pic_eoi _ (begun2 pic_eoi d refl) in
            (ap (λ (c : Chip × Chip). c.0.ended) e, ap (λ (c : Chip × Chip). c.1.ended) e))
  ]
