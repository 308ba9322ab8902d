-- ===== src/Ports/Pic/Masks.antt =====
-- pic.c: the masks of the sixteen interrupts.
use hobby_os_kernel.Common.{
  ℕ, ℕ_discrete, zero, suc, ◌-◌, ◌/◌, ◌%◌, ◌^◌, ◌<◌, ◌≡◌, refl, ap, ◌∙◌, Bool, true, false, not,
  if◌then◌else◌, ◌==◌, ltb, arith, dec_lt, lt→ltb, ◌≤◌,
}
use hobby_os_kernel.Ports.{Ports}
use hobby_os_kernel.Ports.Pic.{
  data_port, irq_line, with_line, without_line, pic_set_mask, pic_clear_mask, pic1_data, pic2_data,
}
use hobby_os_kernel.Ports.Pic.Chips.{Chip, Expects, ready, Has8259, data_at, wrote1, wrote2}

-- Bit `line` of a byte.
abbrev bit : ℕ → ℕ → Bool
bit line v = v / 2 ^ line % 2 == 1

abbrev same_bool : Bool → Bool → Bool
same_bool true b = b
same_bool false b = not b

-- A test of the numbers below a bound, by evaluation.
passes : (ℕ → Bool) → ℕ → Bool
passes test zero = true
passes test (suc last) = let before = passes test last in if test last then before else false

passes_at : (test : ℕ → Bool) (bound v : ℕ) → v < bound → passes test bound ≡ true → test v ≡ true
unfolding passes
passes_at test zero v small h = absurd (omega arith)
passes_at test (suc last) v small h = elim (ℕ_discrete v last) [
  | yes e ↦ rw e (ground arith)
  | no ne ↦ passes_at test last v (omega arith) (ground arith)
]

same_bool-eq : (a b : Bool) → same_bool a b ≡ true → a ≡ b
same_bool-eq true true h = refl
same_bool-eq false false h = refl
same_bool-eq true false h = absurd (cc h)
same_bool-eq false true h = absurd (cc h)

-- What a write of one line does to another, for every byte and every two lines.
abbrev set_ok : ℕ → ℕ → ℕ → Bool
set_ok v line other =
    same_bool (bit other (with_line line v)) (if other == line then true else bit other v)

abbrev clear_ok : ℕ → ℕ → ℕ → Bool
clear_ok v line other =
    same_bool (bit other (without_line line v)) (if other == line then false else bit other v)

abbrev every_case : (ℕ → ℕ → ℕ → Bool) → Bool
every_case test = passes (λ v. passes (λ line. passes (λ other. test v line other) 8) 8) 256

case_of :
    (test : ℕ → ℕ → ℕ → Bool) (v line other : ℕ)
    → every_case test ≡ true
    → v < 256
    → line < 8
    → other < 8
    → test v line other ≡ true
case_of test v line other h hv hl ho =
    passes_at (λ o. test v line o) 8 other ho
      (passes_at (λ l. passes (λ o. test v l o) 8) 8 line hl
        (passes_at (λ w. passes (λ l. passes (λ o. test w l o) 8) 8) 256 v hv h))

every_set : every_case set_ok ≡ true
unfolding passes
every_set = refl

every_clear : every_case clear_ok ≡ true
unfolding passes
every_clear = refl

module _ (v line other : ℕ) (hv : v < 256) (hl : line < 8) (ho : other < 8) where
  pub with_line-bit : bit other (with_line line v) ≡ (if other == line then true else bit other v)
  with_line-bit = same_bool-eq _ _ (case_of set_ok v line other every_set hv hl ho)

  pub without_line-bit :
      bit other (without_line line v) ≡ (if other == line then false else bit other v)
  without_line-bit = same_bool-eq _ _ (case_of clear_ok v line other every_clear hv hl ho)

module _ (io : Ports) (has : Has8259 io) where
  open io use {Device, outb, inb}
  open has use {chips, read1, read2, reading}

  -- Whether an interrupt is masked at its controller.
  abbrev pub is_masked : ℕ → Device → Bool
  is_masked irq d = if ltb irq 8 then bit irq (chips d).0.mask else bit (irq - 8) (chips d).1.mask

  -- Both controllers are ready, and their masks are bytes.
  pub record IsReady (d : Device) : Type 0 where
    pub first : (chips d).0.expects ≡ ready
    pub second : (chips d).1.expects ≡ ready
    pub first_byte : (chips d).0.mask < 256
    pub second_byte : (chips d).1.mask < 256

  abbrev with_mask : ℕ → Chip → Chip
  with_mask v c = record c { mask = v }

  data_at_ready : (e : Expects) (v : ℕ) (c : Chip) → e ≡ ready → data_at e v c ≡ with_mask v c
  data_at_ready e v c r = rw r refl

  -- A mask that is read, changed and written.
  written1 :
      (change : ℕ → ℕ) (d : Device)
      → (chips d).0.expects ≡ ready
      → chips (outb pic1_data (change (inb pic1_data d).0) (inb pic1_data d).1)
        ≡ (with_mask (change (chips d).0.mask) (chips d).0, (chips d).1)
  written1 change d r =
      wrote1 io has _ _ (reading pic1_data d)
      ∙ ap (λ c. (c, (chips d).1))
          (data_at_ready _ _ (chips d).0 r ∙ ap (λ v. with_mask (change v) (chips d).0) (read1 d))

  written2 :
      (change : ℕ → ℕ) (d : Device)
      → (chips d).1.expects ≡ ready
      → chips (outb pic2_data (change (inb pic2_data d).0) (inb pic2_data d).1)
        ≡ ((chips d).0, with_mask (change (chips d).1.mask) (chips d).1)
  written2 change d r =
      wrote2 io has _ _ (reading pic2_data d)
      ∙ ap (λ c. ((chips d).0, c))
          (data_at_ready _ _ (chips d).1 r ∙ ap (λ v. with_mask (change v) (chips d).1) (read2 d))

  abbrev masked_in : ℕ → Chip × Chip → Bool
  masked_in irq c = if ltb irq 8 then bit irq c.0.mask else bit (irq - 8) c.1.mask

  -- The access of `pic_set_mask` and `pic_clear_mask`, at either controller.
  abbrev rewritten : (ℕ → ℕ → ℕ) → ℕ → ℕ → Device → Device
  rewritten change port line d = outb port (change line (inb port d).0) (inb port d).1

  module _ (change : ℕ → ℕ → ℕ) (b : Bool)
      (law : (v line other : ℕ)
        → v < 256
        → line < 8
        → other < 8
        → bit other (change line v) ≡ (if other == line then b else bit other v))
      (irq other : ℕ) (d : Device) (is : IsReady d) (hi : irq < 16) (ho : other < 16) where
    first_half :
        irq < 8
        → is_masked other (rewritten change pic1_data irq d)
          ≡ (if other == irq then b else is_masked other d)
    first_half first =
        ap (masked_in other) (written1 (change irq) d is.first)
        ∙ ground (arith, law (chips d).0.mask irq other is.first_byte)

    second_half :
        8 ≤ irq
        → is_masked other (rewritten change pic2_data (irq - 8) d)
          ≡ (if other == irq then b else is_masked other d)
    second_half second =
        ap (masked_in other) (written2 (change (irq - 8)) d is.second)
        ∙ ground (arith, law (chips d).1.mask (irq - 8) (other - 8) is.second_byte)

    not_first : 8 ≤ irq → ltb irq 8 ≡ false
    not_first h = ground arith

    rewritten-masks :
        is_masked other (rewritten change (data_port irq) (irq_line irq) d)
        ≡ (if other == irq then b else is_masked other d)
    rewritten-masks = elim (dec_lt irq 8) [
      | yes h ↦ rw (lt→ltb irq 8 h) (first_half h)
      | no h ↦ rw (not_first (omega arith)) (second_half (omega arith))
    ]

  -- Of the sixteen interrupts of controllers that are ready, `pic_set_mask` masks the given one and
  -- `pic_clear_mask` lets it through, and each leaves the others as they were.
  pub pic_masks :
      (irq other : ℕ) (d : Device)
      → IsReady d
      → irq < 16
      → other < 16
      → (is_masked other (pic_set_mask io irq d)
          ≡ (if other == irq then true else is_masked other d))
        × (is_masked other (pic_clear_mask io irq d)
            ≡ (if other == irq then false else is_masked other d))
  unfolding pic_set_mask pic_clear_mask
  pic_masks irq other d is hi ho = (
    rewritten-masks with_line true with_line-bit irq other d is hi ho,
    rewritten-masks without_line false without_line-bit irq other d is hi ho,
  )
