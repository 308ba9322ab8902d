-- ===== src/Descriptors/Fields.antt =====
-- gdt.c and idt.c: what a descriptor's fields hold together.
use hobby_os_kernel.Common.{
  ℕ, ◌+◌, ◌^◌, ◌%◌, ◌<◌, ◌≡◌, refl, ap, ◌∙◌, ◌≢◌, bit_and, bit_or, ◌<<◌, ◌>>◌, arith, bit_and-low,
  bit_or_fields, bit_and_field, bit_or_above, ==_self, ==_ne,
}
use hobby_os_kernel.Descriptors.{
  GdtEntry, gdt_set_entry, gdt_entry_base, gdt_entry_limit, IdtEntry, idt_set_gate,
  idt_entry_offset,
}

-- Three fields side by side.
join3 :
    (a b c k l : ℕ)
    → a < 2 ^ k
    → a + b << k < 2 ^ l
    → bit_or (bit_or a (b << k)) (c << l) ≡ a + b << k + c << l
join3 a b c k l ha hab =
    ap (λ x. bit_or x (c << l)) (bit_or_fields k b a ha) ∙ bit_or_fields l c (a + b << k) hab

gran_low :
    (g : ℕ) (l : ℕ) → bit_and (bit_or (bit_and g 0xF0) (bit_and (l >> 16) 0x0F)) 0x0F ≡ l >> 16 % 16
gran_low g l =
    rw
      (
        bit_and_field 4 4 g,
        bit_and-low 4 (l >> 16),
        bit_or_above 4 (g >> 4 % 2 ^ 4) (l >> 16 % 2 ^ 4) (omega arith),
        bit_and-low 4 ((g >> 4 % 2 ^ 4) << 4 + l >> 16 % 2 ^ 4),
      )
      (omega arith)

-- The entry that `gdt_set_entry` writes has the base and the limit that it was given, and its access
-- byte; the other entries of the table stay.
pub gdt_set_entry-fields :
    (i base limit access gran_hi : ℕ) (gdt : ℕ → GdtEntry)
    → base < 2 ^ 32
    → limit < 2 ^ 20
    → let gdt' = gdt_set_entry i base limit access gran_hi gdt in
      (gdt_entry_base (gdt' i) ≡ base)
      × (gdt_entry_limit (gdt' i) ≡ limit)
      × ((gdt' i).access ≡ access)
      × ((j : ℕ) → j ≢ i → gdt' j ≡ gdt j)
unfolding gdt_set_entry gdt_entry_base gdt_entry_limit
gdt_set_entry-fields i base limit access gran_hi gdt hb hl =
    rw
      (
        ==_self i,
        bit_and-low 16 base,
        bit_and-low 8 (base >> 16),
        bit_and-low 8 (base >> 24),
        bit_and-low 16 limit,
        gran_low gran_hi limit,
        join3 (base % 2 ^ 16) (base >> 16 % 2 ^ 8) (base >> 24 % 2 ^ 8) 16 24 (omega arith)
            (omega arith),
        bit_or_fields 16 (limit >> 16 % 16) (limit % 2 ^ 16) (omega arith),
      )
      (omega arith, omega arith, refl, λ j ne. rw (==_ne j i ne) refl)

-- The gate that `idt_set_gate` writes has the handler's address, the selector and the type that it was
-- given; the other gates of the table stay.
pub idt_set_gate-fields :
    (vector handler selector type_attr : ℕ) (idt : ℕ → IdtEntry)
    → handler < 2 ^ 64
    → let idt' = idt_set_gate vector handler selector type_attr idt in
      (idt_entry_offset (idt' vector) ≡ handler)
      × ((idt' vector).selector ≡ selector)
      × ((idt' vector).type_attr ≡ type_attr)
      × ((j : ℕ) → j ≢ vector → idt' j ≡ idt j)
unfolding idt_set_gate idt_entry_offset
idt_set_gate-fields vector handler selector type_attr idt h =
    rw
      (
        ==_self vector,
        bit_and-low 16 handler,
        bit_and-low 16 (handler >> 16),
        bit_and-low 32 (handler >> 32),
        join3 (handler % 2 ^ 16) (handler >> 16 % 2 ^ 16) (handler >> 32 % 2 ^ 32) 16 32
            (omega arith) (omega arith),
      )
      (omega arith, refl, refl, λ j ne. rw (==_ne j vector ne) refl)

-- The gate leads to the handler, and has the type.
abbrev pub Leads : IdtEntry → ℕ → ℕ → Type 0
Leads e handler type_attr = (idt_entry_offset e ≡ handler) × (e.type_attr ≡ type_attr)
