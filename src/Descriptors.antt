-- ===== src/Descriptors.antt =====
-- gdt.c and idt.c: the descriptors that the processor reads, and the tables of them.
pub mod Fields
use hobby_os_kernel.Common.{
  ℕ, zero, suc, ◌+◌, ◌-◌, ◌*◌, ◌^◌, ◌%◌, bit_and, bit_or, Bool, if◌then◌else◌, ◌==◌, ◌<<◌, ◌>>◌,
}

pub record GdtEntry : Type 0 where
  pub limit_low : ℕ
  pub base_low : ℕ
  pub base_mid : ℕ
  pub access : ℕ
  pub granularity : ℕ
  pub base_high : ℕ

-- The entry in slot `i` of a table.
abbrev pub set_entry {ℓ} : {A : Type ℓ} → (ℕ → A) → ℕ → A → ℕ → A
set_entry table i e j = if j == i then e else table j

pub gdt_set_entry : ℕ → ℕ → ℕ → ℕ → ℕ → (ℕ → GdtEntry) → ℕ → GdtEntry
gdt_set_entry i base limit access gran_hi gdt = set_entry gdt i (record {
  limit_low = bit_and limit 0xFFFF;
  base_low = bit_and base 0xFFFF;
  base_mid = bit_and (base >> 16) 0xFF;
  access = access;
  granularity = bit_or (bit_and gran_hi 0xF0) (bit_and (limit >> 16) 0x0F);
  base_high = bit_and (base >> 24) 0xFF;
})

pub record TssEntry : Type 0 where
  pub low : GdtEntry
  pub base_upper : ℕ
  pub reserved : ℕ

-- The 16 bytes that `tss_set_entry` writes over two entries.
pub tss_entry : ℕ → ℕ → TssEntry
tss_entry base limit = record {
  low = record {
    limit_low = bit_and limit 0xFFFF;
    base_low = bit_and base 0xFFFF;
    base_mid = bit_and (base >> 16) 0xFF;
    access = 0x89;
    granularity = bit_and (limit >> 16) 0x0F;
    base_high = bit_and (base >> 24) 0xFF;
  };
  base_upper = bit_and (base >> 32) 0xFFFFFFFF;
  reserved = 0;
}

pub gdt_entry_base : GdtEntry → ℕ
gdt_entry_base e = bit_or (bit_or e.base_low (e.base_mid << 16)) (e.base_high << 24)

pub gdt_entry_limit : GdtEntry → ℕ
gdt_entry_limit e = bit_or e.limit_low (bit_and e.granularity 0x0F << 16)

-- The five entries of code and data that `gdt_init` sets: the null entry, the kernel's code and data,
-- the user's data and code.
pub gdt_segments : (ℕ → GdtEntry) → ℕ → GdtEntry
gdt_segments gdt = gdt_set_entry 4 0 0xFFFFF 0xFA 0xA0 (
    gdt_set_entry 3 0 0xFFFFF 0xF2 0xC0 (
      gdt_set_entry 2 0 0xFFFFF 0x92 0xC0
        (gdt_set_entry 1 0 0xFFFFF 0x9A 0xA0 (gdt_set_entry 0 0 0 0x00 0x00 gdt))))

pub record IdtEntry : Type 0 where
  pub offset_low : ℕ
  pub selector : ℕ
  pub ist : ℕ
  pub type_attr : ℕ
  pub offset_mid : ℕ
  pub offset_high : ℕ
  pub reserved : ℕ

pub idt_set_gate : ℕ → ℕ → ℕ → ℕ → (ℕ → IdtEntry) → ℕ → IdtEntry
idt_set_gate vector handler selector type_attr idt = set_entry idt vector (record {
  offset_low = bit_and handler 0xFFFF;
  selector = selector;
  ist = 0;
  type_attr = type_attr;
  offset_mid = bit_and (handler >> 16) 0xFFFF;
  offset_high = bit_and (handler >> 32) 0xFFFFFFFF;
  reserved = 0;
})

pub idt_entry_offset : IdtEntry → ℕ
idt_entry_offset e = bit_or (bit_or e.offset_low (e.offset_mid << 16)) (e.offset_high << 32)

abbrev pub idt_interrupt_gate : ℕ
idt_interrupt_gate = 0x8E

abbrev pub idt_interrupt_gate_user : ℕ
idt_interrupt_gate_user = 0xEE

-- The gates of the first `n` exceptions, with their handlers' addresses.
set_exceptions : ℕ → (ℕ → ℕ) → ℕ → (ℕ → IdtEntry) → ℕ → IdtEntry
set_exceptions zero isr cs idt = idt
set_exceptions (suc n) isr cs idt =
    idt_set_gate n (isr n) cs idt_interrupt_gate (set_exceptions n isr cs idt)

-- `idt_init`: the 32 exceptions, the system call, and the timer's interrupt.
pub idt_init : (ℕ → ℕ) → ℕ → ℕ → ℕ → (ℕ → IdtEntry) → ℕ → IdtEntry
idt_init isr syscall_entry_asm timer_isr kernel_cs idt =
    idt_set_gate 0x20 timer_isr kernel_cs idt_interrupt_gate (
      idt_set_gate 0x80 syscall_entry_asm kernel_cs idt_interrupt_gate_user
        (set_exceptions 32 isr kernel_cs idt))
