-- ===== src/Lapic.antt =====
-- lapic.c: the local interrupt controller of the processor, whose registers the kernel reads and
-- writes at the virtual address that it maps to them.
pub mod Enabled
use hobby_os_kernel.Common.{
  ℕ, ◌+◌, ◌*◌, ◌/◌, ◌%◌, ◌^◌, bit_and, bit_or, Option, none, some, if◌then◌else◌, ◌==◌, ◌<<◌,
}
use hobby_os_kernel.Word.{u64}
use hobby_os_kernel.Frames.{Ram}
use hobby_os_kernel.Paging.Walk.{vmm_map, get_current_pml4}
use hobby_os_kernel.Paging.Walk.Lookup.{translate}

-- The memory, the model-specific register IA32_APIC_BASE, the controller's registers by their
-- physical addresses, the register that names the active top-level table, and `lapic_base`.
pub record Processor : Type 0 where
  pub ram : Ram
  pub apic_base_msr : ℕ
  pub registers : ℕ → ℕ
  pub cr3 : ℕ
  pub lapic_base : ℕ

abbrev pub lapic_reg_svr : ℕ
lapic_reg_svr = 0x0F0

abbrev pub lapic_reg_lvt_lint0 : ℕ
lapic_reg_lvt_lint0 = 0x350

-- The physical address of `lapic_base[reg / 4]`.
abbrev pub register_at : ℕ → Processor → Option ℕ
register_at reg p =
    translate p.ram.bytes (get_current_pml4 p.cr3) (u64 (p.lapic_base + 4 * (reg / 4)))

read_at : Option ℕ → Processor → Option ℕ
read_at none p = none
read_at (some a) p = some (p.registers a)

-- `none` is an access to an address that is not mapped.
pub lapic_read : ℕ → Processor → Option ℕ
unfolding read_at
lapic_read reg p = read_at (register_at reg p) p

write_at : Option ℕ → ℕ → Processor → Option Processor
write_at none value p = none
write_at (some a) value p =
    some (record p { registers = λ r. if r == a then value % 2 ^ 32 else p.registers r })

pub lapic_write : ℕ → ℕ → Processor → Option Processor
unfolding write_at
lapic_write reg value p = write_at (register_at reg p) value p

set_lint0 : Option Processor → Option Processor
set_lint0 none = none
set_lint0 (some p) = lapic_write lapic_reg_lvt_lint0 0x700 p

-- The part of `lapic_enable` that writes the two registers.
set_registers : Option ℕ → Processor → Option Processor
set_registers none p = none
set_registers (some svr) p =
    set_lint0 (lapic_write lapic_reg_svr (bit_or (bit_or svr 0x100) 0xFF) p)

abbrev pub apic_phys : Processor → ℕ
apic_phys p = bit_and p.apic_base_msr 0xFFFFF000

-- The controller is enabled and its page is mapped in the direct map, which starts at `hhdm_offset`.
pub mapped_lapic : ℕ → Processor → Processor
mapped_lapic hhdm_offset p =
    let vaddr = u64 (apic_phys p + hhdm_offset) in
    record p {
      ram = vmm_map (get_current_pml4 p.cr3) vaddr (apic_phys p) (bit_or (1 << 0) (1 << 1)) p.ram;
      apic_base_msr = bit_or p.apic_base_msr (1 << 11);
      lapic_base = vaddr;
    }

pub lapic_enable : ℕ → Processor → Option Processor
unfolding set_registers
lapic_enable hhdm_offset p =
    let p = mapped_lapic hhdm_offset p in set_registers (lapic_read lapic_reg_svr p) p
