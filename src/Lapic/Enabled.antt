-- ===== src/Lapic/Enabled.antt =====
-- What `lapic_enable` leaves behind.
use hobby_os_kernel.Common.{
  ==_iff, ◌<<◌, ℕ, ◌+◌, ◌*◌, ◌/◌, ◌%◌, ◌^◌, ◌<◌, ◌≤◌, ◌≡◌, refl, ap, ◌∙◌, bit_or, true,
  if◌then◌else◌, ◌==◌, List, some, arith, length, bit_and_field, inl, inr,
}
use hobby_os_kernel.Word.{u64}
use hobby_os_kernel.Paging.Entry.{present}
use hobby_os_kernel.Paging.RoundTrip.{IsFrameAddress}
use hobby_os_kernel.Paging.Walk.{get_current_pml4}
use hobby_os_kernel.Paging.Walk.Lookup.{translate}
use hobby_os_kernel.Paging.Walk.Create.{HasFree}
use hobby_os_kernel.Paging.Tree.{IsTree}
use hobby_os_kernel.Paging.Tree.Pages.{same_page}
use hobby_os_kernel.Paging.Tree.Map.{Shows, vmm_map-Shows}
use hobby_os_kernel.Lapic.{
  Processor, register_at, read_at, lapic_read, write_at, lapic_write, set_registers, set_lint0,
  apic_phys, mapped_lapic, lapic_enable,
}

apic_phys-IsFrameAddress : (p : Processor) → IsFrameAddress (apic_phys p)
apic_phys-IsFrameAddress p = record {
  aligned = omega (arith, bit_and_field 20 12 p.apic_base_msr);
  small = omega (arith, bit_and_field 20 12 p.apic_base_msr);
}

-- The controller's registers after the two writes.
abbrev pub enabled_registers : Processor → ℕ → ℕ
enabled_registers p r =
    if r == apic_phys p + 0x350
    then 0x700
    else if r == apic_phys p + 0x0F0
    then bit_or (bit_or (p.registers (apic_phys p + 0x0F0)) 0x100) 0xFF % 2 ^ 32
    else p.registers r

-- Where the direct map has the controller's registers.
abbrev pub lapic_vaddr : ℕ → Processor → ℕ
lapic_vaddr hhdm_offset p = u64 (apic_phys p + hhdm_offset)

module _ (hhdm_offset : ℕ) (p : Processor) (free : List ℕ) (aligned : hhdm_offset % 4096 ≡ 0)
    (f : HasFree p.ram free) (tree : IsTree p.ram.bytes (get_current_pml4 p.cr3) free)
    (enough : 3 ≤ length free) where
  mapped_lapic-Shows :
      (free' : List ℕ) × Shows
        (get_current_pml4 p.cr3)
        p.ram
        free
        (λ b.
          if same_page (lapic_vaddr hhdm_offset p) b
          then some (apic_phys p + b % 4096)
          else translate p.ram.bytes (get_current_pml4 p.cr3) b)
        (mapped_lapic hhdm_offset p).ram
        free'
  unfolding mapped_lapic present
  mapped_lapic-Shows =
      let (free', r) =
        vmm_map-Shows {flags = 3} (apic_phys-IsFrameAddress p) (omega arith) refl p.ram
          (get_current_pml4 p.cr3) (lapic_vaddr hhdm_offset p) free f tree in
      elim r [ inl short ↦ absurd (omega (arith, short.0, enough)) | inr shows ↦ (free', shows) ]

  -- A register is found at its physical address.
  register_lem :
      (reg : ℕ)
      → reg < 4096
      → reg % 4 ≡ 0
      → register_at reg (mapped_lapic hhdm_offset p) ≡ some (apic_phys p + reg)
  unfolding mapped_lapic
  register_lem reg h k =
      mapped_lapic-Shows.1.seen (u64 (lapic_vaddr hhdm_offset p + 4 * (reg / 4)))
      ∙ rw same (ap some place)
    where
      base : apic_phys p % 4096 ≡ 0
      base = (apic_phys-IsFrameAddress p).aligned

      same :
          same_page (lapic_vaddr hhdm_offset p) (u64 (lapic_vaddr hhdm_offset p + 4 * (reg / 4)))
          ≡ true
      same = (==_iff _ _).1 (omega (arith, base, aligned))

      place :
          apic_phys p + u64 (lapic_vaddr hhdm_offset p + 4 * (reg / 4)) % 4096 ≡ apic_phys p + reg
      place = omega (arith, base, aligned)

  abbrev mapped : Processor
  mapped = mapped_lapic hhdm_offset p

  read_svr : lapic_read 0x0F0 mapped ≡ some (p.registers (apic_phys p + 0x0F0))
  unfolding lapic_read mapped_lapic
  read_svr = ap (λ o. read_at o mapped) (register_lem 0x0F0 (omega arith) refl)

  write_svr :
      (v : ℕ)
      → lapic_write 0x0F0 v mapped
        ≡ some (record mapped {
          registers = λ r. if r == apic_phys p + 0x0F0 then v % 2 ^ 32 else p.registers r;
        })
  unfolding lapic_write mapped_lapic
  write_svr v = ap (λ o. write_at o v mapped) (register_lem 0x0F0 (omega arith) refl)

  run : lapic_enable hhdm_offset p ≡ some (record mapped { registers = enabled_registers p })
  unfolding lapic_enable lapic_write mapped_lapic set_lint0
  run =
      let v = bit_or (bit_or (p.registers (apic_phys p + 0x0F0)) 0x100) 0xFF in
      ap (λ o. set_registers o mapped) read_svr
      ∙ (ap set_lint0 (write_svr v)
          ∙ ap
              (λ o. write_at o 0x700 (record mapped {
                registers = λ r. if r == apic_phys p + 0x0F0 then v % 2 ^ 32 else p.registers r;
              }))
              (register_lem 0x350 (omega arith) refl))

  -- On a tree of tables, with three free pages for more, `lapic_enable` returns: the enable bit of
  -- the base register is set, the page of the direct map at the controller's base is translated to
  -- the base and all other addresses as before, the spurious-interrupt register has its enable bit
  -- and vector 0xFF added, the entry of LINT0 passes interrupts of the 8259 on, and no other
  -- register is written. The direct map starts at a page's address.
  pub lapic_enable_lem :
      (p' : Processor) × (free' : List ℕ) × (lapic_enable hhdm_offset p ≡ some p')
      × (p'.apic_base_msr ≡ bit_or p.apic_base_msr (1 << 11))
      × ((r : ℕ) → p'.registers r ≡ enabled_registers p r)
      × Shows
          (get_current_pml4 p.cr3)
          p.ram
          free
          (λ b.
            if same_page (lapic_vaddr hhdm_offset p) b
            then some (apic_phys p + b % 4096)
            else translate p.ram.bytes (get_current_pml4 p.cr3) b)
          p'.ram
          free'
  unfolding lapic_enable mapped_lapic
  lapic_enable_lem = (
    record mapped { registers = enabled_registers p },
    mapped_lapic-Shows.0,
    run,
    refl,
    (λ r. refl),
    mapped_lapic-Shows.1,
  )
