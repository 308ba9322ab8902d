-- ===== src/Tests/Lapic.antt =====
-- A concrete input for the theorem on the local interrupt controller.
use hobby_os_kernel.Common.{◌==◌, ℕ, ◌+◌, ◌%◌, ◌≡◌, refl, List, some, arith, if◌then◌else◌}
use hobby_os_kernel.Word.{u64}
use hobby_os_kernel.Paging.Walk.{get_current_pml4}
use hobby_os_kernel.Paging.Walk.Lookup.{translate}
use hobby_os_kernel.Paging.Tree.{IsTree}
use hobby_os_kernel.Paging.Tree.Pages.{same_page}
use hobby_os_kernel.Paging.Tree.Map.{Shows}
use hobby_os_kernel.Lapic.{Processor, apic_phys, lapic_enable}
use hobby_os_kernel.Lapic.Enabled.{enabled_registers, lapic_enable_lem}
use hobby_os_kernel.Tests.Paging.{cleared, three_pages, cleared-HasFree, root-IsTree}

-- The controller of the processor that boots, with its registers at 0xFEE00000.
abbrev booting : Processor
booting = record {
  ram = cleared;
  apic_base_msr = 0xFEE00100;
  registers = λ r. if r == 0xFEE000F0 then 0xFF else 0;
  cr3 = 20480;
  lapic_base = 0;
}

booting-IsTree : IsTree cleared.bytes (get_current_pml4 20480) three_pages
unfolding get_current_pml4
booting-IsTree = root-IsTree

lapic_enable_lem_example :
    (p' : Processor) × (free' : List ℕ) × (lapic_enable 0 booting ≡ some p')
    × (p'.apic_base_msr ≡ 0xFEE00900)
    × ((r : ℕ) → p'.registers r ≡ enabled_registers booting r)
    × Shows
        (get_current_pml4 20480)
        cleared
        three_pages
        (λ b.
          if same_page (u64 (apic_phys booting + 0)) b
          then some (apic_phys booting + b % 4096)
          else translate cleared.bytes (get_current_pml4 20480) b)
        p'.ram
        free'
lapic_enable_lem_example =
    lapic_enable_lem 0 booting three_pages refl cleared-HasFree booting-IsTree (omega arith)
