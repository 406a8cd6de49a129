-- ===== src/Drivers/Ahci/Tests.antt =====
-- A controller in the first slot of the first bus, with its registers at 0x9000.
use lord.Prelude.{
  ℕ, false, ◌+◌, ◌-◌, ◌*◌, ◌/◌, ◌%◌, ◌^◌, ◌≤◌, ◌≡◌, refl, ap, some, List, ◌++◌, set, arith, bit_or,
  ◌==◌, if◌then◌else◌, length,
}
use lord.Kernel.{done}
use lord.Str.{Bytes}
use lord.Pci.{
  ConfSpace, no_functions, map_function, check_device, wanted, find_on_bus, find_on_buses,
  pci_find_device,
}
use lord.Vmm.{Vmm, pte_bit_present, pte_bit_rw, pte_bit_nx, kernel_map_pages}
use lord.Vmm.Translate.{walk_at, walk_slot, walk_slot-Path4, step}
use lord.Vmm.Tests.{upper, kernel_page_map, spare}
use lord.Vmm.Walk.{Mapped}
use lord.Vmm.Walk.Tests.{pt, levels, occupied_words, occupied-IsMapped, occupied}
use lord.Vmm.Ranges.{kernel_map_pages-updates}
use lord.Vmm.Boot.Again.{mapped_again}
use lord.Vmm.Boot.Requests.{range_requests}
use lord.Vmm.Boot.Reached.{regions}
use lord.Drivers.Ahci.{
  ahci_class_id, ahci_subclass_id, ahci_bohc_reg, ahci_ghc_reg, ahci_write_reg, pte_bit_uncachable,
  command, Ahci, ahci_init, ahci_init-no_wait,
}

abbrev header : ℕ
header = 0x100_1000

-- The vendor, the class and `bar5`; all else is 0.
abbrev devices : Bytes
devices a =
    if a == header
    then 0x86
    else (if a == header + 10
        then 6
        else (if a == header + 11 then 1 else (if a == header + 37 then 0x90 else 0)))

abbrev conf_space : ConfSpace
conf_space = record { config_space_base_addr = header; start_pci_num = 0; end_pci_num = 1 }

at_header : walk_slot upper occupied_words kernel_page_map header ≡ some (pt + 8)
unfolding walk_slot walk_at step
at_header = refl

mapped :
    (m : Mapped upper levels kernel_page_map header
      ((header + 2 ^ 64 - upper) % 2 ^ 64)
      (bit_or (bit_or pte_bit_present pte_bit_rw) pte_bit_nx)
      occupied
      spare)
    × (m.rest ≡ spare)
mapped =
    mapped_again upper refl kernel_page_map header ((header + 2 ^ 64 - upper) % 2 ^ 64) _
      occupied-IsMapped refl refl
      (walk_slot-Path4 upper occupied_words kernel_page_map header (pt + 8) at_header)

checked :
    check_device upper kernel_page_map devices 0 0 conf_space occupied
    ≡ done (record { multi = false; func_addr = set no_functions 0 header }, mapped.0.after)
unfolding check_device map_function
checked = rw mapped.0.returns refl

found :
    pci_find_device upper kernel_page_map devices ahci_class_id
      (some ahci_subclass_id)
      conf_space
      occupied
    ≡ done (header, mapped.0.after)
unfolding pci_find_device find_on_buses find_on_bus wanted
found = rw checked refl

abbrev flags : ℕ
flags = bit_or (bit_or pte_bit_rw pte_bit_nx) pte_bit_uncachable

enough :
    3 * regions (2 ^ 27) (range_requests 1 0 (0x9000 + upper) 0x9000 (bit_or pte_bit_present flags))
    ≤ length mapped.0.rest
unfolding regions range_requests
enough = omega (arith, ap (λ (xs : List ℕ). length xs) mapped.1)

registers :
    (after : Vmm) × (kernel_map_pages upper kernel_page_map 0x9000 1 flags mapped.0.after
      ≡ done after)
registers =
    let r =
      kernel_map_pages-updates upper refl mapped.0.after kernel_page_map 0x9000 1 flags
        mapped.0.mapped mapped.0.root_level mapped.0.unlocked (omega arith) enough in
    (r.0, r.3)

ahci_init-no_wait_example :
    (a : Ahci) × (ahci_init (λ k. 1) (λ k i. 0) upper kernel_page_map 1 devices conf_space occupied
      ≡ done a)
    × (a.ahci_base_address ≡ 0x100_9000)
    × (a.stores
        ≡ ahci_write_reg a.ahci_base_address ahci_bohc_reg 3
          ++ ahci_write_reg a.ahci_base_address ahci_ghc_reg 1)
    × (a.reads ≡ 2)
    × (command a.devices header % 4 ≡ 3)
    × (command a.devices header / 4 % 2 ≡ 0)
    × (a.vmm ≡ registers.0)
ahci_init-no_wait_example =
    ahci_init-no_wait (λ k. 1) (λ k i. 0) upper kernel_page_map 0 header devices conf_space occupied
      mapped.0.after registers.0 found (omega arith) registers.1
