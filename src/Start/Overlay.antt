-- ===== src/Start/Overlay.antt =====
-- The heap behind `smp_init` and `pci_init`.
use lord.Prelude.{ℕ, ◌+◌, ◌%◌, ◌^◌, false, replicate}
use lord.Acpi.{Tables, find_acpi_table}
use lord.Pci.{ConfSpace, PciArray, pci_device_bus, blank_structure, parse_conf_space}
use lord.Vmm.{Vmm}
use lord.Start.{Responses, Hardware, Globals}

-- The array of PCI devices before the enumeration.
abbrev pub blank_array : PciArray
blank_array = record { entries = replicate pci_device_bus blank_structure; locked = false }

module _ (hhdm kernel_page_map : ℕ) (b : Responses) (w : Hardware) (g : Globals)
    (tables : Tables) where
  -- The configuration space that `pci_init` finds in the MCFG table.
  abbrev pub found_space : ConfSpace
  found_space =
      parse_conf_space ((find_acpi_table hhdm w.mcfg w.mem tables + hhdm) % 2 ^ 64) hhdm w.mem
        g.conf_space
