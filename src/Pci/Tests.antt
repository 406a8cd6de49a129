-- ===== src/Pci/Tests.antt =====
-- A device in the array, and instances of the theorems.
use lord.Prelude.{ℕ, ◌≡◌, refl, false, some, List, [], ◌∷◌, ◌++◌, arith}
use lord.Kernel.{done, hangs}
use lord.Pci.{ConfSpace, PciStructure, PciArray, blank_structure, pci_add_device, pci_get_device}
use lord.Pci.Array.{pci_get_device-pci_add_device}

abbrev space : ConfSpace
space = record { config_space_base_addr = 0xe000_0000; start_pci_num = 0; end_pci_num = 255 }

abbrev a_device : ℕ → PciStructure
a_device n = record {
  segment = 1;
  bus = 0;
  device = n;
  func_addr = 0xe000_8000 ∷ 0 ∷ 0 ∷ 0 ∷ 0 ∷ 0 ∷ 0 ∷ 0 ∷ [];
}

abbrev blanks : List PciStructure
blanks = blank_structure ∷ []

pci_get_device-pci_add_device_example :
    (a : PciArray) × (pci_add_device
        (a_device 2)
        (record { entries = (a_device 1 ∷ []) ++ blank_structure ∷ blanks; locked = false })
      ≡ done (record { entries = (a_device 1 ∷ []) ++ a_device 2 ∷ blanks; locked = false }))
    × (pci_get_device
          (a_device 2)
          (record { entries = (a_device 1 ∷ []) ++ a_device 2 ∷ blanks; locked = false })
        ≡ done (some 1, a))
    × ((t : PciStructure) → pci_add_device t a ≡ hangs)
    × ((t : PciStructure) → pci_get_device t a ≡ hangs)
pci_get_device-pci_add_device_example =
    pci_get_device-pci_add_device (a_device 2) (a_device 1 ∷ []) blanks ((ground arith, refl), tt)
      (omega arith) refl
