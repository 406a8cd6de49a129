-- ===== src/Pci/Start.antt =====
-- src/sys/pci.c: `pci_init`, from the MCFG table to the array of devices, and `check_bus`.
use lord.Prelude.{
  ℕ, zero, suc, ◌+◌, ◌*◌, ◌/◌, ◌%◌, ◌^◌, bit_or, ◌==◌, if◌then◌else◌, replicate, false, List, [],
  ◌∷◌,
}
use lord.Kernel.{Outcome, done, killed, ◌>>=◌}
use lord.Str.{Bytes, put}
use lord.Acpi.{Tables, find_acpi_table}
use lord.Kmalloc.{Heap, kmalloc}
use lord.Pmm.{phys}
use lord.Vmm.{Vmm, pte_bit_rw, pte_bit_nx, page_size, kernel_map_pages}
use lord.Pci.{
  PciArray, PciStructure, ConfSpace, pci_device_bus, blank_structure, parse_conf_space,
  enumerate_conf_space, check_device,
}

abbrev pub pcie_conf_space_width : ℕ
pcie_conf_space_width = 4096

-- `sizeof(pci_structure)`, with the padding in front of `func_addr`.
abbrev pub pci_structure_size : ℕ
pci_structure_size = 72

-- A little-endian store of `width` bytes.
unfoldable pub put_bytes : Bytes → (a width v : ℕ) → Bytes
put_bytes m a zero v = m
put_bytes m a (suc width) v = put_bytes (put m a (v % 2 ^ 8)) (a + 1) width (v / 2 ^ 8)

unfoldable pub put_functions : Bytes → (a : ℕ) → List ℕ → Bytes
unfolding put_bytes
put_functions m a [] = m
put_functions m a (f ∷ fs) = put_functions (put_bytes m a 8 f) (a + 8) fs

-- A `pci_structure` in memory; four bytes of padding stand in front of `func_addr`.
unfoldable pub put_structure : Bytes → (a : ℕ) → PciStructure → Bytes
unfolding put_functions put_bytes
put_structure m a s =
    put_functions
      (put_bytes (put_bytes (put_bytes m a 2 s.segment) (a + 2) 1 s.bus) (a + 3) 1 s.device) (a + 8)
      s.func_addr

unfoldable pub put_array : Bytes → (a : ℕ) → List PciStructure → Bytes
unfolding put_structure
put_array m a [] = m
put_array m a (s ∷ ss) = put_array (put_structure m a s) (a + pci_structure_size) ss

-- The globals of src/sys/pci.c behind `pci_init`, with the heap and the page tables.
pub record Started : Type 0 where
  pub conf_space : ConfSpace
  pub pci_array : ℕ
  pub structures : PciArray
  pub heap : Heap
  pub vmm : Vmm

-- `signature` is the address of `"MCFG"`; the tables and the devices are bytes of `m`. The structures
-- of the array are first blank, as `kmalloc` leaves the bytes of the heap. While the devices are
-- enumerated they are kept as a list; the stores to the bytes of the heap stand behind it, as nothing
-- else reads or writes the heap on the way.
unfoldable pub pci_init :
    (hhdm kernel_page_map signature : ℕ) → Bytes → Tables → ConfSpace → Heap → Vmm → Outcome Started
unfolding put_array
pci_init hhdm kernel_page_map signature m tables c h v =
    let mcfg = find_acpi_table hhdm signature m tables in
    let c' = parse_conf_space ((mcfg + hhdm) % 2 ^ 64) hhdm m c in
    if mcfg == 0
    then killed
    else (kernel_map_pages hhdm kernel_page_map (phys hhdm c'.config_space_base_addr)
          (pcie_conf_space_width * c'.end_pci_num / page_size) (bit_or pte_bit_rw pte_bit_nx) v
        >>= λ v1.
            (kmalloc (pci_device_bus * pci_structure_size) h >>= λ r.
            if r.0 == 0
            then killed
            else (enumerate_conf_space hhdm kernel_page_map m c'
                  (record { entries = replicate pci_device_bus blank_structure; locked = false }) v1
                >>= λ e. done (record {
                  conf_space = c';
                  pci_array = r.0;
                  structures = e.0;
                  heap = record r.1 { mem = put_array r.1.mem r.0 e.0.entries };
                  vmm = e.1;
                }))))

-- The loop of `check_bus`, which drops what it finds, and keeps the mappings.
pub check_bus_loop :
    (hhdm kernel_page_map : ℕ) → Bytes → (left i bus : ℕ) → ConfSpace → Vmm → Outcome Vmm
check_bus_loop hhdm kernel_page_map m zero i bus c v = done v
check_bus_loop hhdm kernel_page_map m (suc left) i bus c v =
    check_device hhdm kernel_page_map m bus i c v >>= λ r.
    check_bus_loop hhdm kernel_page_map m left (i + 1) bus c r.1

pub check_bus : (hhdm kernel_page_map : ℕ) → Bytes → (bus : ℕ) → ConfSpace → Vmm → Outcome Vmm
unfolding check_bus_loop
check_bus hhdm kernel_page_map m bus c v = check_bus_loop hhdm kernel_page_map m 32 0 bus c v
