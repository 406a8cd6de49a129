-- ===== src/HostApi/Tests.antt =====
-- Runs of the interface, and instances of its theorems.
use lord.Prelude.{◌+◌, ◌-◌, ◌%◌, ◌^◌, ◌≡◌, refl, none, some, [], ◌∷◌, ◌++◌, arith}
use lord.Kernel.{done}
use lord.Str.{Bytes}
use lord.Pci.{ConfSpace, get_header, map_function}
use lord.Vmm.Tests.{upper, kernel_page_map, spare, only_root, empty_space, space}
use lord.Vmm.Walk.{Mapped, vmm_map_page-Mapped}
use lord.Stdio.Format.{text, kprintf, format_loop}
use lord.HostApi.{
  PciAddress, log_error, status_ok, uacpi_kernel_pci_read, uacpi_kernel_pci_write,
  uacpi_kernel_pci_device_open, uacpi_kernel_log,
}
use lord.HostApi.Device.{uacpi_kernel_pci_device_open_lem}
use lord.HostApi.Registers.{uacpi_kernel_pci_read-write}

abbrev blank_bytes : Bytes
blank_bytes a = 0

uacpi_kernel_pci_read-write_example :
    ((uacpi_kernel_pci_write 0x9000 4 2 0x1_1234 blank_bytes).0 ≡ status_ok)
    × (uacpi_kernel_pci_read (uacpi_kernel_pci_write 0x9000 4 2 0x1_1234 blank_bytes).1 0x9000 4 2
        ≡ (status_ok, some 0x1234))
    × ((uacpi_kernel_pci_write 0x9000 4 2 0x1_1234 blank_bytes).1 0x9005 ≡ 0x12)
uacpi_kernel_pci_read-write_example =
    uacpi_kernel_pci_read-write blank_bytes 0x9000 4 2 0x1_1234 0x9005

-- An error is printed at all three levels, and the message at none.
uacpi_kernel_log_error :
    uacpi_kernel_log log_error (text "no memory")
    ≡ some (
        text "uacpi: error: %s"
        ++ b'\n' ∷ (text "uacpi: warn: %s" ++ b'\n' ∷ (text "uacpi: info: %s" ++ b'\n' ∷ [])))
unfolding uacpi_kernel_log kprintf format_loop
uacpi_kernel_log_error = refl

-- A device with one function.
abbrev root_device : PciAddress
root_device = record { segment = 0; bus = 0; device = 0; function = 0 }

abbrev conf_space : ConfSpace
conf_space = record { config_space_base_addr = 0x40_1000; start_pci_num = 0; end_pci_num = 1 }

header_mapped :
    Mapped upper only_root kernel_page_map 0x40_1000
      ((0x40_1000 + 2 ^ 64 - upper) % 2 ^ 64)
      0x4000_0000_0000_0003
      space
      spare
header_mapped =
    vmm_map_page-Mapped upper refl kernel_page_map 0x40_1000 ((0x40_1000 + 2 ^ 64 - upper) % 2 ^ 64)
      0x4000_0000_0000_0003 empty_space refl refl (omega arith)

map_function_runs :
    map_function upper kernel_page_map blank_bytes (get_header 0 0 0 conf_space) space
    ≡ done header_mapped.after
unfolding map_function get_header
map_function_runs = header_mapped.returns

uacpi_kernel_pci_device_open_lem_example :
    uacpi_kernel_pci_device_open upper kernel_page_map blank_bytes root_device conf_space space
    ≡ done (0x40_1000, none, header_mapped.after)
unfolding get_header
uacpi_kernel_pci_device_open_lem_example =
    uacpi_kernel_pci_device_open_lem upper kernel_page_map blank_bytes root_device conf_space space
      header_mapped.after refl (omega arith) map_function_runs refl
