-- ===== src/HostApi.antt =====
-- src/uacpi_kernel_api.c: what the kernel offers to uACPI.
pub mod Device
pub mod Registers
mod Tests
use lord.Prelude.{
  ℕ, ◌+◌, ◌*◌, ◌/◌, ◌%◌, ◌^◌, Bool, true, false, Option, none, some, List, [], ◌∷◌, ◌++◌, ◌==◌,
  if◌then◌else◌, get_elem?,
}
use lord.Kernel.{Outcome, done, killed, fault, ◌>>=◌}
use lord.Str.{Bytes, put}
use lord.Acpi.{word16, word32}
use lord.Kmalloc.{Heap, kmalloc, kfree}
use lord.Pci.{ConfSpace, FunctionReturn, check_device}
use lord.Stdio.Format.{text, str, kprintf}
use lord.Vmm.{Vmm, pte_bit_rw, kernel_map_pages, kernel_unmap_pages}

-- The values of `uacpi_status` that the kernel returns.
abbrev pub status_ok : ℕ
status_ok = 0

abbrev pub status_unimplemented : ℕ
status_unimplemented = 8

abbrev pub status_internal_error : ℕ
status_internal_error = 10

-- Little-endian stores.
abbrev pub put16 : Bytes → (a v : ℕ) → Bytes
put16 m a v = put (put m a (v % 2 ^ 8)) (a + 1) (v / 2 ^ 8 % 2 ^ 8)

abbrev pub put32 : Bytes → (a v : ℕ) → Bytes
put32 m a v = put16 (put16 m a (v % 2 ^ 16)) (a + 2) (v / 2 ^ 16 % 2 ^ 16)

-- The status, and what is stored to `*value`, if anything is.
unfoldable pub uacpi_kernel_pci_read : Bytes → (device offset byte_width : ℕ) → ℕ × Option ℕ
uacpi_kernel_pci_read m device offset byte_width =
    let a = (device + offset) % 2 ^ 64 in
    if byte_width == 1
    then (status_ok, some (m a))
    else if byte_width == 2
    then (status_ok, some (word16 m a))
    else if byte_width == 4
    then (status_ok, some (word32 m a))
    else (status_internal_error, none)

unfoldable pub uacpi_kernel_pci_write : (device offset byte_width value : ℕ) → Bytes → ℕ × Bytes
uacpi_kernel_pci_write device offset byte_width value m =
    let a = (device + offset) % 2 ^ 64 in
    if byte_width == 1
    then (status_ok, put m a (value % 2 ^ 8))
    else if byte_width == 2
    then (status_ok, put16 m a (value % 2 ^ 16))
    else if byte_width == 4
    then (status_ok, put32 m a (value % 2 ^ 32))
    else (status_internal_error, m)

-- A store to a port: its width in bytes, the port and the value.
pub record PortStore : Type 0 where
  pub width : ℕ
  pub port : ℕ
  pub value : ℕ

-- `input width port` is what a port gives. The handle is not used.
pub uacpi_kernel_io_read :
    (input : (width port : ℕ) → ℕ) → (handle offset byte_width : ℕ) → ℕ × Option ℕ
uacpi_kernel_io_read input handle offset byte_width =
    if byte_width == 1
    then (status_ok, some (input 1 (offset % 2 ^ 16) % 2 ^ 8))
    else if byte_width == 2
    then (status_ok, some (input 2 (offset % 2 ^ 16) % 2 ^ 16))
    else if byte_width == 4
    then (status_ok, some (input 4 (offset % 2 ^ 16) % 2 ^ 32))
    else (status_internal_error, none)

pub uacpi_kernel_io_write : (handle offset byte_width value : ℕ) → ℕ × List PortStore
uacpi_kernel_io_write handle offset byte_width value =
    if byte_width == 1
    then (status_ok, record { width = 1; port = offset % 2 ^ 16; value = value % 2 ^ 8 } ∷ [])
    else if byte_width == 2
    then (status_ok, record { width = 2; port = offset % 2 ^ 16; value = value % 2 ^ 16 } ∷ [])
    else if byte_width == 4
    then (status_ok, record { width = 4; port = offset % 2 ^ 16; value = value % 2 ^ 32 } ∷ [])
    else (status_internal_error, [])

-- `*out_handle` is not stored.
pub uacpi_kernel_io_map : (base len : ℕ) → ℕ × Option ℕ
uacpi_kernel_io_map base len = (status_unimplemented, none)

-- `uacpi_pci_address`
pub record PciAddress : Type 0 where
  pub segment : ℕ
  pub bus : ℕ
  pub device : ℕ
  pub function : ℕ

-- The parameter is assigned and not what it points to: `*out_rsdp_address` is not stored.
pub uacpi_kernel_get_rsdp : (rsdp : ℕ) → ℕ × Option ℕ
uacpi_kernel_get_rsdp rsdp = (status_ok, none)

-- The status is the low half of a 64-bit address, and `*out_handle` is not stored.
abbrev pub device_status : ℕ → FunctionReturn → Vmm → Outcome (ℕ × Option ℕ × Vmm)
device_status function ret v = elim (get_elem? ret.func_addr function) [
  | none ↦ fault
  | some addr ↦ done (addr % 2 ^ 32, none, v)
]

-- The status, what is stored to `*out_handle`, and the page tables behind the call.
unfoldable pub uacpi_kernel_pci_device_open :
    (hhdm kernel_page_map : ℕ) → Bytes → PciAddress → ConfSpace → Vmm → Outcome (ℕ × Option ℕ × Vmm)
uacpi_kernel_pci_device_open hhdm kernel_page_map m address c v =
    if address.segment == 0
    then (check_device hhdm kernel_page_map m address.bus address.device c v >>= λ r.
        device_status address.function r.0 r.1)
    else done (status_unimplemented, none, v)

-- The address that is returned is the physical one, and `len` counts pages.
pub uacpi_kernel_map : (hhdm kernel_page_map addr len : ℕ) → Vmm → Outcome (ℕ × Vmm)
uacpi_kernel_map hhdm kernel_page_map addr len v =
    kernel_map_pages hhdm kernel_page_map addr len pte_bit_rw v >>= λ v'. done (addr, v')

pub uacpi_kernel_unmap : (hhdm kernel_page_map addr len : ℕ) → Vmm → Outcome Vmm
uacpi_kernel_unmap hhdm kernel_page_map addr len v =
    kernel_unmap_pages hhdm kernel_page_map addr len v

unfoldable pub uacpi_kernel_alloc : (size : ℕ) → Heap → Outcome (ℕ × Heap)
uacpi_kernel_alloc size h = kmalloc size h >>= λ r. if r.0 == 0 then killed else done r

unfoldable pub uacpi_kernel_free : (mem : ℕ) → Heap → Outcome Heap
uacpi_kernel_free mem h = if mem == 0 then done h else kfree mem h

-- `UACPI_LOG_ERROR`, `UACPI_LOG_WARN`, `UACPI_LOG_INFO`, and the other levels.
pub data LogLevel : Type 0 where
  log_error : LogLevel
  log_warn : LogLevel
  log_info : LogLevel
  log_other : LogLevel

-- Output before that of the next case.
abbrev pub falls_through : Option (List ℕ) → Option (List ℕ) → Option (List ℕ)
falls_through none rest = none
falls_through (some out) none = none
falls_through (some out) (some rest) = some (out ++ rest)

-- The cases of `uacpi_kernel_log`, none of which ends with `break`.
abbrev pub info_case : (msg : List ℕ) → Option (List ℕ)
info_case msg = kprintf (text "uacpi: info: %s" ++ b'\n' ∷ []) (str msg ∷ [])

abbrev pub warn_case : (msg : List ℕ) → Option (List ℕ)
warn_case msg =
    falls_through (kprintf (text "uacpi: warn: %s" ++ b'\n' ∷ []) (str msg ∷ [])) (info_case msg)

abbrev pub error_case : (msg : List ℕ) → Option (List ℕ)
error_case msg =
    falls_through (kprintf (text "uacpi: error: %s" ++ b'\n' ∷ []) (str msg ∷ [])) (warn_case msg)

unfoldable pub uacpi_kernel_log : LogLevel → (msg : List ℕ) → Option (List ℕ)
uacpi_kernel_log log_error msg = error_case msg
uacpi_kernel_log log_warn msg = warn_case msg
uacpi_kernel_log log_info msg = info_case msg
uacpi_kernel_log log_other msg = some []
