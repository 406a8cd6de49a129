-- ===== src/HostApi/Device.antt =====
-- What `uacpi_kernel_pci_device_open` returns.
use lord.Prelude.{
  ℕ, ◌%◌, ◌^◌, ◌<◌, ◌≡◌, refl, true, false, none, some, arith, bit_and, ◌==◌, if◌then◌else◌,
  get_elem?, set, replicate, ap, Bool, zero, suc, inl, inr, Bool-cases,
}
use lord.Kernel.{done}
use lord.Str.{Bytes}
use lord.Pci.{
  ConfSpace, vendor_id, header_type, get_header, map_function, no_functions, check_device,
}
use lord.HostApi.{PciAddress, status_ok, uacpi_kernel_pci_device_open}
use lord.Vmm.{Vmm}

replicate_elem : (n i : ℕ) → i < n → get_elem? {A = ℕ} (replicate n 0) i ≡ some 0
replicate_elem zero i h = elim h [ ]
replicate_elem (suc n) zero h = refl
replicate_elem (suc n) (suc i) h = replicate_elem n i (omega arith)

half : (b : Bool) (h : ℕ) → (if b then h else 0) % 2 ^ 32 ≡ (if b then h % 2 ^ 32 else status_ok)
half true h = refl
half false h = refl

blank_elem : (f : ℕ) → f < 8 → get_elem? no_functions f ≡ some 0
blank_elem f h = replicate_elem 8 f h

header_elem :
    (h f : ℕ) → f < 8 → get_elem? (set no_functions 0 h) f ≡ some (if f == 0 then h else 0)
header_elem h zero lt = refl
header_elem h (suc f) lt =
    let other : (suc f == 0) ≡ false = ground arith in rw other (replicate_elem 7 f (omega arith))

module _ (hhdm kernel_page_map : ℕ) (m : Bytes) (address : PciAddress) (c : ConfSpace)
    (v v' : Vmm) where
  abbrev header : ℕ
  header = get_header address.bus address.device 0 c

  -- On segment 0, for a function below 8, where the header of the device can be mapped and the device
  -- is not multifunction, `uacpi_kernel_pci_device_open` stores no handle: if there is no device, it
  -- returns OK; if there is one, it returns the low half of the header's address as the status for the
  -- function 0, and OK for the functions 1 to 7.
  pub uacpi_kernel_pci_device_open_lem :
      address.segment ≡ 0
      → address.function < 8
      → map_function hhdm kernel_page_map m header v ≡ done v'
      → bit_and (header_type m header) 0x80 ≡ 0
      → uacpi_kernel_pci_device_open hhdm kernel_page_map m address c v
        ≡ done (
          (if vendor_id m header == 0xffff
              then status_ok
              else if address.function == 0
              then header % 2 ^ 32
              else status_ok),
          none,
          v',
        )
  unfolding uacpi_kernel_pci_device_open check_device
  uacpi_kernel_pci_device_open_lem segment function mapped single =
      elim (Bool-cases (vendor_id m header == 0xffff)) [
        | inl none_there ↦
            rw (segment, mapped, none_there, blank_elem address.function function) refl
        | inr there ↦
            rw (segment, mapped, there, single, header_elem header address.function function)
              (ap (λ s. done (s, none, v')) (half (address.function == 0) header))
      ]
