-- ===== src/Pci.antt =====
-- src/sys/pci.c: the functions of the PCI devices, and the array of devices.
pub mod Address
pub mod Array
pub mod Layout
pub mod Start
mod Tests
use lord.Prelude.{
  ℕ, zero, suc, ◌+◌, ◌-◌, ◌*◌, ◌/◌, ◌%◌, ◌^◌, Bool, true, false, ◌&&◌, Option, none, some, List, [],
  ◌∷◌, bit_and, bit_or, ◌==◌, ltb, leb, if◌then◌else◌, get_or, get_elem?, set, replicate,
}
use lord.Bits.{shl}
use lord.Kernel.{Outcome, done, killed, hangs, fault, ◌>>=◌}
use lord.Str.{Bytes}
use lord.Acpi.{word16, word32, word64, header_length, body_length}
use lord.Vmm.{pte_bit_nx, Vmm, vmm_map_page, pte_bit_present, pte_bit_rw}

abbrev pub pci_function_max : ℕ
pci_function_max = 8

abbrev pub pci_device_bus : ℕ
pci_device_bus = 8192

-- `l84_pci_function_return`
pub record FunctionReturn : Type 0 where
  pub multi : Bool
  pub func_addr : List ℕ

-- `pci_structure`
pub record PciStructure : Type 0 where
  pub segment : ℕ
  pub bus : ℕ
  pub device : ℕ
  pub func_addr : List ℕ

abbrev pub no_functions : List ℕ
no_functions = replicate pci_function_max 0

abbrev pub func0 : List ℕ → ℕ
func0 addrs = get_or addrs 0 0

-- The array `pci_array`, and its lock.
pub record PciArray : Type 0 where
  pub entries : List PciStructure
  pub locked : Bool

-- The `while` loop of `pci_add_device`: the first entry without a function. A read behind the array
-- is a fault.
pub unused_loop : (i : ℕ) → List PciStructure → Outcome ℕ
unused_loop i [] = fault
unused_loop i (e ∷ es) =
    let rest = unused_loop (i + 1) es in
    if func0 e.func_addr == 0 then done i else if leb pci_device_bus i then killed else rest

-- The `for` loop of `pci_add_device`: the functions that are there replace those of the entry.
pub merge_functions : (new old : List ℕ) → List ℕ
merge_functions [] old = old
merge_functions (n ∷ new) [] = []
merge_functions (n ∷ new) (o ∷ old) = (if n == 0 then o else n) ∷ merge_functions new old

abbrev pub blank_structure : PciStructure
blank_structure = record { segment = 0; bus = 0; device = 0; func_addr = no_functions }

pub pci_add_device : PciStructure → PciArray → Outcome PciArray
unfolding unused_loop merge_functions
pci_add_device structure a =
    if a.locked
    then hangs
    else unused_loop 0 a.entries >>= λ i. done (record {
      entries = set a.entries i (record structure {
        func_addr =
            merge_functions structure.func_addr (get_or a.entries i blank_structure).func_addr;
      });
      locked = false;
    })

-- Whether `pci_get_device` takes an entry for the structure.
abbrev pub same_device : PciStructure → PciStructure → Bool
same_device s e = s.segment == e.segment && s.bus == e.bus && s.device == e.device

pub device_loop : (i : ℕ) → PciStructure → List PciStructure → Option ℕ
device_loop i structure [] = none
device_loop i structure (e ∷ es) =
    let rest = device_loop (i + 1) structure es in if same_device structure e then some i else rest

-- The index of the entry that it points to, `none` for `NULL`. The lock is freed only where no entry
-- is found.
pub pci_get_device : PciStructure → PciArray → Outcome (Option ℕ × PciArray)
unfolding device_loop
pci_get_device structure a = if a.locked then hangs else elim (device_loop 0 structure a.entries) [
  | some i ↦ done (some i, record a { locked = true })
  | none ↦ done (none, record a { locked = false })
]

-- `config_space_base_addr`, `start_pci_num` and `end_pci_num`.
pub record ConfSpace : Type 0 where
  pub config_space_base_addr : ℕ
  pub start_pci_num : ℕ
  pub end_pci_num : ℕ

-- The loop of `parse_conf_space`: every structure overwrites the globals.
unfoldable pub conf_loop : (left i mcfg hhdm : ℕ) → Bytes → ConfSpace → ConfSpace
conf_loop zero i mcfg hhdm m c = c
conf_loop (suc left) i mcfg hhdm m c =
    let header = mcfg + 44 + 16 * i in
    conf_loop left (i + 1) mcfg hhdm m (record {
      config_space_base_addr = (word64 m header + hhdm) % 2 ^ 64;
      start_pci_num = m (header + 10);
      end_pci_num = m (header + 11);
    })

unfoldable pub parse_conf_space : (mcfg hhdm : ℕ) → Bytes → ConfSpace → ConfSpace
unfolding conf_loop
parse_conf_space mcfg hhdm m c = conf_loop (body_length m mcfg / 16) 0 mcfg hhdm m c

unfoldable pub get_header : (bus device function : ℕ) → ConfSpace → ℕ
get_header bus device function c =
    (c.config_space_base_addr + (bus * 256 + device * 8 + function) * 4096) % 2 ^ 64

-- The address of a function in the loop of `check_device`.
pub function_address : (bus device function : ℕ) → ConfSpace → ℕ
function_address bus device function c =
    (c.config_space_base_addr + bit_or (bit_or (shl bus 20) (shl device 15)) (shl function 12))
    % 2 ^ 64

-- The fields of `pci_header_t`, in the memory of the devices.
abbrev pub vendor_id : Bytes → ℕ → ℕ
vendor_id m header = word16 m header

abbrev pub subclass : Bytes → ℕ → ℕ
subclass m header = m (header + 10)

abbrev pub class_code : Bytes → ℕ → ℕ
class_code m header = m (header + 11)

abbrev pub header_type : Bytes → ℕ → ℕ
header_type m header = m (header + 14)

-- The kernel's page tables, the offset of the direct map, and the memory of the devices.
module _ (hhdm kernel_page_map : ℕ) (m : Bytes) where
  -- Maps the page of a function, whose address is virtual.
  unfoldable pub map_function : (addr : ℕ) → Vmm → Outcome Vmm
  map_function addr v =
      vmm_map_page hhdm kernel_page_map addr ((addr + 2 ^ 64 - hhdm) % 2 ^ 64)
        (bit_or (bit_or pte_bit_present pte_bit_rw) pte_bit_nx) v

  pub function_loop :
      (left function bus device : ℕ) → ConfSpace → List ℕ → Vmm → Outcome (List ℕ × Vmm)
  unfolding map_function function_address
  function_loop zero function bus device c addrs v = done (addrs, v)
  function_loop (suc left) function bus device c addrs v =
      let func = function_address bus device function c in
      map_function func v
      >>= function_loop left (function + 1) bus device c
          (if vendor_id m func == 0xffff then addrs else set addrs function func)

  -- `ret.multi` is reset to false behind the loop.
  unfoldable pub check_device : (bus device : ℕ) → ConfSpace → Vmm → Outcome (FunctionReturn × Vmm)
  unfolding function_loop get_header
  check_device bus device c v =
      let header = get_header bus device 0 c in
      map_function header v >>= λ v.
      if vendor_id m header == 0xffff
      then done (record { multi = false; func_addr = no_functions }, v)
      else ((if bit_and (header_type m header) 0x80 == 0
            then done (no_functions, v)
            else function_loop pci_function_max 0 bus device c no_functions v)
          >>= λ r. done (record { multi = false; func_addr = set r.0 0 header }, r.1))

  -- The loop of `enumerate_conf_space` over the devices of a bus, and that over the buses.
  unfoldable pub enumerate_devices :
      (left j bus : ℕ) → ConfSpace → PciArray → Vmm → Outcome (PciArray × Vmm)
  unfolding check_device pci_add_device
  enumerate_devices zero j bus c a v = done (a, v)
  enumerate_devices (suc left) j bus c a v = check_device bus j c v >>= λ r.
      ((if func0 r.0.func_addr == 0
          then done a
          else pci_add_device
              (record {
                segment = 1;
                bus = bus % 2 ^ 8;
                device = j % 2 ^ 8;
                func_addr = r.0.func_addr;
              })
              a)
        >>= λ a. enumerate_devices left (j + 1) bus c a r.1)

  unfoldable pub enumerate_buses :
      (left i : ℕ) → ConfSpace → PciArray → Vmm → Outcome (PciArray × Vmm)
  unfolding enumerate_devices
  enumerate_buses zero i c a v = done (a, v)
  enumerate_buses (suc left) i c a v =
      enumerate_devices 32 0 i c a v >>= λ r. enumerate_buses left (i + 1) c r.0 r.1

  unfoldable pub enumerate_conf_space : ConfSpace → PciArray → Vmm → Outcome (PciArray × Vmm)
  unfolding enumerate_buses
  enumerate_conf_space c a v = enumerate_buses c.end_pci_num 0 c a v

  -- Whether `pci_find_device` returns a device; `none` stands for the subclass -1.
  unfoldable pub wanted : (class : ℕ) → (sub : Option ℕ) → (addrs : List ℕ) → Bool
  wanted class none addrs = if func0 addrs == 0 then false else class_code m (func0 addrs) == class
  wanted class (some s) addrs =
      if func0 addrs == 0
      then false
      else class_code m (func0 addrs) == class && s == subclass m (func0 addrs)

  unfoldable pub find_on_bus :
      (left j bus class : ℕ) → Option ℕ → ConfSpace → Vmm → Outcome (ℕ × Vmm)
  unfolding check_device wanted
  find_on_bus zero j bus class sub c v = done (0, v)
  find_on_bus (suc left) j bus class sub c v = check_device bus j c v >>= λ r.
      if wanted class sub r.0.func_addr
      then done (func0 r.0.func_addr, r.1)
      else find_on_bus left (j + 1) bus class sub c r.1

  unfoldable pub find_on_buses : (left i class : ℕ) → Option ℕ → ConfSpace → Vmm → Outcome (ℕ × Vmm)
  unfolding find_on_bus
  find_on_buses zero i class sub c v = done (0, v)
  find_on_buses (suc left) i class sub c v = find_on_bus 32 0 i class sub c v >>= λ r.
      if r.0 == 0 then find_on_buses left (i + 1) class sub c r.1 else done r

  -- The address of the header, 0 for `NULL`.
  unfoldable pub pci_find_device : (class : ℕ) → Option ℕ → ConfSpace → Vmm → Outcome (ℕ × Vmm)
  unfolding find_on_buses
  pci_find_device class sub c v = find_on_buses c.end_pci_num 0 class sub c v
