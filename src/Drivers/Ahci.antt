-- ===== src/Drivers/Ahci.antt =====
-- src/drivers/ahci.c: the start of the AHCI controller, which src/main.c leaves out.
mod Tests
use Prim.Native.Nat.{max}
use lord.Prelude.{
  ℕ, zero, suc, ◌+◌, ◌*◌, ◌/◌, ◌%◌, ◌^◌, ◌<◌, ◌≡◌, ◌≢◌, refl, Bool, false, not, ◌&&◌, some, [], ◌∷◌,
  ◌++◌, arith, bit_and, bit_or, ◌==◌, if◌then◌else◌,
}
use lord.Bits.{or_digit, and_mask}
use lord.Kernel.{Outcome, done, killed, hangs, ◌>>=◌}
use lord.Str.{Bytes}
use lord.Acpi.{word16, word32}
use lord.Hal.Apic.{apic_sleep}
use lord.Hal.Ioapic.{Stores}
use lord.HostApi.{put16}
use lord.Pci.{ConfSpace, pci_find_device}
use lord.Vmm.{Vmm, pte_bit_rw, pte_bit_nx, kernel_map_pages}

abbrev pub ahci_mse : ℕ
ahci_mse = 0x02

abbrev pub ahci_bme : ℕ
ahci_bme = 0x03

abbrev pub ahci_int_enabled : ℕ
ahci_int_enabled = 0x400

abbrev pub ahci_class_id : ℕ
ahci_class_id = 0x01

abbrev pub ahci_subclass_id : ℕ
ahci_subclass_id = 0x06

abbrev pub ahci_ghc_reg : ℕ
ahci_ghc_reg = 0x04

abbrev pub ahci_bohc_reg : ℕ
ahci_bohc_reg = 0x28

abbrev pub pte_bit_uncachable : ℕ
pte_bit_uncachable = 0x10

-- The fields of `pci_header_0_t`, in the memory of the devices.
abbrev pub command : Bytes → ℕ → ℕ
command m header = word16 m (header + 4)

abbrev pub bar5 : Bytes → ℕ → ℕ
bar5 m header = word32 m (header + 36)

-- `ahci_base_address`, the stores to the registers in their order, the number of reads of BOHC, the
-- memory of the devices, and the page tables.
pub record Ahci : Type 0 where
  pub ahci_base_address : ℕ
  pub stores : Stores
  pub reads : ℕ
  pub devices : Bytes
  pub vmm : Vmm

abbrev pub ahci_write_reg : (ahci_base_address reg word : ℕ) → Stores
ahci_write_reg ahci_base_address reg word = ((ahci_base_address + reg) % 2 ^ 64, word % 2 ^ 32) ∷ []

-- `(bohc & 0b01) != 1 && (bohc & 0b1) != 0`
pub is_waiting : (bohc : ℕ) → Bool
is_waiting bohc = not (bit_and bohc 1 == 1) && not (bit_and bohc 1 == 0)

-- The condition of the wait is never true: a bit is 0 or 1.
never_waits : (b : ℕ) → is_waiting b ≡ false
unfolding is_waiting
never_waits b = ground (arith, and_mask 1 b)

low_bits :
    (c : ℕ)
    → (bit_or c 0x403 % 2 ≡ 1) × (bit_or c 0x403 / 2 % 2 ≡ 1) × (bit_or c 0x403 / 4 % 2 ≡ c / 4 % 2)
low_bits c =
    let d0 : bit_or c 0x403 ≡ bit_or (c / 2) 0x201 * 2 + max (c % 2) 1 = or_digit c 0x403 in
    let d1 : bit_or (c / 2) 0x201 ≡ bit_or (c / 2 / 2) 0x100 * 2 + max (c / 2 % 2) 1 =
      or_digit (c / 2) 0x201 in
    let d2 : bit_or (c / 2 / 2) 0x100 ≡ bit_or (c / 2 / 2 / 2) 0x80 * 2 + max (c / 2 / 2 % 2) 0 =
      or_digit (c / 2 / 2) 0x100 in
    (omega (arith, d0), omega (arith, d0, d1), omega (arith, d0, d1, d2))

put16_lem : (m : Bytes) (a v : ℕ) → v < 2 ^ 16 → word16 (put16 m a v) a ≡ v
put16_lem m a v h = ground arith

-- `bohc k` is what the `k`-th read of that register gives, and `ticks k` are the ticks that the sleep
-- behind it reads.
module _ (bohc : ℕ → ℕ) (ticks : (k : ℕ) → ℕ → ℕ) where
  -- The loop that waits for the handoff, with the number of the last read. `hangs` is the end of the
  -- fuel.
  pub handoff_loop : (fuel k : ℕ) → Outcome ℕ
  unfolding is_waiting
  handoff_loop zero k = hangs
  handoff_loop (suc fuel) k =
      let rest = apic_sleep (ticks k) fuel 200 >>= λ last. handoff_loop fuel (suc k) in
      if is_waiting (bohc k % 2 ^ 32) then rest else done k

  module _ (hhdm kernel_page_map : ℕ) where
    pub ahci_init : (fuel : ℕ) → Bytes → ConfSpace → Vmm → Outcome Ahci
    unfolding handoff_loop
    ahci_init fuel m c v =
        pci_find_device hhdm kernel_page_map m ahci_class_id (some ahci_subclass_id) c v >>= λ r.
        let header = r.0 in
        let base = bit_and (bar5 m header) 0xffff_f000 in
        let mapped_base = (base + hhdm) % 2 ^ 64 in
        if header == 0
        then killed
        else (kernel_map_pages hhdm kernel_page_map base 1
              (bit_or (bit_or pte_bit_rw pte_bit_nx) pte_bit_uncachable) r.1
            >>= λ v'.
                (handoff_loop fuel 1 >>= λ last. done (record {
                  ahci_base_address = mapped_base;
                  stores =
                      (ahci_write_reg mapped_base ahci_bohc_reg (bit_or (bohc 0 % 2 ^ 32) 0x2))
                      ++ ahci_write_reg mapped_base ahci_ghc_reg 1;
                  reads = last + 1;
                  devices = put16 m (header + 4) (
                      bit_or (command m header) (bit_or (bit_or ahci_mse ahci_bme) ahci_int_enabled)
                      % 2 ^ 16);
                  vmm = v';
                })))

  -- Where a controller is found and its registers can be mapped, `ahci_init` returns whatever the
  -- firmware does: it reads the ownership bit once behind its request and does not wait for it, then
  -- resets the controller. In the command register it sets the bits for I/O and memory space, and
  -- leaves the bus-master bit as it is.
  pub ahci_init-no_wait :
      (hhdm kernel_page_map fuel header : ℕ) (m : Bytes) (c : ConfSpace) (v v1 v2 : Vmm)
      → pci_find_device hhdm kernel_page_map m ahci_class_id (some ahci_subclass_id) c v
        ≡ done (header, v1)
      → header ≢ 0
      → kernel_map_pages hhdm kernel_page_map
          (bit_and (bar5 m header) 0xffff_f000)
          1
          (bit_or (bit_or pte_bit_rw pte_bit_nx) pte_bit_uncachable)
          v1
        ≡ done v2
      → (a : Ahci) × (ahci_init hhdm kernel_page_map (suc fuel) m c v ≡ done a)
        × (a.ahci_base_address ≡ (bit_and (bar5 m header) 0xffff_f000 + hhdm) % 2 ^ 64)
        × (a.stores
            ≡ ahci_write_reg a.ahci_base_address ahci_bohc_reg (bit_or (bohc 0 % 2 ^ 32) 2)
              ++ ahci_write_reg a.ahci_base_address ahci_ghc_reg 1)
        × (a.reads ≡ 2)
        × (command a.devices header % 4 ≡ 3)
        × (command a.devices header / 4 % 2 ≡ command m header / 4 % 2)
        × (a.vmm ≡ v2)
  unfolding ahci_init handoff_loop
  ahci_init-no_wait hhdm kernel_page_map fuel header m c v v1 v2 finds some_header maps =
      let given : (header == 0) ≡ false = ground (arith, some_header) in
      let stored =
        put16_lem m (header + 4) (bit_or (command m header) 0x403 % 2 ^ 16) (omega arith) in
      let (bit0, bit1, bit2) = low_bits (command m header) in
      (
        record {
          ahci_base_address = (bit_and (bar5 m header) 0xffff_f000 + hhdm) % 2 ^ 64;
          stores =
              ahci_write_reg ((bit_and (bar5 m header) 0xffff_f000 + hhdm) % 2 ^ 64) ahci_bohc_reg
                (bit_or (bohc 0 % 2 ^ 32) 2)
              ++ ahci_write_reg ((bit_and (bar5 m header) 0xffff_f000 + hhdm) % 2 ^ 64) ahci_ghc_reg
                  1;
          reads = 2;
          devices = put16 m (header + 4) (bit_or (command m header) 0x403 % 2 ^ 16);
          vmm = v2;
        },
        rw (finds, given, maps, never_waits (bohc 1 % 2 ^ 32)) refl,
        refl,
        refl,
        refl,
        omega (arith, stored, bit0, bit1),
        omega (arith, stored, bit2),
        refl,
      )
