-- ===== src/Start.antt =====
-- src/main.c: `_start`, which starts the parts of the kernel one after the other.
pub mod Missing
pub mod Overlay
mod Tests
use lord.Prelude.{
  ℕ, ◌+◌, ◌*◌, Bool, false, Option, none, some, List, [], bit_or, ◌==◌, if◌then◌else◌,
}
use lord.Kernel.{Outcome, done, killed, hangs, ◌>>=◌}
use lord.Str.{Bytes}
use lord.Acpi.{Tables, acpi_init}
use lord.Drivers.Pmt.{Counter}
use lord.Drivers.Serial.{serial_init}
use lord.Hal.Apic.{Apic, apic_init}
use lord.Hal.Gdt.{Gdt, set_gdt}
use lord.Hal.Idt.{Interrupts, set_idt}
use lord.Hal.Smp.{Cpu, smp_init}
use lord.Hal.Tsc.{Clock, Cpuid, tsc_init}
use lord.Kmalloc.{Heap, kernel_max_block, kernel_heap_size, kernel_heap_init}
use lord.Pci.{ConfSpace}
use lord.Pci.Start.{Started, pci_init}
use lord.Pmm.{Entry, Pmm, pmm_init}
use lord.Vmm.{Vmm, pte_bit_rw, pte_bit_nx, kernel_allocate_memory}
use lord.Vmm.Boot.{KernelAddress, Symbols, Space, vmm_init}

-- `sizeof(block_t)`
abbrev pub block_t_size : ℕ
block_t_size = 16

-- The responses of the bootloader, `none` for a null pointer. `framebuffer` is the address of the
-- first framebuffer, and `cpus` has the local APIC numbers.
pub record Responses : Type 0 where
  pub hhdm : Option ℕ
  pub framebuffer : Option ℕ
  pub rsdp : Option ℕ
  pub memmap : Option (List Entry)
  pub kernel_address : Option KernelAddress
  pub cpus : Option (List ℕ)

-- What the machine shows: the bytes of memory, with the signatures at the addresses `apic`, `facp`
-- and `mcfg`, the addresses of the interrupt stubs and of the linker's symbols, and the values of the
-- timers during each of the two delays.
pub record Hardware : Type 0 where
  pub mem : Bytes
  pub apic : ℕ
  pub facp : ℕ
  pub mcfg : ℕ
  pub isr : ℕ → ℕ
  pub symbols : Symbols
  pub serial_reply : ℕ
  pub apic_counter : Counter
  pub current_count : ℕ → ℕ
  pub tsc_counter : Counter
  pub tsc_before : ℕ
  pub tsc : ℕ → ℕ
  pub cpuid : Cpuid

-- The globals before the start.
pub record Globals : Type 0 where
  pub gdt : Gdt
  pub interrupts : Interrupts
  pub apic : Apic
  pub clock : Clock
  pub pmm : Pmm
  pub conf_space : ConfSpace
  pub kernel_killed : Bool

-- The state in which `scheduler_init` is called.
pub record Booted : Type 0 where
  pub serial_enabled : Bool
  pub gdt : Gdt
  pub interrupts : Interrupts
  pub tables : Tables
  pub apic : Apic
  pub clock : Clock
  pub space : Space
  pub cpu : Cpu
  pub pci : Started

abbrev pub entries : Option (List Entry) → List Entry
entries none = []
entries (some es) = es

-- `kernel_heap_init` with its two calls of `kernel_allocate_memory`.
pub heap_start : (hhdm kernel_page_map : ℕ) → Bytes → Vmm → Outcome (Heap × Vmm)
heap_start hhdm kernel_page_map m v =
    kernel_allocate_memory hhdm kernel_page_map (kernel_max_block * block_t_size)
      (bit_or pte_bit_rw pte_bit_nx) v
    >>= λ base.
        if base.0 == 0
        then killed
        else (kernel_allocate_memory hhdm kernel_page_map kernel_heap_size
              (bit_or pte_bit_rw pte_bit_nx) base.1
            >>= λ heap_addr. (kernel_heap_init base.0 heap_addr.0 m >>= λ h. done (h, heap_addr.1)))

-- `smp_init` and then `pci_init`.
pub start_devices :
    (hhdm kernel_page_map : ℕ)
    → Responses
    → Hardware
    → Globals
    → Tables
    → Heap
    → Vmm
    → Outcome (Cpu × Started)
start_devices hhdm kernel_page_map b w g tables h v = smp_init b.cpus g.kernel_killed h >>= λ cpu.
    (pci_init hhdm kernel_page_map w.mcfg w.mem tables g.conf_space cpu.1 v >>= λ pci.
    done (cpu.0, pci))

-- The calls of `_start` behind the framebuffer, up to that of `scheduler_init`.
pub start_parts : (hhdm fuel : ℕ) → Responses → Hardware → Globals → Outcome Booted
unfolding heap_start start_devices
start_parts hhdm fuel b w g = acpi_init hhdm w.apic w.mem b.rsdp >>= λ tables.
    (apic_init w.apic_counter w.mem w.current_count hhdm w.facp tables fuel g.apic >>= λ apic.
    (tsc_init w.tsc_counter w.mem apic.1.timer w.tsc_before w.tsc fuel w.cpuid g.clock >>= λ clock.
    (pmm_init hhdm b.memmap g.pmm >>= λ pmm.
    (vmm_init hhdm w.mem
        (record {
          memmap = entries b.memmap;
          kernel_address = b.kernel_address;
          symbols = w.symbols;
          lapic_address = apic.1.lapic_address;
          tables = tables;
        })
        (record { pmm = pmm; locked = false })
      >>= λ space.
          (heap_start hhdm space.kernel_page_map w.mem space.vmm >>= λ heap.
          (start_devices hhdm space.kernel_page_map b w g tables heap.0 heap.1 >>= λ devices.
          done (record {
            serial_enabled = (serial_init w.serial_reply).1;
            gdt = set_gdt g.gdt;
            interrupts = set_idt w.isr g.interrupts;
            tables = tables;
            apic = apic.1;
            clock = clock.1;
            space = space;
            cpu = devices.0;
            pci = devices.1;
          })))))))

-- `goto death` is an endless loop.
pub start : (fuel : ℕ) → Responses → Hardware → Globals → Outcome Booted
unfolding start_parts
start fuel b w g = elim b.hhdm [
  | none ↦ hangs
  | some hhdm ↦ elim b.framebuffer [
    | none ↦ hangs
    | some fb ↦ if fb == 0 then hangs else start_parts hhdm fuel b w g
  ]
]
