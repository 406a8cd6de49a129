-- ===== src/Start/Tests.antt =====
-- A boot without a memory map, and the devices of a machine with one processor.
use lord.Prelude.{
  ◌≡◌, refl, false, inl, inr, none, some, [], ◌∷◌, bit_or, leb, ◌-◌, replicate, ◌==◌, if◌then◌else◌,
}
use lord.Kernel.{Outcome, done, killed, hangs, fault}
use lord.Str.{Bytes, memcmp, memcmp_loop}
use lord.Acpi.{Tables, find_acpi_table, table_loop, table_entries, table_entry, has_signature}
use lord.Hal.Apic.Tests.{counter, current_count, reset}
use lord.Hal.Idt.{gate}
use lord.Pci.{
  ConfSpace, PciArray, PciStructure, blank_structure, parse_conf_space, conf_loop,
  enumerate_conf_space,
}
use lord.Pmm.Init.{boot}
use lord.Vmm.{Vmm, pte_bit_rw, pte_bit_nx, kernel_map_pages}
use lord.Vmm.Boot.{Symbols}
use lord.Vmm.Tests.{upper, kernel_page_map}
use lord.Vmm.Walk.Tests.{occupied}
use lord.Start.{Responses, Hardware, Globals, start}
use lord.Start.Missing.{NeverReturns, start-IsMissing}
use lord.Start.Overlay.{found_space, blank_array}

-- An XSDT at 0x100 with one entry, the signature "MCFG" at 0x200, and an MCFG table without entries
-- at the physical address 0x1000.
abbrev firmware : Bytes
firmware a =
    if a == 0x104
    then 44
    else (if a == 0x125
        then 0x10
        else (if a == 0x200
            then b'M'
            else (if a == 0x201
                then b'C'
                else (if a == 0x202
                    then b'F'
                    else (if a == 0x203
                        then b'G'
                        else (if a == 0x100_1000
                            then b'M'
                            else (if a == 0x100_1001
                                then b'C'
                                else (if a == 0x100_1002
                                    then b'F'
                                    else (if a == 0x100_1003
                                        then b'G'
                                        else (if a == 0x100_1004 then 44 else 0))))))))))

abbrev tables : Tables
tables = record { xsdt = 0x100; rsdt = 0; madt = 0 }

abbrev symbols : Symbols
symbols = record {
  text_start_addr = 0;
  text_end_addr = 0;
  rodata_start_addr = 0;
  rodata_end_addr = 0;
  data_start_addr = 0;
  data_end_addr = 0;
}

abbrev hardware : Hardware
hardware = record {
  mem = firmware;
  apic = 0x300;
  facp = 0x400;
  mcfg = 0x200;
  isr = λ n. n;
  symbols = symbols;
  serial_reply = 0xae;
  apic_counter = counter;
  current_count = current_count;
  tsc_counter = counter;
  tsc_before = 0;
  tsc = λ k. k;
  cpuid = record { power_edx = 0; crystal_ecx = 0 };
}

abbrev globals : Globals
globals = record {
  gdt = λ i. record {
    limit_low = 0;
    base_low = 0;
    base_middle = 0;
    access = 0;
    granularity = 0;
    base_high = 0;
  };
  interrupts = record {
    idt = λ v. gate 0 0;
    irq_list = λ v. record { base = 0; in_use = false };
    locked = false;
  };
  apic = reset;
  clock = record { core_crystal_clock = 0; tsc_enabled = false };
  pmm = boot (λ a. 0);
  conf_space = record { config_space_base_addr = upper; start_pci_num = 0; end_pci_num = 0 };
  kernel_killed = false;
}

abbrev responses : Responses
responses = record {
  hhdm = some upper;
  framebuffer = some 0xfd00_0000;
  rsdp = some 0x80;
  memmap = none;
  kernel_address = none;
  cpus = some (7 ∷ []);
}

start-IsMissing_example : NeverReturns (start 100 responses hardware globals)
start-IsMissing_example =
    start-IsMissing 100 responses hardware globals (inr (inr (inr (inr (inl refl)))))

-- An MCFG table with one entry, and one device on its only bus.
abbrev with_device : Bytes
with_device a =
    if leb 0x110_0010 a
    then 0xff
    else if leb 0x110_0000 a
    then 1
    else if a == 0x100_1004
    then 60
    else if a == 0x100_102e
    then 0x10
    else if a == 0x100_1037
    then 1
    else firmware a

abbrev device_hardware : Hardware
device_hardware = record hardware { mem = with_device }

-- The page tables behind a call.
abbrev mapped : Outcome Vmm → Vmm
mapped (done v) = v
mapped killed = occupied
mapped hangs = occupied
mapped fault = occupied

abbrev space : ConfSpace
space = found_space upper kernel_page_map responses device_hardware globals tables

space_runs :
    space ≡ record { config_space_base_addr = 0x110_0000; start_pci_num = 0; end_pci_num = 1 }
unfolding parse_conf_space conf_loop find_acpi_table table_loop table_entries table_entry
    has_signature memcmp memcmp_loop
space_runs = refl

abbrev first_page : Outcome Vmm
first_page =
    kernel_map_pages upper kernel_page_map 0x10_0000 1 (bit_or pte_bit_rw pte_bit_nx) occupied

abbrev device : PciStructure
device = record { segment = 1; bus = 0; device = 0; func_addr = 0x110_0000 ∷ replicate 7 0 }

abbrev one_device : PciArray
one_device = record { entries = device ∷ replicate (8192 - 1) blank_structure; locked = false }

abbrev enumerated : Outcome (PciArray × Vmm)
enumerated =
    enumerate_conf_space upper kernel_page_map with_device space blank_array (mapped first_page)

abbrev tables_behind : Outcome (PciArray × Vmm) → Vmm
tables_behind (done r) = r.1
tables_behind killed = occupied
tables_behind hangs = occupied
tables_behind fault = occupied
