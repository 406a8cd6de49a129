-- ===== src/Lib.antt =====
-- lord84, a kernel for x86-64. This library models its memory management up to the address space that
-- it boots into, the routines below that, the tables of the processor and of the firmware, the timers,
-- the serial port, PCI, and what the kernel offers to uACPI.
-- Paths are those of the repository.
--
-- Kernel: how a call ends (a result, `kkill` of src/main.c, an endless loop, an access outside an
-- array). Prelude and Bits hold shared names and lemmas.
-- Str: src/lib/string.c on a memory of bytes, a function from addresses.
-- Stdio: src/lib/stdio.c, as functions to the bytes that it prints; Stdio/Format has the loop of
-- `kprintf` and `serial_kprintf`, `klog` and `toupper`.
-- Pmm: src/mm/pmm.c, with src/lib/spinlock.c. The free list runs through the pages, in a memory of
-- 64-bit words; the globals are the record `Pmm`. The lock is a flag: on one processor, taking a held
-- lock never ends. Pmm/Smp has the two calls on any number of processors, in steps of one shared access
-- each, in any order; the steps are sequentially consistent.
-- Kmalloc: src/mm/kmalloc.c. The block table is a list of 512 records, beside the bytes of the heap. A
-- `memset` past the end of the heap is an access outside an array.
-- Vmm: src/mm/vmm.c. The page tables are words of the same memory, and come from Pmm. Kernel memory
-- is allocated page by page with `pmm_alloc` and `vmm_map_page`. Vmm/Translate is the walk of the
-- processor through the tables, and Vmm/Space the partial map from pages to entries that it computes:
-- each operation is an update of that map, by one page (Vmm/Walk, Vmm/Unmap) or by a range (Vmm/Ranges,
-- Vmm/Allocate). Vmm/Tables has the invariant: each table stands on one level and for one range of
-- addresses. Vmm/Boot is `vmm_init`, on the memory map, the linker's symbols and the addresses that
-- the bootloader gives.
--
-- Hal: src/hal/gdt.c, src/hal/idt.c with its list of vectors, its lock and the exception report, and
-- src/hal/ioapic.c, src/hal/apic.c and src/hal/timer.c as lists of register stores. The timer of the
-- local APIC is calibrated with the delay of Drivers/Pmt, and so is the clock of Hal/Tsc: src/hal/tsc.c
-- and src/sys/time.c. Hal/Smp is src/hal/smp.c, up to the endless loop of `ap_init`.
-- Drivers: src/drivers/pmt.c on the values that its counter shows at successive reads,
-- src/drivers/serial.c as the port accesses in their order, and src/drivers/ahci.c, which the kernel
-- does not call, as its stores and the values that its register shows.
-- Io: the model-specific registers of src/lib/io.c.
-- Elf: src/elf/elf.c. HostApi: src/uacpi_kernel_api.c, on Kmalloc, Vmm, Pci and Stdio.
-- Sched: src/scheduler/sched.c on the structure of one processor, whose processes are bytes at their
-- offsets in it, with the heap of Kmalloc, where both that structure and the stacks lie. A call of
-- `scheduler_init` is followed up to its first `switch_context`. Sched/Switch runs that routine, from
-- src/scheduler/sched.asm, instruction by instruction on the registers and the bytes of memory; what an
-- instruction does is that of the processor.
-- Acpi: src/sys/acpi.c, on the bytes of the firmware's tables.
-- Pci: src/sys/pci.c. The registers of the devices are a memory of bytes; each device is mapped with
-- `vmm_map_page` before it is read.
-- Start: `_start` of src/main.c, as the chain of these parts up to the call of `scheduler_init`, on the
-- responses of the bootloader and what the hardware shows.
-- While the devices are enumerated, the array of PCI devices is a list of structures; it is then stored
-- to the bytes of the heap, as Pci/Layout has it.
--
-- Addresses and sizes are natural numbers; where the code wraps, `% 2 ^ 64` (or 32, 8) is written
-- out. `hhdm` is `hhdmoffset`, the distance between physical and virtual addresses.
-- The loops of src/lib/stdio.c run on the fuel 128, the length of their buffers, which bounds them in
-- the source too. The search of `kmalloc` runs on the fuel 514, past the limit 512 of its own test.
-- `strlen` takes the number of its rounds. The walk over the structures of the MADT has one round of
-- fuel more than the bytes it may cross, so it runs out only where a structure of length 0 keeps it in
-- place: that is the outcome `hangs`. The loops of Drivers and Hal/Apic that wait for the hardware take
-- any fuel, and `hangs` is its end.
--
-- Log output on the way, cache and CR3 reloads, the interrupt flag,
-- the port instructions of src/lib/io.c, and the code of other projects (uACPI, Limine, flanterm) are not
-- modelled.
pub mod Acpi
pub mod Bits
pub mod Drivers
pub mod Elf
pub mod Hal
pub mod HostApi
pub mod Io
pub mod Kernel
pub mod Kmalloc
pub mod Pci
pub mod Pmm
pub mod Prelude
pub mod Sched
pub mod Start
pub mod Stdio
pub mod Str
pub mod Vmm
