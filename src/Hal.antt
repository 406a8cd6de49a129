-- ===== src/Hal.antt =====
-- src/hal: descriptor tables, interrupt controllers, timers, and the structures of the processors.
pub mod Apic
pub mod Gdt
pub mod Idt
pub mod Ioapic
pub mod Smp
pub mod Tsc
