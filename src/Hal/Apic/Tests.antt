-- ===== src/Hal/Apic/Tests.antt =====
-- The start of the local APIC on small tables, and instances of the theorems.
use lord.Prelude.{
  ℕ, ◌+◌, ◌-◌, ◌*◌, ◌/◌, ◌%◌, ◌^◌, ◌≤◌, ◌<◌, ◌≡◌, refl, true, false, [], ◌∷◌, arith, ◌==◌,
  if◌then◌else◌,
}
use lord.Kernel.{done}
use lord.Str.{Bytes, memcmp, memcmp_loop}
use lord.Acpi.{
  Tables, find_ics, ics_loop, find_acpi_table, table_loop, table_entries, table_entry,
  has_signature,
}
use lord.Hal.Ioapic.{ioapic_init}
use lord.Drivers.Pmt.{pmt_init, Counter, pmt_read, ticks_since, delay_loop, pmt_delay}
use lord.Hal.Apic.{
  timer_init, lapic_base, Apic, lapic_timer_init, apic_init, apic_sleep, apic_timer_handler,
}
use lord.Hal.Apic.Period.{lapic_timer_init_period}
use lord.Hal.Apic.Sleep.{apic_sleep_elapsed}

-- An XSDT at 0x3000 with a FADT at 0x5000, and a MADT at 0x1000 with an I/O APIC.
abbrev pub table_bytes : Bytes
table_bytes a =
    if a == 0x3004
    then 44
    else if a == 0x3025
    then 0x50
    else if a == 0x504d
    then 6
    else if a == 0x505b
    then 4
    else if a == 0x1004
    then 56
    else if a == 0x1026
    then 0xe0
    else if a == 0x1027
    then 0xfe
    else if a == 0x102c
    then 1
    else if a == 0x102d
    then 12
    else if a == 0x1032
    then 0xc0
    else if a == 0x1033
    then 0xfe
    else 0

abbrev tables : Tables
tables = record { xsdt = 0x3000; rsdt = 0; madt = 0x1000 }

abbrev pub time : ℕ → ℕ
time k = 0xff_0000 + 10000 * k

abbrev pub counter : Counter
counter = record { port = λ port k. time k % 2 ^ 24; memory = λ address k. 0 }

-- The local APIC makes 7 steps for each tick.
abbrev pub current_count : ℕ → ℕ
current_count k = 0xffff_ffff - 7 * (time k - time 0)

abbrev pub reset : Apic
reset = record {
  lapic_address = 0xfee0_0000;
  ioapic_address = 0;
  timer_locked = false;
  timer = record { fadt = 0; use_ext = false };
  calibrated = false;
}

shows : (k : ℕ) → pmt_read counter table_bytes reset.timer k % 2 ^ 24 ≡ time k % 2 ^ 24
unfolding pmt_read
shows k = omega arith

lapic_timer_init_period_example :
    (last : ℕ) × (steps : ℕ) × (time 0 + 35795 ≤ time last)
    × (time last < time 0 + 35795 + 10000)
    × (current_count last + steps ≡ 0xffff_ffff)
    × (lapic_timer_init counter table_bytes current_count 35796 10000 reset
        ≡ done (
          (0xfee0_0380, 0)
              ∷ (0xfee0_03e0, 3)
              ∷ (0xfee0_0380, 0xffff_ffff)
              ∷ (0xfee0_0320, 0x1_0000)
              ∷ (0xfee0_0320, 0x2_0045)
              ∷ (0xfee0_0380, steps)
              ∷ [],
          reset,
        ))
lapic_timer_init_period_example =
    lapic_timer_init_period counter table_bytes current_count reset time 10000 shows
      (λ k. (omega arith, omega arith)) (λ k. omega arith) 35796 10000 refl (omega arith)
      (omega arith)

apic_init_runs :
    apic_init counter table_bytes current_count 0 0x9000 tables 10 reset
    ≡ done (
      (0xfee0_00f0, 0x1ff)
          ∷ (0xfee0_0380, 0)
          ∷ (0xfee0_03e0, 3)
          ∷ (0xfee0_0380, 0xffff_ffff)
          ∷ (0xfee0_0320, 0x1_0000)
          ∷ (0xfee0_0320, 0x2_0045)
          ∷ (0xfee0_0380, 280000)
          ∷ [],
      record {
        lapic_address = 0xfee0_0000;
        ioapic_address = 0xfec0_0000;
        timer_locked = false;
        timer = record { fadt = 0x5000; use_ext = false };
        calibrated = true;
      },
    )
unfolding apic_init find_ics ics_loop pmt_init find_acpi_table table_loop table_entries table_entry
    has_signature memcmp memcmp_loop ioapic_init timer_init lapic_base lapic_timer_init pmt_delay
    delay_loop pmt_read ticks_since
apic_init_runs = refl

-- An interrupt at every third read.
abbrev every_third : ℕ → ℕ
every_third k = k / 3

apic_sleep_elapsed_example :
    (last : ℕ) × (apic_sleep every_third 20 5 ≡ done last)
    × (every_third last
        ≡ (if every_third 0 == every_third 1 then every_third 0 + 5 else every_third 0 + 1))
apic_sleep_elapsed_example =
    apic_sleep_elapsed every_third (λ k. (omega arith, omega arith)) 20 15 5 (omega arith)
      (omega arith) (omega arith) (omega arith)

-- The structure of the processor is set up, and its count wraps.
apic_timer_handler_wraps :
    apic_timer_handler 0x8000 0x9000 0xfee0_0000 (2 ^ 64 - 1) ≡ ((0xfee0_00b0, 0) ∷ [], 0)
unfolding apic_timer_handler
apic_timer_handler_wraps = refl
