-- ===== src/Acpi/Tests.antt =====
-- A MADT with an I/O APIC and a source override, and instances of the theorems.
use lord.Prelude.{ℕ, ◌≡◌, refl, List, [], ◌∷◌, arith, ◌==◌, if◌then◌else◌}
use lord.Kernel.{done, hangs}
use lord.Str.{Bytes}
use lord.Acpi.{
  Tables, table_entries, find_acpi_table, ics_base, ics_length, ics_loop, has_kind, overrides,
  or_default, find_ics, find_iso,
}
use lord.Acpi.Find.{IsFirstTable, find_acpi_table-IsFirstTable}
use lord.Acpi.Walk.{first_found, find_ics-first_found, find_ics-hangs}

-- 44 bytes of header, then a local APIC (type 0), an I/O APIC (type 1) and an override of the legacy
-- pin 0 by the interrupt 2.
abbrev madt_bytes : Bytes
madt_bytes a =
    if a == 0x1004
    then 74
    else if a == 0x102d
    then 8
    else if a == 0x1034
    then 1
    else if a == 0x1035
    then 12
    else if a == 0x1040
    then 2
    else if a == 0x1041
    then 10
    else if a == 0x1044
    then 2
    else 0

abbrev madt_offsets : List ℕ
madt_offsets = 0 ∷ 8 ∷ 20 ∷ []

find_ics_runs : find_ics 0x1000 1 madt_bytes ≡ done 0x1034
unfolding find_ics ics_loop
find_ics_runs = refl

find_iso_runs : find_iso 0x1000 0 madt_bytes ≡ done 2
unfolding find_iso ics_loop
find_iso_runs = refl

find_ics-first_found_example :
    (find_ics 0x1000 1 madt_bytes
      ≡ done (or_default 0 (first_found (has_kind madt_bytes 1) (ics_base 0x1000) madt_offsets)))
    × (find_iso 0x1000 0 madt_bytes
        ≡ done (or_default 0 (first_found (overrides madt_bytes 0) (ics_base 0x1000) madt_offsets)))
find_ics-first_found_example = find_ics-first_found 0x1000 1 0 madt_bytes madt_offsets (
  refl,
  omega arith,
  ground arith,
  (refl, omega arith, ground arith, (refl, omega arith, ground arith, omega arith)),
)

-- A MADT of 48 bytes whose structures are all zero.
abbrev zero_bytes : Bytes
zero_bytes a = if a == 0x1004 then 48 else 0

find_ics-hangs_example :
    (find_ics 0x1000 1 zero_bytes ≡ hangs)
    × (find_iso 0x1000 9 zero_bytes ≡ hangs)
    × ((fuel : ℕ)
        → (ics_loop
              (has_kind zero_bytes 1)
              fuel
              0
              (ics_length zero_bytes 0x1000)
              (ics_base 0x1000)
              zero_bytes
            ≡ hangs)
          × (ics_loop
                (overrides zero_bytes 9)
                fuel
                0
                (ics_length zero_bytes 0x1000)
                (ics_base 0x1000)
                zero_bytes
              ≡ hangs))
find_ics-hangs_example =
    find_ics-hangs 0x1000 1 9 zero_bytes (omega arith) refl (ground arith) (ground arith)

abbrev no_tables : Tables
no_tables = record { xsdt = 0; rsdt = 0x1000; madt = 0 }

find_acpi_table-IsFirstTable_example :
    IsFirstTable 0x10_0000 0x5000 zero_bytes no_tables 0
      (table_entries zero_bytes no_tables)
      (find_acpi_table 0x10_0000 0x5000 zero_bytes no_tables)
find_acpi_table-IsFirstTable_example =
    find_acpi_table-IsFirstTable 0x10_0000 0x5000 zero_bytes no_tables
