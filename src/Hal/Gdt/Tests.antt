-- ===== src/Hal/Gdt/Tests.antt =====
-- Instances of the theorem on segment descriptors.
use lord.Prelude.{◌%◌, ◌^◌, ◌≡◌, refl}
use lord.Hal.Gdt.{
  Gdt, packed, gdt_set_entry, set_gdt, segment_base, segment_limit, segment_flags,
  gdt_set_entry_lem,
}

abbrev blank : Gdt
blank i = packed 0 0 0 0

-- The access byte of the user code segment, at offset 0x18.
user_code_runs : (set_gdt blank 3).access ≡ 0xfa
unfolding set_gdt gdt_set_entry
user_code_runs = refl

gdt_set_entry_lem_example :
    (segment_base (gdt_set_entry 1 0x1234_5678 0xfffff 0x9a 0xa blank 1) ≡ 0x1234_5678 % 2 ^ 32)
    × (segment_limit (gdt_set_entry 1 0x1234_5678 0xfffff 0x9a 0xa blank 1) ≡ 0xfffff % 2 ^ 20)
    × (segment_flags (gdt_set_entry 1 0x1234_5678 0xfffff 0x9a 0xa blank 1) ≡ 0xa % 2 ^ 4)
    × ((gdt_set_entry 1 0x1234_5678 0xfffff 0x9a 0xa blank 1).access ≡ 0x9a)
    × (gdt_set_entry 1 0x1234_5678 0xfffff 0x9a 0xa blank 2 ≡ blank 2)
gdt_set_entry_lem_example = gdt_set_entry_lem 1 0x1234_5678 0xfffff 0x9a 0xa 2 blank
