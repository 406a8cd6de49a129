-- ===== src/Acpi.antt =====
-- src/sys/acpi.c: the search for tables, and the walk over the interrupt controller structures.
pub mod Find
pub mod Walk
mod Tests
use lord.Prelude.{
  ℕ, zero, suc, ◌+◌, ◌-◌, ◌*◌, ◌/◌, ◌%◌, ◌^◌, Bool, true, false, Option, none, some, List, [], ◌∷◌,
  ◌==◌, ltb, leb, if◌then◌else◌,
}
use lord.Kernel.{Outcome, done, killed, hangs, ◌>>=◌}
use lord.Str.{Bytes, Sign, equal, minus_one, plus_one, memcmp}

-- Little-endian words in the bytes of memory.
abbrev pub word16 : Bytes → ℕ → ℕ
word16 m a = m a + m (a + 1) * 2 ^ 8

abbrev pub word32 : Bytes → ℕ → ℕ
word32 m a = word16 m a + word16 m (a + 2) * 2 ^ 16

abbrev pub word64 : Bytes → ℕ → ℕ
word64 m a = word32 m a + word32 m (a + 4) * 2 ^ 32

-- `sizeof(desc_header_t)`, and the offset of its length.
abbrev pub desc_header_size : ℕ
desc_header_size = 36

abbrev pub header_length : Bytes → ℕ → ℕ
header_length m table = word32 m (table + 4)

-- The globals `xsdt`, `rsdt` and `madt`, 0 for a null pointer.
pub record Tables : Type 0 where
  pub xsdt : ℕ
  pub rsdt : ℕ
  pub madt : ℕ

-- `header->length - sizeof(desc_header_t)` in 64 bits.
abbrev pub body_length : Bytes → ℕ → ℕ
body_length m table = (header_length m table + 2 ^ 64 - desc_header_size) % 2 ^ 64

unfoldable pub table_entries : Bytes → Tables → ℕ
table_entries m t = if t.xsdt == 0 then body_length m t.rsdt / 4 else body_length m t.xsdt / 8

-- The physical address of the `i`-th table.
unfoldable pub table_entry : Bytes → Tables → ℕ → ℕ
table_entry m t i =
    if t.xsdt == 0
    then word32 m (t.rsdt + desc_header_size + 4 * i)
    else word64 m (t.xsdt + desc_header_size + 8 * i)

abbrev pub is_equal : Sign → Bool
is_equal equal = true
is_equal minus_one = false
is_equal plus_one = false

-- `memcmp(virt->signature, signature, 4) == 0` for the table at a physical address.
unfoldable pub has_signature : (hhdm signature : ℕ) → Bytes → (header : ℕ) → Bool
has_signature hhdm signature m header = is_equal (memcmp ((header + hhdm) % 2 ^ 64) signature 4 m)

unfoldable pub table_loop : (left i hhdm signature : ℕ) → Bytes → Tables → ℕ
unfolding table_entry has_signature
table_loop zero i hhdm signature m t = 0
table_loop (suc left) i hhdm signature m t =
    let rest = table_loop left (i + 1) hhdm signature m t in
    if has_signature hhdm signature m (table_entry m t i) then table_entry m t i else rest

-- The physical address of the table, 0 for `NULL`.
unfoldable pub find_acpi_table : (hhdm signature : ℕ) → Bytes → Tables → ℕ
unfolding table_loop table_entries
find_acpi_table hhdm signature m t = table_loop (table_entries m t) 0 hhdm signature m t

-- The globals behind `acpi_init`: the root table of the RSDP at `rsdp`, and the MADT. `none` is a
-- null response of the bootloader.
unfoldable pub acpi_init : (hhdm apic : ℕ) → Bytes → Option ℕ → Outcome Tables
unfolding find_acpi_table
acpi_init hhdm apic m none = killed
acpi_init hhdm apic m (some rsdp) =
    let t : Tables =
      if leb 2 (m (rsdp + 15))
      then record { xsdt = (word64 m (rsdp + 24) + hhdm) % 2 ^ 64; rsdt = 0; madt = 0 }
      else record { xsdt = 0; rsdt = (word32 m (rsdp + 16) + hhdm) % 2 ^ 64; madt = 0 } in
    let madt = find_acpi_table hhdm apic m t in
    if madt == 0 then killed else done (record t { madt = madt })

-- The address of `madt->ics`, and the bytes behind it.
abbrev pub ics_base : ℕ → ℕ
ics_base madt = madt + desc_header_size + 8

abbrev pub ics_length : Bytes → ℕ → ℕ
ics_length m madt = (header_length m madt + 2 ^ 64 - desc_header_size - 8) % 2 ^ 64

-- `ics_t`
abbrev pub ics_kind : Bytes → ℕ → ℕ
ics_kind m header = m header

abbrev pub ics_size : Bytes → ℕ → ℕ
ics_size m header = m (header + 1)

-- The `while` loop of `find_ics` and `find_iso`, which stops at a structure that `found` accepts. A
-- structure of length 0 makes it run forever; the fuel counts its rounds.
unfoldable pub ics_loop :
    (found : ℕ → Option ℕ) → (fuel i length base_addr : ℕ) → Bytes → Outcome (Option ℕ)
ics_loop found zero i length base_addr m = hangs
ics_loop found (suc fuel) i length base_addr m =
    let header = base_addr + i in
    let rest = ics_loop found fuel (i + ics_size m header) length base_addr m in
    if ltb i length then elim (found header) [ some r ↦ done (some r) | none ↦ rest ] else done none

-- What `find_ics` and `find_iso` look for.
abbrev pub has_kind : Bytes → ℕ → ℕ → Option ℕ
has_kind m kind header = if ics_kind m header == kind then some header else none

abbrev pub overrides : Bytes → ℕ → ℕ → Option ℕ
overrides m legacy header =
    if ics_kind m header == 2
    then (if legacy == m (header + 3) then some (word32 m (header + 4)) else none)
    else none

-- What is behind the loop: the result, or a default.
abbrev pub or_default : ℕ → Option ℕ → ℕ
or_default d none = d
or_default d (some r) = r

-- The address of the first structure of this type, 0 for `NULL`.
unfoldable pub find_ics : (madt kind : ℕ) → Bytes → Outcome ℕ
unfolding ics_loop
find_ics madt kind m =
    ics_loop (has_kind m kind) (ics_length m madt + 1) 0 (ics_length m madt) (ics_base madt) m
    >>= λ r. done (or_default 0 r)

pub find_iso : (madt legacy : ℕ) → Bytes → Outcome ℕ
find_iso madt legacy m =
    ics_loop (overrides m legacy) (ics_length m madt + 1) 0 (ics_length m madt) (ics_base madt) m
    >>= λ r. done (or_default legacy r)
