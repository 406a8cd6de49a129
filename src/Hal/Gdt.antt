-- ===== src/Hal/Gdt.antt =====
-- src/hal/gdt.c: the segment descriptors.
mod Tests
use lord.Prelude.{
  ℕ, ◌+◌, ◌*◌, ◌/◌, ◌%◌, ◌^◌, ◌<◌, ◌≡◌, refl, true, arith, bit_and, bit_or, ◌==◌, if◌then◌else◌,
}
use lord.Bits.{shr, shl, and_mask, or_shl}

-- `gdt_descriptor`
pub record GdtDescriptor : Type 0 where
  pub limit_low : ℕ
  pub base_low : ℕ
  pub base_middle : ℕ
  pub access : ℕ
  pub granularity : ℕ
  pub base_high : ℕ

-- The array `gdt`.
abbrev pub Gdt : Type 0
Gdt = ℕ → GdtDescriptor

-- The entry that `gdt_set_entry` fills in; `access` and `granularity` are bytes.
abbrev pub packed : (base limit access granularity : ℕ) → GdtDescriptor
packed base limit access granularity = record {
  limit_low = bit_and limit 0xffff;
  base_low = bit_and base 0xffff;
  base_middle = bit_and (shr base 16) 0xff;
  access = access;
  granularity = bit_or (bit_and (shr limit 16) 0x0f) (shl (bit_and granularity 0xf) 4);
  base_high = bit_and (shr base 24) 0xff;
}

pub gdt_set_entry : (num base limit access granularity : ℕ) → Gdt → Gdt
gdt_set_entry num base limit access granularity gdt i =
    if i == num then packed base limit access granularity else gdt i

-- `s_load_gdt` loads the table register, which is not modelled.
pub set_gdt : Gdt → Gdt
unfolding gdt_set_entry
set_gdt gdt = gdt_set_entry 4 0 0xfffff 0xf2 0xa (
    gdt_set_entry 3 0 0xfffff 0xfa 0xa (
      gdt_set_entry 2 0 0xfffff 0x92 0xa
        (gdt_set_entry 1 0 0xfffff 0x9a 0xa (gdt_set_entry 0 0 0 0 0 gdt))))

-- What the processor reads from a descriptor.
abbrev pub segment_base : GdtDescriptor → ℕ
segment_base d = d.base_low + d.base_middle * 2 ^ 16 + d.base_high * 2 ^ 24

abbrev pub segment_limit : GdtDescriptor → ℕ
segment_limit d = d.limit_low + d.granularity % 2 ^ 4 * 2 ^ 16

abbrev pub segment_flags : GdtDescriptor → ℕ
segment_flags d = d.granularity / 2 ^ 4

packed_granularity :
    (limit granularity : ℕ)
    → (packed 0 limit 0 granularity).granularity
      ≡ granularity % 2 ^ 4 * 2 ^ 4 + limit / 2 ^ 16 % 2 ^ 4
packed_granularity limit granularity =
    let low = and_mask 4 (limit / 2 ^ 16) in
    let high = and_mask 4 granularity in
    rw (low, high) (or_shl 4 (granularity % 16) (limit / 65536 % 16) (omega arith))

-- `gdt_set_entry` stores the base modulo 2^32, the limit modulo 2^20, the flags modulo 2^4 and the
-- access byte, and keeps the other entries.
pub gdt_set_entry_lem :
    (num base limit access granularity i : ℕ) (gdt : Gdt)
    → (segment_base (gdt_set_entry num base limit access granularity gdt num) ≡ base % 2 ^ 32)
      × (segment_limit (gdt_set_entry num base limit access granularity gdt num) ≡ limit % 2 ^ 20)
      × (segment_flags (gdt_set_entry num base limit access granularity gdt num)
          ≡ granularity % 2 ^ 4)
      × ((gdt_set_entry num base limit access granularity gdt num).access ≡ access)
      × (gdt_set_entry num base limit access granularity gdt i
          ≡ (if i == num then gdt_set_entry num base limit access granularity gdt num else gdt i))
unfolding gdt_set_entry
gdt_set_entry_lem num base limit access granularity i gdt =
    let at_num : (num == num) ≡ true = ground arith in
    let flags = packed_granularity limit granularity in
    rw at_num (
      omega (arith, and_mask 16 base, and_mask 8 (base / 2 ^ 16), and_mask 8 (base / 2 ^ 24)),
      omega (arith, and_mask 16 limit, flags),
      omega (arith, flags),
      refl,
      refl,
    )
