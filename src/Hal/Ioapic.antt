-- ===== src/Hal/Ioapic.antt =====
-- src/hal/ioapic.c: the I/O APIC, as stores to its two registers.
use lord.Prelude.{
  ℕ, ◌+◌, ◌*◌, ◌%◌, ◌^◌, ◌<◌, ◌≡◌, refl, ap₂, ◌∙◌, List, [], ◌∷◌, ◌++◌, arith, bit_and, bit_or,
  ◌==◌, if◌then◌else◌,
}
use lord.Kernel.{Outcome, done, killed, ◌>>=◌}
use lord.Str.{Bytes}
use lord.Acpi.{word32, find_ics}
use lord.Bits.{shl, shr, and_mask, or_low}

abbrev pub ioregsel : ℕ
ioregsel = 0x0

abbrev pub iowin : ℕ
iowin = 0x10

-- `IOREDTBL(x)`
abbrev pub ioredtbl : ℕ → ℕ
ioredtbl x = 0x10 + x * 2

-- The 32-bit stores, each an address and a value, in their order.
abbrev pub Stores : Type 0
Stores = List (ℕ × ℕ)

-- `reg` is a byte, `word` has 32 bits.
pub ioapic_write_reg : (ioapic_address reg word : ℕ) → Stores
ioapic_write_reg ioapic_address reg word =
    ((ioapic_address + ioregsel) % 2 ^ 64, reg % 2 ^ 8)
    ∷ ((ioapic_address + iowin) % 2 ^ 64, word % 2 ^ 32)
    ∷ []

pub write_redir_entry : (ioapic_address reg word : ℕ) → Stores
unfolding ioapic_write_reg
write_redir_entry ioapic_address reg word =
    ioapic_write_reg ioapic_address (ioredtbl reg) (bit_and word 0xffffffff)
    ++ ioapic_write_reg ioapic_address (ioredtbl reg + 1) (shr word 32)

-- The 64-bit entry.
pub redir_data : (vector delivery trigger destination_field destination_mode : ℕ) → ℕ
redir_data vector delivery trigger destination_field destination_mode =
    bit_or
      (bit_or
        (bit_or (bit_or (shl destination_field 56 % 2 ^ 64) (shl trigger 15))
          (shl destination_mode 11))
        (shl delivery 8))
      vector

pub set_redir_entry :
    (ioapic_address pin vector delivery trigger destination_field destination_mode : ℕ) → Stores
unfolding write_redir_entry redir_data
set_redir_entry ioapic_address pin vector delivery trigger destination_field destination_mode =
    write_redir_entry ioapic_address pin
      (redir_data vector delivery trigger destination_field destination_mode)

-- `load` is what a 32-bit load gives behind some stores.
pub ioapic_read_reg : (load : Stores → ℕ → ℕ) → (ioapic_address reg : ℕ) → Stores × ℕ
ioapic_read_reg load ioapic_address reg =
    let selected : Stores = ((ioapic_address + ioregsel) % 2 ^ 64, reg % 2 ^ 8) ∷ [] in
    (selected, load selected ((ioapic_address + iowin) % 2 ^ 64) % 2 ^ 32)

-- The new `ioapic_address`, from the first I/O APIC of the MADT.
unfoldable pub ioapic_init : (hhdm madt : ℕ) → Bytes → Outcome ℕ
ioapic_init hhdm madt m = find_ics madt 1 m >>= λ ioapic.
    if ioapic == 0 then killed else done ((word32 m (ioapic + 4) + hhdm) % 2 ^ 64)

redir_data-sum :
    (vector delivery trigger destination_field destination_mode : ℕ)
    → vector < 2 ^ 8
    → delivery < 2 ^ 3
    → trigger < 2
    → destination_field < 2 ^ 8
    → destination_mode < 2
    → redir_data vector delivery trigger destination_field destination_mode
      ≡ destination_field * 2 ^ 56
        + trigger * 2 ^ 15
        + destination_mode * 2 ^ 11
        + delivery * 2 ^ 8
        + vector
unfolding redir_data
redir_data-sum vector delivery trigger destination_field destination_mode hv hd ht hf hm =
    let small : destination_field * 2 ^ 56 % 2 ^ 64 ≡ destination_field * 2 ^ 56 = omega arith in
    let a : bit_or (destination_field * 2 ^ 56) (trigger * 2 ^ 15)
        ≡ (destination_field * 2 ^ 41 + trigger) * 2 ^ 15 =
      or_low 56 destination_field (trigger * 2 ^ 15) (omega arith) ∙ omega arith in
    let b : bit_or ((destination_field * 2 ^ 41 + trigger) * 2 ^ 15) (destination_mode * 2 ^ 11)
        ≡ (destination_field * 2 ^ 45 + trigger * 2 ^ 4 + destination_mode) * 2 ^ 11 =
      or_low 15 (destination_field * 2 ^ 41 + trigger) (destination_mode * 2 ^ 11) (omega arith)
      ∙ omega arith in
    let c : bit_or ((destination_field * 2 ^ 45 + trigger * 2 ^ 4 + destination_mode) * 2 ^ 11)
          (delivery * 2 ^ 8)
        ≡ (destination_field * 2 ^ 48 + trigger * 2 ^ 7 + destination_mode * 2 ^ 3 + delivery)
          * 2 ^ 8 =
      or_low 11 (destination_field * 2 ^ 45 + trigger * 2 ^ 4 + destination_mode) (delivery * 2 ^ 8)
        (omega arith)
      ∙ omega arith in
    rw
      (
        small,
        a,
        b,
        c,
        or_low 8
            (destination_field * 2 ^ 48 + trigger * 2 ^ 7 + destination_mode * 2 ^ 3 + delivery)
            vector hv,
      )
      (omega arith)

-- For fields of the widths of a redirection entry and a pin below 120, `set_redir_entry` selects the
-- two registers of the pin in turn and stores into them the low half of the entry, with vector,
-- delivery, mode and trigger at the bits 0, 8, 11 and 15, and the high half, with the destination at
-- bit 24.
pub set_redir_entry_lem :
    (ioapic_address pin vector delivery trigger destination_field destination_mode : ℕ)
    → ioapic_address + 0x10 < 2 ^ 64
    → pin < 120
    → vector < 2 ^ 8
    → delivery < 2 ^ 3
    → trigger < 2
    → destination_field < 2 ^ 8
    → destination_mode < 2
    → set_redir_entry ioapic_address pin vector delivery trigger destination_field destination_mode
      ≡ (ioapic_address, 0x10 + 2 * pin)
        ∷ (
          ioapic_address + 0x10,
          trigger * 2 ^ 15 + destination_mode * 2 ^ 11 + delivery * 2 ^ 8 + vector,
        )
        ∷ (ioapic_address, 0x11 + 2 * pin)
        ∷ (ioapic_address + 0x10, destination_field * 2 ^ 24)
        ∷ []
unfolding set_redir_entry write_redir_entry ioapic_write_reg
set_redir_entry_lem ioapic_address pin vector delivery trigger destination_field destination_mode ha
      hp hv hd ht hf hm =
    let sum =
      redir_data-sum vector delivery trigger destination_field destination_mode hv hd ht hf hm in
    let low = and_mask 32 (redir_data vector delivery trigger destination_field destination_mode) in
    ap₂ ◌∷◌ (ap₂ (λ (x y : ℕ). (x, y)) (omega arith) (omega arith)) (
      ap₂ ◌∷◌ (ap₂ (λ (x y : ℕ). (x, y)) (omega arith) (omega (arith, sum, low))) (
        ap₂ ◌∷◌ (ap₂ (λ (x y : ℕ). (x, y)) (omega arith) (omega arith))
          (ap₂ ◌∷◌ (ap₂ (λ (x y : ℕ). (x, y)) (omega arith) (omega (arith, sum))) refl)))
