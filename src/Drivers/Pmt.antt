-- ===== src/Drivers/Pmt.antt =====
-- src/drivers/pmt.c: the ACPI power-management timer, and the delay that waits on its counter.
pub mod Elapsed
mod Tests
use lord.Prelude.{
  ℕ, zero, suc, ◌+◌, ◌-◌, ◌*◌, ◌/◌, ◌%◌, ◌^◌, Bool, true, false, not, ◌&&◌, bit_and, ◌==◌, ltb, leb,
  if◌then◌else◌,
}
use lord.Kernel.{Outcome, done, killed, hangs}
use lord.Str.{Bytes}
use lord.Acpi.{Tables, word32, word64, header_length, find_acpi_table}

abbrev pub pmt_timer_rate : ℕ
pmt_timer_rate = 3579545

abbrev pub x_pmt_tmr_block_offset : ℕ
x_pmt_tmr_block_offset = 208

-- The fields of the FADT that the driver reads.
abbrev pub revision : Bytes → ℕ → ℕ
revision m fadt = m (fadt + 8)

abbrev pub pm_timer_block : Bytes → ℕ → ℕ
pm_timer_block m fadt = word32 m (fadt + 76)

abbrev pub pm_timer_length : Bytes → ℕ → ℕ
pm_timer_length m fadt = m (fadt + 91)

abbrev pub x_address_space_id : Bytes → ℕ → ℕ
x_address_space_id m fadt = m (fadt + 208)

abbrev pub x_address : Bytes → ℕ → ℕ
x_address m fadt = word64 m (fadt + 212)

-- The globals `fadt` and `use_ext`.
pub record PmTimer : Type 0 where
  pub fadt : ℕ
  pub use_ext : Bool

-- What the `k`-th read of the counter in a delay gives, at a port or at an address of memory.
pub record Counter : Type 0 where
  pub port : (port k : ℕ) → ℕ
  pub memory : (address k : ℕ) → ℕ

-- `*((uint64_t*)address)`, `inl(address)`, or 0 with an error message.
unfoldable pub pmt_read_reg : Counter → (address_space_id address k : ℕ) → ℕ
pmt_read_reg c address_space_id address k =
    if address_space_id == 0
    then c.memory address k % 2 ^ 64
    else if address_space_id == 1
    then c.port (address % 2 ^ 16) k % 2 ^ 32
    else 0

-- The result is `true` for 0, and `false` for -1. `facp` is the address of the signature.
unfoldable pub pmt_init : (hhdm facp : ℕ) → Bytes → Tables → PmTimer → Outcome (Bool × PmTimer)
pmt_init hhdm facp m tables t =
    let found = find_acpi_table hhdm facp m tables in
    let fadt = (found + hhdm) % 2 ^ 64 in
    if found == 0
    then killed
    else if pm_timer_length m fadt == 0
    then done (false, record t { fadt = fadt })
    else if leb 2 (revision m fadt)
        && (not (x_address m fadt == 0) && leb x_pmt_tmr_block_offset (header_length m fadt))
    then done (true, record { fadt = fadt; use_ext = true })
    else done (true, record t { fadt = fadt })

module _ (c : Counter) (m : Bytes) (t : PmTimer) where
  unfoldable pub pmt_read : ℕ → ℕ
  unfolding pmt_read_reg
  pmt_read k =
      if t.use_ext
      then pmt_read_reg c (x_address_space_id m t.fadt) (x_address m t.fadt) k
      else c.port (pm_timer_block m t.fadt % 2 ^ 16) k % 2 ^ 32

  -- `(read - count) & 0xffffff`, in 64 bits.
  unfoldable pub ticks_since : (count read : ℕ) → ℕ
  ticks_since count read = bit_and ((read + 2 ^ 64 - count) % 2 ^ 64) 0xff_ffff

  -- `(us * PMT_TIMER_RATE) / 1000000`
  abbrev pub delay_ticks : ℕ → ℕ
  delay_ticks us = us * pmt_timer_rate % 2 ^ 64 / 1000000

  -- The loop behind the `k`-th read; the result is the number of the last read. `hangs` is the end of
  -- the fuel.
  unfoldable pub delay_loop : (fuel k count target current : ℕ) → Outcome ℕ
  unfolding pmt_read ticks_since
  delay_loop zero k count target current = hangs
  delay_loop (suc fuel) k count target current =
      let rest = delay_loop fuel (suc k) count target (ticks_since count (pmt_read (suc k))) in
      if ltb current target then rest else done k

  unfoldable pub pmt_delay : (fuel us : ℕ) → Outcome ℕ
  unfolding delay_loop
  pmt_delay fuel us = delay_loop fuel 0 (pmt_read 0) (delay_ticks us) 0
