-- ===== src/Hal/Apic.antt =====
-- src/hal/apic.c, src/hal/timer.c: the local APIC, its timer, and the sleep that counts its interrupts.
pub mod Period
pub mod Sleep
pub mod Tests
use lord.Prelude.{
  ℕ, zero, suc, ◌+◌, ◌-◌, ◌%◌, ◌^◌, Bool, true, false, not, ◌||◌, Option, none, some, List, [], ◌∷◌,
  ◌++◌, bit_or, ◌==◌, ltb, if◌then◌else◌,
}
use lord.Kernel.{Outcome, done, hangs, ◌>>=◌}
use lord.Str.{Bytes}
use lord.Acpi.{Tables, word32, word64, find_ics}
use lord.Drivers.Pmt.{Counter, PmTimer, pmt_init, pmt_delay}
use lord.Hal.Ioapic.{Stores, ioapic_init}

abbrev pub lapic_eoi_reg : ℕ
lapic_eoi_reg = 0x0b0

abbrev pub lapic_spurious_reg : ℕ
lapic_spurious_reg = 0x0f0

abbrev pub lapic_lvt_timer_reg : ℕ
lapic_lvt_timer_reg = 0x320

abbrev pub lapic_timer_initial_cnt_reg : ℕ
lapic_timer_initial_cnt_reg = 0x380

abbrev pub lapic_timer_divider_reg : ℕ
lapic_timer_divider_reg = 0x3e0

abbrev pub lapic_timer_mask : ℕ
lapic_timer_mask = 0x1_0000

abbrev pub lapic_timer_periodic : ℕ
lapic_timer_periodic = 0x2_0000

abbrev pub lapic_timer_vector : ℕ
lapic_timer_vector = 69

-- A 32-bit store to a register.
abbrev pub lapic_write_reg : (lapic_address reg word : ℕ) → Stores
lapic_write_reg lapic_address reg word = ((lapic_address + reg) % 2 ^ 64, word % 2 ^ 32) ∷ []

-- The globals of the timers: `lapic_address`, `ioapic_address`, `lapic_timer_flag`, those of the
-- power-management timer, and whether `calibration_timer` is set to it.
pub record Apic : Type 0 where
  pub lapic_address : ℕ
  pub ioapic_address : ℕ
  pub timer_locked : Bool
  pub timer : PmTimer
  pub calibrated : Bool

pub timer_init : Bytes → (hhdm facp : ℕ) → Tables → Apic → Outcome Apic
timer_init m hhdm facp tables a = pmt_init hhdm facp m tables a.timer >>= λ r.
    done (record a { timer = r.1; calibrated = r.0 || a.calibrated })

-- The address in the MADT, or that of an override (type 5) that is not 0.
pub lapic_base : Bytes → (hhdm : ℕ) → Tables → (override : ℕ) → ℕ
lapic_base m hhdm tables override =
    if override == 0
    then (word32 m (tables.madt + 36) + hhdm) % 2 ^ 64
    else if word64 m (override + 4) == 0
    then (word32 m (tables.madt + 36) + hhdm) % 2 ^ 64
    else (word64 m (override + 4) + hhdm) % 2 ^ 64

module _ (c : Counter) (m : Bytes) (current_count : ℕ → ℕ) where
  -- `current_count k` is what the current-count register shows once the delay has read the counter
  -- the `k`-th time. The stores stand in their order: the delay is behind the third, the read of the
  -- current count behind the fourth.
  unfoldable pub lapic_timer_init : (fuel us : ℕ) → Apic → Outcome (Stores × Apic)
  lapic_timer_init fuel us a =
      if a.timer_locked
      then hangs
      else pmt_delay c m a.timer fuel us >>= λ last.
          let calibration = 0xffff_ffff - current_count last % 2 ^ 32 in
          done (
            lapic_write_reg a.lapic_address lapic_timer_initial_cnt_reg 0
                ++ (lapic_write_reg a.lapic_address lapic_timer_divider_reg 0b11
                    ++ (lapic_write_reg a.lapic_address lapic_timer_initial_cnt_reg 0xffff_ffff
                        ++ (lapic_write_reg a.lapic_address lapic_lvt_timer_reg lapic_timer_mask
                            ++ (lapic_write_reg a.lapic_address lapic_lvt_timer_reg
                                  (bit_or lapic_timer_vector lapic_timer_periodic)
                                ++ lapic_write_reg a.lapic_address lapic_timer_initial_cnt_reg
                                    calibration)))),
            record a { timer_locked = false },
          )

  unfoldable pub ap_apic_init : (fuel : ℕ) → Apic → Outcome (Stores × Apic)
  unfolding lapic_timer_init
  ap_apic_init fuel a = lapic_timer_init fuel 10000 a >>= λ r.
      done (lapic_write_reg a.lapic_address lapic_spurious_reg 0x1ff ++ r.0, r.1)

  module _ (hhdm facp : ℕ) (tables : Tables) where
    pub apic_init : (fuel : ℕ) → Apic → Outcome (Stores × Apic)
    unfolding lapic_base timer_init lapic_timer_init
    apic_init fuel a = find_ics tables.madt 5 m >>= λ override.
        (ioapic_init hhdm tables.madt m >>= λ ioapic.
        (timer_init m hhdm facp tables (record a {
          lapic_address = lapic_base m hhdm tables override;
          ioapic_address = ioapic;
        })
          >>= λ a'.
              (lapic_timer_init fuel 10000 a' >>= λ r.
              done (lapic_write_reg a'.lapic_address lapic_spurious_reg 0x1ff ++ r.0, r.1))))

-- `get_cpu_struct_initialized()` of src/hal/smp.c, on the value of the GS base register.
abbrev pub get_cpu_struct_initialized : (hhdm gs_base : ℕ) → Bool
get_cpu_struct_initialized hhdm gs_base = not (ltb gs_base hhdm)

-- `lapic_timer_ticks` of the processor's structure behind an interrupt of the timer.
pub apic_timer_handler : (hhdm gs_base lapic_address lapic_timer_ticks : ℕ) → Stores × ℕ
apic_timer_handler hhdm gs_base lapic_address lapic_timer_ticks = (
  lapic_write_reg lapic_address lapic_eoi_reg 0,
  if get_cpu_struct_initialized hhdm gs_base
      then (lapic_timer_ticks + 1) % 2 ^ 64
      else lapic_timer_ticks,
)

module _ (lapic_timer_ticks : ℕ → ℕ) where
  -- `lapic_timer_ticks k` is what the `k`-th read of that field gives. The loop has read it `k + 1`
  -- times; the result is the number of the last read, and `hangs` the end of the fuel.
  pub sleep_loop : (fuel k ms curcnt ticks : ℕ) → Outcome ℕ
  sleep_loop zero k ms curcnt ticks = hangs
  sleep_loop (suc fuel) k ms curcnt ticks =
      let rest = sleep_loop fuel (suc k) ms curcnt (lapic_timer_ticks (suc k) % 2 ^ 64) in
      if ltb ((ticks + 2 ^ 64 - curcnt) % 2 ^ 64) ms then rest else done k

  -- The first read is `lapic_timer_ticks`, the second `curcnt`.
  pub apic_sleep : (fuel ms : ℕ) → Outcome ℕ
  unfolding sleep_loop
  apic_sleep fuel ms =
      sleep_loop fuel 1 ms (lapic_timer_ticks 1 % 2 ^ 64) (lapic_timer_ticks 0 % 2 ^ 64)

  -- `sleep(int ms)` of src/hal/timer.c, for an `ms` that is not negative.
  pub sleep : (fuel ms : ℕ) → Outcome ℕ
  unfolding apic_sleep
  sleep fuel ms = apic_sleep fuel ms
