-- ===== src/Hal/Apic/Period.antt =====
-- The period that `lapic_timer_init` programs.
use lord.Prelude.{ℕ, suc, ◌+◌, ◌-◌, ◌%◌, ◌^◌, ◌≤◌, ◌<◌, ◌≡◌, refl, false, [], ◌∷◌, arith}
use lord.Kernel.{done}
use lord.Str.{Bytes}
use lord.Drivers.Pmt.{Counter, pmt_read, delay_ticks}
use lord.Drivers.Pmt.Elapsed.{pmt_delay_elapsed}
use lord.Hal.Apic.{Apic, lapic_timer_init}

counted_down :
    (current : ℕ)
    → current < 2 ^ 32
    → (steps : ℕ) × (current + steps ≡ 0xffff_ffff)
      × ((0xffff_ffff - current % 2 ^ 32) % 2 ^ 32 ≡ steps)
counted_down current h = (0xffff_ffff - current, omega arith, omega arith)

-- The counter of the power-management timer shows the low 24 bits of the time, and the current count
-- of the local APIC has 32 bits.
module _ (c : Counter) (m : Bytes) (current_count : ℕ → ℕ) (a : Apic) (time : ℕ → ℕ) (gap : ℕ)
    (shows : (k : ℕ) → pmt_read c m a.timer k % 2 ^ 24 ≡ time k % 2 ^ 24)
    (ticks : (k : ℕ) → (time k < time (suc k)) × (time (suc k) ≤ time k + gap))
    (counts : (k : ℕ) → current_count k < 2 ^ 32) where
  -- With its lock free, a counter that goes on by 1 to `gap` ticks from read to read, the delay and
  -- `gap` within its 24 bits, and a current count of 32 bits, `lapic_timer_init` returns with its lock
  -- free; and its six stores start the count at 2^32 - 1, set the vector 69 to periodic, and at last
  -- set the period to the steps that the local APIC has counted down from 2^32 - 1 by the last read of
  -- the delay, which comes after the ticks of the delay and before `gap` more.
  pub lapic_timer_init_period :
      (fuel us : ℕ)
      → a.timer_locked ≡ false
      → delay_ticks c m a.timer us + gap ≤ 2 ^ 24
      → delay_ticks c m a.timer us < fuel
      → (last : ℕ) × (steps : ℕ) × (time 0 + delay_ticks c m a.timer us ≤ time last)
        × (time last < time 0 + delay_ticks c m a.timer us + gap)
        × (current_count last + steps ≡ 0xffff_ffff)
        × (lapic_timer_init c m current_count fuel us a
            ≡ done (
              ((a.lapic_address + 0x380) % 2 ^ 64, 0)
                  ∷ ((a.lapic_address + 0x3e0) % 2 ^ 64, 3)
                  ∷ ((a.lapic_address + 0x380) % 2 ^ 64, 0xffff_ffff)
                  ∷ ((a.lapic_address + 0x320) % 2 ^ 64, 0x1_0000)
                  ∷ ((a.lapic_address + 0x320) % 2 ^ 64, 0x2_0045)
                  ∷ ((a.lapic_address + 0x380) % 2 ^ 64, steps)
                  ∷ [],
              record a { timer_locked = false },
            ))
  unfolding lapic_timer_init
  lapic_timer_init_period fuel us free fits enough =
      let (last, returns, least, most) =
        pmt_delay_elapsed c m a.timer time gap shows ticks fuel us fits enough in
      let (steps, sum, count) = counted_down (current_count last) (counts last) in
      (last, steps, least, most, sum, rw (lapic_timer_init, free, returns, count) refl)
