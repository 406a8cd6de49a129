-- ===== src/Hal/Tsc.antt =====
-- src/hal/tsc.c, src/sys/time.c: the time-stamp counter, and the timestamps of the kernel.
mod Tests
use lord.Prelude.{
  ℕ, suc, ◌+◌, ◌-◌, ◌*◌, ◌/◌, ◌%◌, ◌^◌, ◌≤◌, ◌<◌, ◌≡◌, refl, Bool, true, false, arith, bit_and,
  ◌==◌, if◌then◌else◌,
}
use lord.Kernel.{Outcome, done, ◌>>=◌}
use lord.Str.{Bytes}
use lord.Drivers.Pmt.{Counter, PmTimer, pmt_read, delay_ticks, pmt_delay}
use lord.Drivers.Pmt.Elapsed.{pmt_delay_elapsed}

-- `core_crystal_clock`, and bit 1 of CR4, which `enable_tsc` sets and `disable_tsc` clears.
pub record Clock : Type 0 where
  pub core_crystal_clock : ℕ
  pub tsc_enabled : Bool

-- What `tsc_init` reads of the processor: EDX of the CPUID leaf 0x80000007, and ECX of the leaf 0x15.
pub record Cpuid : Type 0 where
  pub power_edx : ℕ
  pub crystal_ecx : ℕ

module _ (c : Counter) (m : Bytes) (t : PmTimer) (before : ℕ) (tsc : ℕ → ℕ) where
  -- `before` is the time-stamp counter before the delay, and `tsc k` is what it shows once the delay
  -- has read its own counter the `k`-th time. The result is `true` for KERNEL_STATUS_SUCCESS.
  unfoldable pub tsc_init : (fuel : ℕ) → Cpuid → Clock → Outcome (Bool × Clock)
  tsc_init fuel id clock =
      if bit_and id.power_edx 0x100 == 0
      then done (false, clock)
      else if id.crystal_ecx % 2 ^ 32 == 0
      then (pmt_delay c m t fuel 1000 >>= λ last. done (
        true,
        record {
          core_crystal_clock = (tsc last % 2 ^ 32 + 2 ^ 32 - before % 2 ^ 32) % 2 ^ 32;
          tsc_enabled = true;
        },
      ))
      else done
          (true, record { core_crystal_clock = id.crystal_ecx * 1000 % 2 ^ 32; tsc_enabled = true })

-- The timestamp at the value `read` of the counter.
unfoldable pub tsc_get_timestamp : Clock → (read : ℕ) → ℕ
tsc_get_timestamp clock read =
    if clock.core_crystal_clock == 0 then 0 else read % 2 ^ 64 / clock.core_crystal_clock

unfoldable pub kernel_get_timestamp : Clock → (read : ℕ) → ℕ
unfolding tsc_get_timestamp
kernel_get_timestamp clock read = tsc_get_timestamp clock read

-- The counter makes `rate` steps for each tick of the power-management timer.
module _ (c : Counter) (m : Bytes) (t : PmTimer) (before : ℕ) (tsc time : ℕ → ℕ) (gap rate : ℕ)
    (shows : (k : ℕ) → pmt_read c m t k % 2 ^ 24 ≡ time k % 2 ^ 24)
    (ticks : (k : ℕ) → (time k < time (suc k)) × (time (suc k) ≤ time k + gap))
    (counts : (k : ℕ) → tsc k ≡ before + rate * (time k - time 0)) where
  wrapped :
      (start steps : ℕ)
      → ((start + steps) % 2 ^ 32 + 2 ^ 32 - start % 2 ^ 32) % 2 ^ 32 ≡ steps % 2 ^ 32
  wrapped start steps = omega arith

  -- Without a crystal clock in CPUID, `tsc_init` sets the clock to the steps, modulo 2^32, that the
  -- counter makes in `elapsed` ticks of the power-management timer: the 3579 ticks of a millisecond,
  -- and fewer than `gap` more.
  pub tsc_init_calibrates :
      (fuel : ℕ) (id : Cpuid) (clock : Clock)
      → (bit_and id.power_edx 0x100 == 0) ≡ false
      → (id.crystal_ecx % 2 ^ 32 == 0) ≡ true
      → 3579 + gap ≤ 2 ^ 24
      → 3579 < fuel
      → (elapsed : ℕ) × (3579 ≤ elapsed)
        × (elapsed < 3579 + gap)
        × (tsc_init c m t before tsc fuel id clock
            ≡ done
                (true, record { core_crystal_clock = rate * elapsed % 2 ^ 32; tsc_enabled = true }))
  unfolding tsc_init
  tsc_init_calibrates fuel id clock invariant no_crystal fits enough =
      let (last, returns, least, most) =
        pmt_delay_elapsed c m t time gap shows ticks fuel 1000 fits enough in
      let elapsed : ℕ = time last - time 0 in
      (
        elapsed,
        omega arith,
        omega arith,
        rw (invariant, no_crystal, returns, counts last, wrapped before (rate * elapsed)) refl,
      )
