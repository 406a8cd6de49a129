-- ===== src/Hal/Tsc/Tests.antt =====
-- Runs: a processor without the counter, and one whose crystal clock is known.
use lord.Prelude.{◌≡◌, refl, true, false}
use lord.Kernel.{done}
use lord.Drivers.Pmt.{Counter, PmTimer}
use lord.Hal.Tsc.{Clock, tsc_init, kernel_get_timestamp}

abbrev still : Counter
still = record { port = λ port k. 0; memory = λ address k. 0 }

abbrev timer : PmTimer
timer = record { fadt = 0; use_ext = false }

abbrev unset : Clock
unset = record { core_crystal_clock = 0; tsc_enabled = false }

tsc_init_variant :
    tsc_init still (λ a. 0) timer 0 (λ k. 0) 5 (record { power_edx = 0; crystal_ecx = 0 }) unset
    ≡ done (false, unset)
unfolding tsc_init
tsc_init_variant = refl

-- 24 MHz: the product with 1000 does not fit in 32 bits.
tsc_init_crystal :
    tsc_init still
      (λ a. 0)
      timer
      0
      (λ k. 0)
      5
      (record { power_edx = 0x100; crystal_ecx = 24000000 })
      unset
    ≡ done (true, record { core_crystal_clock = 2525163520; tsc_enabled = true })
unfolding tsc_init
tsc_init_crystal = refl

kernel_get_timestamp_runs : kernel_get_timestamp unset 12345 ≡ 0
unfolding kernel_get_timestamp
kernel_get_timestamp_runs = refl
