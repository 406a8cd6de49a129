-- ===== src/Drivers/Pmt/Tests.antt =====
-- A counter that wraps in the middle of a delay, and instances of the theorems.
use lord.Prelude.{
  ℕ, ◌+◌, ◌*◌, ◌%◌, ◌^◌, ◌≤◌, ◌<◌, ◌≡◌, refl, inl, false, arith, ◌==◌, if◌then◌else◌,
}
use lord.Kernel.{done, hangs}
use lord.Str.{Bytes}
use lord.Drivers.Pmt.{Counter, PmTimer, pmt_read, ticks_since, delay_loop, pmt_delay}
use lord.Drivers.Pmt.Elapsed.{pmt_delay_elapsed, pmt_delay-hangs}

-- A FADT with its timer at the port 0x608.
abbrev fadt_bytes : Bytes
fadt_bytes a = if a == 0x504c then 8 else if a == 0x504d then 6 else if a == 0x505b then 4 else 0

abbrev plain : PmTimer
plain = record { fadt = 0x5000; use_ext = false }

-- 5 ticks between two reads.
abbrev time : ℕ → ℕ
time k = 0xff_fff0 + 5 * k

abbrev counter : Counter
counter = record { port = λ port k. time k % 2 ^ 24; memory = λ address k. 0 }

pmt_delay_runs : pmt_delay counter fadt_bytes plain 40 10 ≡ done 7
unfolding pmt_delay delay_loop pmt_read ticks_since
pmt_delay_runs = refl

shows : (k : ℕ) → pmt_read counter fadt_bytes plain k % 2 ^ 24 ≡ time k % 2 ^ 24
unfolding pmt_read
shows k = omega arith

pmt_delay_elapsed_example :
    (last : ℕ) × (pmt_delay counter fadt_bytes plain 40 10 ≡ done last)
    × (time 0 + 35 ≤ time last)
    × (time last < time 0 + 35 + 5)
pmt_delay_elapsed_example =
    pmt_delay_elapsed counter fadt_bytes plain time 5 shows (λ k. (omega arith, omega arith)) 40 10
      (omega arith) (omega arith)

-- A delay of 5 seconds.
pmt_delay-hangs_example : pmt_delay counter fadt_bytes plain 1000 5000000 ≡ hangs
pmt_delay-hangs_example = pmt_delay-hangs counter fadt_bytes plain 1000 5000000 (inl (omega arith))
