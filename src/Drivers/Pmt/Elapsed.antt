-- ===== src/Drivers/Pmt/Elapsed.antt =====
-- How long `pmt_delay` waits, and when it waits forever.
use lord.Prelude.{
  ℕ, zero, suc, ◌+◌, ◌-◌, ◌%◌, ◌^◌, ◌≤◌, ◌<◌, ◌≡◌, refl, ◌⊎◌, inl, inr, true, Bool-cases, arith,
  ltb, ltb→lt,
}
use lord.Bits.{and_mask}
use lord.Kernel.{done, hangs}
use lord.Str.{Bytes}
use lord.Drivers.Pmt.{
  Counter, PmTimer, pmt_read_reg, x_address_space_id, pmt_read, ticks_since, delay_ticks,
  delay_loop, pmt_delay,
}

-- One more round: the time goes from `now` to `next`.
round_below :
    (start now next gap target current : ℕ)
    → current + start ≡ now
    → current < target
    → next ≤ now + gap
    → next < start + target + gap
round_below start now next gap target current e short step = omega arith

round_fuel :
    (start now next target current current' fuel : ℕ)
    → current + start ≡ now
    → current' + start ≡ next
    → now < next
    → current < target
    → target - current < suc fuel
    → target - current' < fuel
round_fuel start now next target current current' fuel e e' step short enough = omega arith

round_from : (start now next current : ℕ) → current + start ≡ now → now < next → start ≤ next
round_from start now next current e step = omega arith

round_fits :
    (start next gap target : ℕ)
    → next < start + target + gap
    → target + gap ≤ 2 ^ 24
    → next < start + 2 ^ 24
round_fits start next gap target below fits = omega arith

module _ (c : Counter) (m : Bytes) (t : PmTimer) where
  ticks_since-mod :
      (count read : ℕ) → ticks_since c m t count read ≡ (read + 2 ^ 64 - count) % 2 ^ 64 % 2 ^ 24
  unfolding ticks_since
  ticks_since-mod count read = and_mask 24 ((read + 2 ^ 64 - count) % 2 ^ 64)

  pmt_read-lt : (k : ℕ) → pmt_read c m t k < 2 ^ 64
  unfolding pmt_read pmt_read_reg
  pmt_read-lt k = ground arith

  -- Where every read is below the target, the loop uses up any fuel.
  delay_loop-hangs :
      (fuel k count target current : ℕ)
      → ((read : ℕ) → ticks_since c m t count (pmt_read c m t read) < target)
      → current < target
      → delay_loop c m t fuel k count target current ≡ hangs
  unfolding delay_loop
  delay_loop-hangs zero k count target current below h = refl
  delay_loop-hangs (suc fuel) k count target current below h =
      let more : ltb current target ≡ true = ground arith in
      rw more (delay_loop-hangs fuel (suc k) count target _ below (below (suc k)))

  unsupported_zero :
      (k : ℕ) → t.use_ext ≡ true → 2 ≤ x_address_space_id m t.fadt → pmt_read c m t k ≡ 0
  unfolding pmt_read pmt_read_reg
  unsupported_zero k ext id = rw ext (ground arith)

  -- `pmt_delay` never returns, whatever the counter shows, for a delay of 2^24 ticks or more, or where
  -- it uses the extended block, the address space of that block is neither memory nor port, and the
  -- delay has at least one tick.
  pub pmt_delay-hangs :
      (fuel us : ℕ)
      → (2 ^ 24 ≤ delay_ticks c m t us)
        ⊎ ((t.use_ext ≡ true) × (2 ≤ x_address_space_id m t.fadt) × (0 < delay_ticks c m t us))
      → pmt_delay c m t fuel us ≡ hangs
  unfolding pmt_delay
  pmt_delay-hangs fuel us (inl long) =
      delay_loop-hangs fuel 0 (pmt_read c m t 0) (delay_ticks c m t us) 0
        (λ read. omega (arith, ticks_since-mod (pmt_read c m t 0) (pmt_read c m t read)))
        (omega arith)
  pmt_delay-hangs fuel us (inr (ext, id, some_ticks)) =
      delay_loop-hangs fuel 0 (pmt_read c m t 0) (delay_ticks c m t us) 0
        (λ read. omega (
          arith,
          ticks_since-mod (pmt_read c m t 0) (pmt_read c m t read),
          unsupported_zero 0 ext id,
          unsupported_zero read ext id,
        ))
        some_ticks

  -- The counter shows a time in its low 24 bits, and the time goes on by 1 to `gap` ticks from one
  -- read to the next.
  module _ (time : ℕ → ℕ) (gap : ℕ) (shows : (k : ℕ) → pmt_read c m t k % 2 ^ 24 ≡ time k % 2 ^ 24)
      (ticks : (k : ℕ) → (time k < time (suc k)) × (time (suc k) ≤ time k + gap)) where
    ticks_since-time :
        (k : ℕ)
        → time 0 ≤ time k
        → time k < time 0 + 2 ^ 24
        → ticks_since c m t (pmt_read c m t 0) (pmt_read c m t k) + time 0 ≡ time k
    ticks_since-time k from h = omega (
      arith,
      ticks_since-mod (pmt_read c m t 0) (pmt_read c m t k),
      shows 0,
      shows k,
      pmt_read-lt 0,
      pmt_read-lt k,
    )

    delay_loop_elapsed :
        (fuel k target current : ℕ)
        → target + gap ≤ 2 ^ 24
        → current + time 0 ≡ time k
        → time k < time 0 + target + gap
        → target - current < fuel
        → (last : ℕ) × (delay_loop c m t fuel k (pmt_read c m t 0) target current ≡ done last)
          × (time 0 + target ≤ time last)
          × (time last < time 0 + target + gap)
    unfolding delay_loop
    delay_loop_elapsed zero k target current fits now below enough =
        (k, absurd (omega arith), omega arith, below)
    delay_loop_elapsed (suc fuel) k target current fits now below enough =
        elim (Bool-cases (ltb current target)) [
          | inl more ↦
              let (goes, slow) = ticks k in
              let below' =
                round_below (time 0) (time k) (time (suc k)) gap target current now
                  (ltb→lt _ _ more) slow in
              let now' =
                ticks_since-time (suc k) (round_from (time 0) (time k) _ current now goes)
                  (round_fits (time 0) _ gap target below' fits) in
              rw more (
                delay_loop_elapsed fuel (suc k) target _ fits now' below' (
                  round_fuel (time 0) (time k) _ target current _ fuel now now' goes
                    (ltb→lt _ _ more) enough))
          | inr over ↦ (k, rw over, ground arith, below)
        ]

    -- `pmt_delay` returns if the counter goes on by 1 to `gap` ticks from read to read and the delay
    -- and `gap` fit in its 24 bits; between its first and its last read at least the ticks of the
    -- delay have passed, and fewer than `gap` more.
    pub pmt_delay_elapsed :
        (fuel us : ℕ)
        → delay_ticks c m t us + gap ≤ 2 ^ 24
        → delay_ticks c m t us < fuel
        → (last : ℕ) × (pmt_delay c m t fuel us ≡ done last)
          × (time 0 + delay_ticks c m t us ≤ time last)
          × (time last < time 0 + delay_ticks c m t us + gap)
    unfolding pmt_delay
    pmt_delay_elapsed fuel us fits enough =
        delay_loop_elapsed fuel 0 (delay_ticks c m t us) 0 fits (omega arith)
          (omega (arith, ticks 0)) (omega arith)
