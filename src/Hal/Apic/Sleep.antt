-- ===== src/Hal/Apic/Sleep.antt =====
-- How long `apic_sleep` waits.
use native.Mathlib.Nat.{le_refl, le_trans}
use lord.Prelude.{
  ℕ, zero, suc, ◌+◌, ◌-◌, ◌%◌, ◌^◌, ◌≤◌, ◌<◌, ◌≡◌, inl, inr, true, false, Bool-cases, arith, ap,
  ℕ_discrete, ltb→lt, ltb, ◌==◌, if◌then◌else◌,
}
use lord.Kernel.{done}
use lord.Hal.Apic.{sleep_loop, apic_sleep}

slept :
    (start now ms : ℕ)
    → start ≤ now
    → now ≤ start + ms
    → ms < 2 ^ 64
    → (now % 2 ^ 64 + 2 ^ 64 - start % 2 ^ 64) % 2 ^ 64 + start ≡ now
slept start now ms from until small = omega arith

-- The tick between the two first reads makes the difference wrap.
raced :
    (start now : ℕ)
    → now ≡ start + 1
    → (start % 2 ^ 64 + 2 ^ 64 - now % 2 ^ 64) % 2 ^ 64 ≡ 2 ^ 64 - 1
raced start now e = omega arith

wraps :
    (start now ms : ℕ)
    → now ≡ start + 1
    → ms < 2 ^ 64
    → ltb ((start % 2 ^ 64 + 2 ^ 64 - now % 2 ^ 64) % 2 ^ 64) ms ≡ false
wraps start now ms e small = ground (arith, raced start now e)

le_lt : (k n : ℕ) → k ≤ n → n < k + 0 → ⊥
le_lt k n h l = omega arith

awake : (diff start now ms : ℕ) → diff + start ≡ now → diff < ms → now < start + ms
awake diff start now ms e h = omega arith

woken :
    (diff start now ms : ℕ)
    → diff + start ≡ now
    → now ≤ start + ms
    → ltb diff ms ≡ false
    → now ≡ start + ms
woken diff start now ms e until over = ground arith

-- The interrupts counted at the `k`-th read: at most one more from read to read.
module _ (time : ℕ → ℕ)
    (ticks : (k : ℕ) → (time k ≤ time (suc k)) × (time (suc k) ≤ time k + 1)) where
  sleep_loop_elapsed :
      (fuel k n ms start : ℕ)
      → ms < 2 ^ 64
      → start ≤ time k
      → time k ≤ start + ms
      → start + ms ≤ time n
      → k ≤ n
      → n < k + fuel
      → (last : ℕ) × (sleep_loop time fuel k ms (start % 2 ^ 64) (time k % 2 ^ 64) ≡ done last)
        × (time last ≡ start + ms)
  unfolding sleep_loop
  sleep_loop_elapsed zero k n ms start small from until ends before enough =
      absurd (le_lt k n before enough)
  sleep_loop_elapsed (suc fuel) k n ms start small from until ends before enough =
      let now = slept start (time k) ms from until small in
      let test = ltb ((time k % 2 ^ 64 + 2 ^ 64 - start % 2 ^ 64) % 2 ^ 64) ms in
      elim (Bool-cases test) [
        | inl more ↦
            let short = awake _ start (time k) ms now (ltb→lt _ _ more) in
            rw more (
              sleep_loop_elapsed fuel (suc k) n ms start small (le_trans from (ticks k).0)
                (le_trans (ticks k).1 (omega (arith, short))) ends
                (before_last k n (start + ms) before short ends) (omega (arith, enough)))
        | inr over ↦ (k, rw over, woken _ start (time k) ms now until over)
      ]
    where
      before_last : (k n end : ℕ) → k ≤ n → time k < end → end ≤ time n → suc k ≤ n
      before_last k n end before short ends = elim (ℕ_discrete k n) [
        | yes e ↦ absurd (omega (arith, ap time e, short, ends))
        | no ne ↦ ground (arith, before, ne)
      ]

  missed_tick :
      (fuel ms : ℕ)
      → ms < 2 ^ 64
      → time 1 ≡ time 0 + 1
      → 0 < fuel
      → sleep_loop time fuel 1 ms (time 1 % 2 ^ 64) (time 0 % 2 ^ 64) ≡ done 1
  unfolding sleep_loop
  missed_tick zero ms small next h = elim h [ ]
  missed_tick (suc fuel) ms small next h =
      let over : ltb ((time 0 % 2 ^ 64 + 2 ^ 64 - time 1 % 2 ^ 64) % 2 ^ 64) ms ≡ false =
        wraps (time 0) (time 1) ms next small in
      rw over

  -- `apic_sleep` returns, if the count of timer interrupts never falls and grows by at most 1 from
  -- read to read, and one of the reads that the fuel allows shows `ms` more than the second read. If
  -- the two first reads agree, exactly `ms` interrupts have been counted at its return. If the count
  -- grows between them, it returns at once.
  pub apic_sleep_elapsed :
      (fuel n ms : ℕ)
      → ms < 2 ^ 64
      → time 1 + ms ≤ time n
      → 1 ≤ n
      → n ≤ fuel
      → (last : ℕ) × (apic_sleep time fuel ms ≡ done last)
        × (time last ≡ (if time 0 == time 1 then time 0 + ms else time 0 + 1))
  unfolding apic_sleep
  apic_sleep_elapsed fuel n ms small ends first enough = elim (ℕ_discrete (time 0) (time 1)) [
    | yes same ↦
        let equal : (time 0 == time 1) ≡ true = ground (arith, same) in
        rw (equal, same)
          (sleep_loop_elapsed fuel 1 n ms (time 1) small (le_refl _) (omega arith) ends first
            (omega arith))
    | no tick ↦
        let next : time 1 ≡ time 0 + 1 = omega (arith, tick, ticks 0) in
        let differ : (time 0 == time 1) ≡ false = ground (arith, tick) in
        (1, missed_tick fuel ms small next (omega arith), rw differ next)
  ]
