-- ===== src/Drivers/Serial/Tests.antt =====
-- A transmitter that is ready at every third read, and a run of the initialisation.
use lord.Prelude.{
  ℕ, ◌+◌, ◌*◌, ◌/◌, ◌%◌, ◌≤◌, ◌<◌, ◌≡◌, refl, true, false, List, [], ◌∷◌, arith, ◌==◌,
  if◌then◌else◌,
}
use lord.Kernel.{done}
use lord.Str.{Bytes}
use lord.Drivers.Serial.{Access, serial_init, serial_print}
use lord.Drivers.Serial.Paced.{is_paced, sent, serial_print-paced}

abbrev every_third : ℕ → ℕ
every_third k = if k % 3 == 2 then 0x60 else 0

-- `"ok"`
abbrev ok_bytes : Bytes
ok_bytes a = if a == 0x100 then b'o' else if a == 0x101 then b'k' else 0

frees : (k : ℕ) → (j : ℕ) × (k ≤ j) × (j < k + 3) × (every_third j / 32 % 2 ≡ 1)
frees k = (k / 3 * 3 + 2, omega arith, omega arith, ground arith)

serial_print-paced_example :
    (tr : List Access) × (next : ℕ) × (serial_print every_third 3 3 0x100 0 ok_bytes
      ≡ done (tr, next))
    × (is_paced false tr ≡ true)
    × (sent tr ≡ b'o' ∷ b'k' ∷ [])
serial_print-paced_example =
    serial_print-paced every_third 3 frees (b'o' ∷ b'k' ∷ []) 3 0x100 0 ok_bytes
      (refl, omega arith, omega arith, (refl, omega arith, omega arith, refl)) (omega arith)

-- A port that gives back something else is left in loopback mode, and stays disabled.
serial_init_fails : (serial_init 0xff).1 ≡ false
unfolding serial_init
serial_init_fails = refl

serial_init_works : (serial_init 0xae).1 ≡ true
unfolding serial_init
serial_init_works = refl
