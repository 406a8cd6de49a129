-- ===== src/Drivers/Serial.antt =====
-- src/drivers/serial.c: the serial port, as the accesses to its registers.
pub mod Paced
mod Tests
use lord.Prelude.{
  ℕ, zero, suc, ◌+◌, ◌%◌, Bool, true, false, List, [], ◌∷◌, ◌++◌, bit_and, ◌==◌, if◌then◌else◌,
}
use lord.Kernel.{Outcome, done, hangs, ◌>>=◌}
use lord.Str.{Bytes}

abbrev pub com1 : ℕ
com1 = 0x3f8

abbrev pub line_ctrl_reg : ℕ
line_ctrl_reg = 0x3

abbrev pub line_stat_reg : ℕ
line_stat_reg = 0x5

abbrev pub int_enable_reg : ℕ
int_enable_reg = 0x1

abbrev pub mdm_ctrl_reg : ℕ
mdm_ctrl_reg = 0x4

-- A port and the byte that is read from it, or written to it.
pub data Access : Type 0 where
  inb : (port byte : ℕ) → Access
  outb : (port byte : ℕ) → Access

-- `reply` is what the port gives back for 0xAE; the result is the new `serial_enabled`, which is
-- `false` before.
unfoldable pub serial_init : (reply : ℕ) → List Access × Bool
serial_init reply =
    let test : List Access =
      outb (com1 + int_enable_reg) 0
      ∷ outb (com1 + line_ctrl_reg) 0x80
      ∷ outb (com1 + 1) 0
      ∷ outb com1 12
      ∷ outb (com1 + line_ctrl_reg) 0
      ∷ outb (com1 + line_ctrl_reg) 0b11
      ∷ outb (com1 + mdm_ctrl_reg) 0b1101
      ∷ outb (com1 + mdm_ctrl_reg) 0b1_1110
      ∷ outb com1 0xae
      ∷ inb com1 (reply % 256)
      ∷ [] in
    if reply % 256 == 0xae
    then (test ++ outb (com1 + mdm_ctrl_reg) 0b1111 ∷ [], true)
    else (test, false)

-- `line_status k` is what the `k`-th read of the line status register gives.
module _ (line_status : ℕ → ℕ) where
  -- The loop that reads the line status until a bit of `mask` is set, with the number of the next read
  -- behind it. `hangs` is the end of the fuel.
  pub wait_loop : (fuel mask k : ℕ) → Outcome (List Access × ℕ)
  wait_loop zero mask k = hangs
  wait_loop (suc fuel) mask k =
      let here = inb (com1 + line_stat_reg) (line_status k % 256) in
      let rest = wait_loop fuel mask (suc k) >>= λ r. done (here ∷ r.0, r.1) in
      if bit_and (line_status k % 256) mask == 0 then rest else done (here ∷ [], suc k)

  -- `received` is the byte in the port; the result has it.
  pub serial_read : (fuel received k : ℕ) → Outcome (List Access × ℕ × ℕ)
  unfolding wait_loop
  serial_read fuel received k = wait_loop fuel 0x1 k >>= λ r.
      done (r.0 ++ inb com1 (received % 256) ∷ [], r.1, received % 256)

  pub serial_write : (fuel byte k : ℕ) → Outcome (List Access × ℕ)
  unfolding wait_loop
  serial_write fuel byte k =
      wait_loop fuel 0x20 k >>= λ r. done (r.0 ++ outb com1 (byte % 256) ∷ [], r.1)

  -- The loop of `serial_print`, for at most `rounds` bytes.
  pub print_loop : (rounds fuel str i k : ℕ) → Bytes → Outcome (List Access × ℕ)
  unfolding serial_write
  print_loop zero fuel str i k m = hangs
  print_loop (suc rounds) fuel str i k m =
      let rest = serial_write fuel (m (str + i)) k >>= λ w.
      (print_loop rounds fuel str (i + 1) w.1 m >>= λ r. done (w.0 ++ r.0, r.1)) in
      if m (str + i) == 0 then done ([], k) else rest

  pub serial_print : (rounds fuel str k : ℕ) → Bytes → Outcome (List Access × ℕ)
  unfolding print_loop
  serial_print rounds fuel str k m = print_loop rounds fuel str 0 k m
