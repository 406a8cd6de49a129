-- ===== src/Pci/Address.antt =====
-- The two computations of the address of a function.
use lord.Prelude.{ℕ, ◌+◌, ◌*◌, ◌%◌, ◌^◌, ◌<◌, ◌≡◌, ap, ◌∙◌, arith, bit_or}
use lord.Bits.{or_low}
use lord.Pci.{ConfSpace, get_header, function_address}

-- For the 32 devices of a bus and their 8 functions `get_header` and the shifts of `check_device`
-- give the same address.
pub get_header-function_address :
    (bus device function : ℕ) (c : ConfSpace)
    → device < 32
    → function < 8
    → get_header bus device function c ≡ function_address bus device function c
unfolding get_header function_address
get_header-function_address bus device function c h k =
    let high : bit_or (bus * 2 ^ 20) (device * 2 ^ 15) ≡ (bus * 32 + device) * 2 ^ 15 =
      or_low 20 bus (device * 2 ^ 15) (omega arith) ∙ omega arith in
    rw (high, or_low 15 (bus * 32 + device) (function * 2 ^ 12) (omega arith))
      (ap (λ t. (c.config_space_base_addr + t) % 2 ^ 64) (omega arith))
