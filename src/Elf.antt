-- ===== src/Elf.antt =====
-- src/elf/elf.c: the check of an ELF header.
mod Tests
use lord.Prelude.{
  ℕ, ◌+◌, ◌≡◌, ◌≢◌, refl, true, false, ◌&&◌, Bool-cases, inl, inr, Option, none, some, arith, ◌==◌,
  if◌then◌else◌,
}
use lord.Str.{Bytes}

-- The status is 0 for KERNEL_STATUS_SUCCESS and 1 for KERNEL_STATUS_ERROR; `ehdr` is the address of
-- the header, 0 for a null pointer.
unfoldable pub check_elf : Bytes → (ehdr : ℕ) → ℕ
check_elf m ehdr =
    if ehdr == 0
    then 1
    else if m ehdr == 0x7f
        && (m (ehdr + 1) == b'E' && (m (ehdr + 2) == b'L' && m (ehdr + 3) == b'F'))
    then 0
    else 1

-- `none` where the function ends without a `return`: the value is not determined.
unfoldable pub kernel_load_elf64 : Bytes → (ehdr : ℕ) → Option ℕ
unfolding check_elf
kernel_load_elf64 m ehdr = if check_elf m ehdr == 0 then some 1 else none
