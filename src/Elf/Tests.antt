-- ===== src/Elf/Tests.antt =====
-- A header with the magic number, and a null pointer.
use lord.Prelude.{◌≡◌, refl, none, some, ◌==◌, if◌then◌else◌}
use lord.Str.{Bytes}
use lord.Elf.{check_elf, kernel_load_elf64}

abbrev header : Bytes
header a =
    if a == 0x100
    then 0x7f
    else if a == 0x101
    then b'E'
    else if a == 0x102
    then b'L'
    else if a == 0x103
    then b'F'
    else 0

check_elf_accepts : check_elf header 0x100 ≡ 0
unfolding check_elf
check_elf_accepts = refl

-- The header is fine, and the loader refuses it.
kernel_load_elf64_refuses : kernel_load_elf64 header 0x100 ≡ some 1
unfolding kernel_load_elf64
kernel_load_elf64_refuses = refl

kernel_load_elf64_null : kernel_load_elf64 header 0 ≡ none
unfolding kernel_load_elf64
kernel_load_elf64_null = refl
