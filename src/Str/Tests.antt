-- ===== src/Str/Tests.antt =====
-- Runs of the functions of src/lib/string.c, and instances of their theorems.
use lord.Prelude.{◌≡◌, refl, if◌then◌else◌, leb, ltb, ◌&&◌, ◌-◌}
use lord.Str.{Bytes, minus_one, memcpy, memmove, memcmp, dtoc}
use lord.Str.Overlap.{memmove_lem}

-- 1 to 5 at the addresses 10 to 14, zero elsewhere.
abbrev five : Bytes
five a = if leb 10 a && ltb a 15 then a - 9 else 0

memmove_runs : memmove 11 10 4 five 14 ≡ 4
unfolding memmove
memmove_runs = refl

memcpy_smears : memcpy 11 10 4 five 14 ≡ 1
unfolding memcpy
memcpy_smears = refl

dtoc_runs : dtoc 11 ≡ b'B'
unfolding dtoc
dtoc_runs = refl

memmove_lem_example : memmove 11 10 4 five 14 ≡ 4
memmove_lem_example = memmove_lem 11 10 4 five 14

memcmp_runs : memcmp 10 11 3 five ≡ minus_one
unfolding memcmp
memcmp_runs = refl
