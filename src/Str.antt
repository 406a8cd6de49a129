-- ===== src/Str.antt =====
-- src/lib/string.c over a byte memory: the block operations, `strlen` and `dtoc`.
pub mod Blocks
pub mod Overlap
pub mod Compare
mod Tests
use lord.Prelude.{
  ℕ, zero, suc, ◌+◌, ◌-◌, ◌%◌, ◌<◌, ◌≡◌, Bool, true, false, Option, none, some, ◌==◌, ltb,
  if◌then◌else◌,
}

-- The byte at each address. Addresses do not wrap: a block that runs past the top of the address
-- space is not modelled.
abbrev pub Bytes : Type 0
Bytes = ℕ → ℕ

abbrev pub put : Bytes → ℕ → ℕ → Bytes
put m a v b = if b == a then v else m b

-- The loop of `memset` with `left` rounds to go.
pub memset_loop : (left i dest c : ℕ) → Bytes → Bytes
memset_loop zero i dest c m = m
memset_loop (suc left) i dest c m = memset_loop left (i + 1) dest c (put m (dest + i) (c % 256))

-- `c` is the bit pattern of the C `int`.
unfoldable pub memset : (dest c n : ℕ) → Bytes → Bytes
unfolding memset_loop
memset dest c n m = memset_loop n 0 dest c m

-- The ascending copy of `memcpy` and `memmove`.
pub copy_up : (left i dest src : ℕ) → Bytes → Bytes
copy_up zero i dest src m = m
copy_up (suc left) i dest src m = copy_up left (i + 1) dest src (put m (dest + i) (m (src + i)))

unfoldable pub memcpy : (dest src n : ℕ) → Bytes → Bytes
unfolding copy_up
memcpy dest src n m = copy_up n 0 dest src m

-- The descending copy of `memmove`; the argument is the `i` of the source.
pub copy_down : (i dest src : ℕ) → Bytes → Bytes
copy_down zero dest src m = m
copy_down (suc i) dest src m = copy_down i dest src (put m (dest + i) (m (src + i)))

pub memmove : (dest src n : ℕ) → Bytes → Bytes
unfolding copy_up copy_down
memmove dest src n m =
    if ltb dest src
    then copy_up n 0 dest src m
    else if ltb src dest
    then copy_down n dest src m
    else m

-- The `int` that `memcmp` returns.
pub data Sign : Type 0 where
  minus_one equal plus_one : Sign

unfoldable pub memcmp_loop : (left i s1 s2 : ℕ) → Bytes → Sign
memcmp_loop zero i s1 s2 m = equal
memcmp_loop (suc left) i s1 s2 m =
    let rest = memcmp_loop left (i + 1) s1 s2 m in
    if m (s1 + i) == m (s2 + i)
    then rest
    else if ltb (m (s1 + i)) (m (s2 + i))
    then minus_one
    else plus_one

unfoldable pub memcmp : (s1 s2 n : ℕ) → Bytes → Sign
unfolding memcmp_loop
memcmp s1 s2 n m = memcmp_loop n 0 s1 s2 m

-- The `while` loop of `strlen`; `none` when `fuel` rounds meet no terminator.
pub strlen_loop : (fuel i str : ℕ) → Bytes → Option ℕ
strlen_loop zero i str m = none
strlen_loop (suc fuel) i str m =
    let rest = strlen_loop fuel (i + 1) str m in if m (str + i) == 0 then some i else rest

pub strlen : (fuel str : ℕ) → Bytes → Option ℕ
unfolding strlen_loop
strlen fuel str m = strlen_loop fuel 0 str m

-- `dtoc` on an `int` that is not negative.
unfoldable pub dtoc : ℕ → ℕ
dtoc digit =
    if ltb 15 digit
    then 0
    else if digit == 0
    then b'0'
    else if ltb digit 10
    then b'0' + digit
    else b'A' + digit - 10
