-- ===== src/Str/Blocks.antt =====
-- `memset`, and `memcpy` between blocks that do not overlap.
use lord.Prelude.{
  ℕ, zero, suc, ◌+◌, ◌-◌, ◌%◌, ◌≤◌, ◌≡◌, ◌⊎◌, inl, inr, ◌&&◌, arith, leb, ltb, if◌then◌else◌,
}
use lord.Str.{Bytes, put, memset_loop, memset, copy_up, memcpy}

memset_loop_lem :
    (left i dest c : ℕ) (m : Bytes) (a : ℕ)
    → memset_loop left i dest c m a
      ≡ (if leb (dest + i) a && ltb a (dest + i + left) then c % 256 else m a)
unfolding memset_loop
memset_loop_lem zero i dest c m a = ground arith
memset_loop_lem (suc left) i dest c m a =
    ground (arith, memset_loop_lem left (i + 1) dest c (put m (dest + i) (c % 256)) a)

-- `memset` stores the low byte of `c` at each of the `n` addresses from `dest` on, and changes no
-- other byte.
pub memset_lem :
    (dest c n : ℕ) (m : Bytes) (a : ℕ)
    → memset dest c n m a ≡ (if leb dest a && ltb a (dest + n) then c % 256 else m a)
unfolding memset
memset_lem dest c n m a = ground (arith, memset_loop_lem n 0 dest c m a)

-- An ascending copy whose writes stay clear of what it has still to read.
pub copy_up_lem :
    (left i dest src : ℕ) (m : Bytes)
    → (dest ≤ src) ⊎ (src + i + left ≤ dest + i)
    → (a : ℕ)
    → copy_up left i dest src m a
      ≡ (if leb (dest + i) a && ltb a (dest + i + left) then m (src + (a - dest)) else m a)
unfolding copy_up
copy_up_lem zero i dest src m clear a = ground arith
copy_up_lem (suc left) i dest src m clear a =
    ground (arith, copy_up_lem left (i + 1) dest src (put m (dest + i) (m (src + i))) clear' a)
  where
    clear' : (dest ≤ src) ⊎ (src + (i + 1) + left ≤ dest + (i + 1))
    clear' = elim clear [ inl below ↦ inl below | inr above ↦ inr (omega arith) ]

-- `memcpy` between blocks of which the target does not start inside the source: the target
-- receives the bytes that the source held at the call, and no other byte changes.
pub memcpy_lem :
    (dest src n : ℕ) (m : Bytes)
    → (dest ≤ src) ⊎ (src + n ≤ dest)
    → (a : ℕ)
    → memcpy dest src n m a ≡ (if leb dest a && ltb a (dest + n) then m (src + (a - dest)) else m a)
unfolding memcpy
memcpy_lem dest src n m clear a = ground (arith, copy_up_lem n 0 dest src m clear' a)
  where
    clear' : (dest ≤ src) ⊎ (src + 0 + n ≤ dest + 0)
    clear' = elim clear [ inl below ↦ inl below | inr above ↦ inr (omega arith) ]
