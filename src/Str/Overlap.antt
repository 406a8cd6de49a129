-- ===== src/Str/Overlap.antt =====
-- `memmove` on blocks that may overlap in any way.
use lord.Prelude.{ℕ, zero, suc, ◌+◌, ◌-◌, ◌≤◌, ◌≡◌, ap, inl, ◌&&◌, arith, leb, ltb, if◌then◌else◌}
use lord.Str.{Bytes, put, copy_down, memmove}
use lord.Str.Blocks.{copy_up_lem}

-- A descending copy to a higher address.
copy_down_lem :
    (i dest src : ℕ) (m : Bytes)
    → src ≤ dest
    → (a : ℕ)
    → copy_down i dest src m a
      ≡ (if leb dest a && ltb a (dest + i) then m (src + (a - dest)) else m a)
unfolding copy_down
copy_down_lem zero dest src m above a = ground arith
copy_down_lem (suc i) dest src m above a =
    ground (arith, copy_down_lem i dest src (put m (dest + i) (m (src + i))) above a)

-- Whatever the overlap, `memmove` leaves in the target the bytes that the source held at the call,
-- and changes no byte outside the target.
pub memmove_lem :
    (dest src n : ℕ) (m : Bytes) (a : ℕ)
    → memmove dest src n m a
      ≡ (if leb dest a && ltb a (dest + n) then m (src + (a - dest)) else m a)
unfolding memmove
memmove_lem dest src n m a = ground (
  arith,
  λ (h : dest ≤ src). copy_up_lem n 0 dest src m (inl h) a,
  λ (h : src ≤ dest). copy_down_lem n dest src m h a,
  same,
)
  where
    same : dest ≡ src → dest ≤ a → m (src + (a - dest)) ≡ m a
    same e h = ap m (omega arith)
