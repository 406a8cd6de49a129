-- ===== src/Bits.antt =====
-- `&`, `|` and shifts of C on numbers, as arithmetic: masks, flags and packed fields.
use native.Mathlib.Nat.{
  pow-suc, one-le-pow, le_refl, mul_comm, div-div-eq-div-mul, mod-eq-sub-div-mul, div-mul-le_self,
}
use Prim.Native.Nat.{max, digits, bitwise, bit_and-bitwise, bit_or-bitwise}
use lord.Prelude.{
  ℕ, zero, suc, ◌+◌, ◌-◌, ◌*◌, ◌/◌, ◌%◌, ◌^◌, ◌≤◌, ◌<◌, ◌≡◌, refl, ap, arith, min, bit_and, bit_or,
}

abbrev pub shl : ℕ → ℕ → ℕ
shl x k = x * 2 ^ k

abbrev pub shr : ℕ → ℕ → ℕ
shr x k = x / 2 ^ k

-- The recursion on binary digits that the operations mean, whatever its fuel.
fuel_irrelevant :
    (z : ℕ → ℕ) (f : ℕ → ℕ → ℕ) (n m a b : ℕ) → a ≤ n → a ≤ m → digits z f n a b ≡ digits z f m a b
fuel_irrelevant z f zero zero zero b p q = refl
fuel_irrelevant z f (suc n) zero zero b p q = refl
fuel_irrelevant z f zero (suc m) zero b p q = refl
fuel_irrelevant z f (suc n) (suc m) zero b p q = refl
fuel_irrelevant z f zero m (suc a) b p q = absurd (omega arith)
fuel_irrelevant z f (suc n) zero (suc a) b p q = absurd (omega arith)
fuel_irrelevant z f (suc n) (suc m) (suc a) b p q =
    ap (λ t. t * 2 + f (suc a % 2) (b % 2))
      (fuel_irrelevant z f n m (suc a / 2) (b / 2) (omega arith) (omega arith))

one_digit :
    (z : ℕ → ℕ) (f : ℕ → ℕ → ℕ) (a b : ℕ)
    → bitwise z f (suc a) b ≡ bitwise z f (suc a / 2) (b / 2) * 2 + f (suc a % 2) (b % 2)
one_digit z f a b =
    ap (λ t. t * 2 + f (suc a % 2) (b % 2))
      (fuel_irrelevant z f a (suc a / 2) (suc a / 2) (b / 2) (omega arith) (le_refl _))

pub and_digit : (a b : ℕ) → bit_and a b ≡ bit_and (a / 2) (b / 2) * 2 + min (a % 2) (b % 2)
and_digit zero b = simp bit_and-bitwise (omega arith)
and_digit (suc a) b = simp bit_and-bitwise (one_digit (λ y. 0) min a b)

pub or_digit : (a b : ℕ) → bit_or a b ≡ bit_or (a / 2) (b / 2) * 2 + max (a % 2) (b % 2)
or_digit zero b = simp bit_or-bitwise (omega arith)
or_digit (suc a) b = simp bit_or-bitwise (one_digit (λ y. y) max a b)

and_zero_below : (n a : ℕ) → a ≤ n → bit_and a 0 ≡ 0
and_zero_below zero a h = let e : a ≡ 0 = omega arith in rw e refl
and_zero_below (suc n) zero h = refl
and_zero_below (suc n) (suc a) h =
    omega (arith, and_digit (suc a) 0, and_zero_below n (suc a / 2) (omega arith))

or_zero_below : (n a : ℕ) → a ≤ n → bit_or a 0 ≡ a
or_zero_below zero a h = let e : a ≡ 0 = omega arith in rw e refl
or_zero_below (suc n) zero h = refl
or_zero_below (suc n) (suc a) h =
    omega (arith, or_digit (suc a) 0, or_zero_below n (suc a / 2) (omega arith))

pub and_zero : (a : ℕ) → bit_and a 0 ≡ 0
and_zero a = and_zero_below a a (le_refl a)

pub or_zero : (a : ℕ) → bit_or a 0 ≡ a
or_zero a = or_zero_below a a (le_refl a)

double : (q k : ℕ) → q * 2 ^ suc k ≡ q * 2 ^ k * 2
double q k = omega (arith, ap (λ (t : ℕ). q * t) (pow-suc 2 k))

halve : (a k : ℕ) → a / 2 / 2 ^ k ≡ a / 2 ^ suc k
halve a k = rw (div-div-eq-div-mul a 2 (2 ^ k), pow-suc 2 k, mul_comm 2 (2 ^ k)) refl

mod-halve : (a k : ℕ) → a % 2 ^ suc k ≡ a / 2 % 2 ^ k * 2 + a % 2
mod-halve a k = omega (
  arith,
  mod-eq-sub-div-mul a (2 ^ suc k),
  mod-eq-sub-div-mul (a / 2) (2 ^ k),
  ap (λ t. t * 2 ^ suc k) (halve a k),
  double (a / 2 / 2 ^ k) k,
  div-mul-le_self (a / 2) (2 ^ k),
)

zero_or_below : (n a : ℕ) → a ≤ n → bit_or 0 a ≡ a
zero_or_below zero a h = let e : a ≡ 0 = omega arith in rw e refl
zero_or_below (suc n) zero h = refl
zero_or_below (suc n) (suc a) h =
    omega (arith, or_digit 0 (suc a), zero_or_below n (suc a / 2) (omega arith))

pub zero_or : (a : ℕ) → bit_or 0 a ≡ a
zero_or a = zero_or_below a a (le_refl a)

-- `a & ((1 << k) - 1)`
pub and_mask : (k a : ℕ) → bit_and a (2 ^ k - 1) ≡ a % 2 ^ k
and_mask zero a = omega (arith, and_zero a)
and_mask (suc k) a =
    let half : (2 ^ suc k - 1) / 2 ≡ 2 ^ k - 1 = omega (arith, pow-suc 2 k, one-le-pow k 2) in
    let digit = rw (half, and_mask k (a / 2)) at (and_digit a (2 ^ suc k - 1)) in
    omega (arith, digit, pow-suc 2 k, one-le-pow k 2, mod-halve a k)

-- `a & (b << k)`
pub and_shl : (k a b : ℕ) → bit_and a (b * 2 ^ k) ≡ bit_and (a / 2 ^ k) b * 2 ^ k
and_shl zero a b =
    let e : b * 1 ≡ b = omega arith in let f : a / 1 ≡ a = omega arith in rw (e, f) (omega arith)
and_shl (suc k) a b =
    let half : b * 2 ^ suc k / 2 ≡ b * 2 ^ k = omega (arith, double b k) in
    let digit = rw (half, and_shl k (a / 2) b, halve a k) at (and_digit a (b * 2 ^ suc k)) in
    omega (arith, digit, double b k, double (bit_and (a / 2 ^ suc k) b) k)

-- `(q << k) | r`, where `r` fits in `k` bits.
pub or_low : (k q r : ℕ) → r < 2 ^ k → bit_or (q * 2 ^ k) r ≡ q * 2 ^ k + r
or_low zero q r h = let e : r ≡ 0 = omega arith in rw (e, or_zero (q * 1)) (omega arith)
or_low (suc k) q r h =
    let half : q * 2 ^ suc k / 2 ≡ q * 2 ^ k = omega (arith, double q k) in
    let low : r / 2 < 2 ^ k = omega (arith, pow-suc 2 k) in
    let digit = rw (half, or_low k q (r / 2) low) at (or_digit (q * 2 ^ suc k) r) in
    omega (arith, digit, double q k)

-- A field of `w` bits at bit `k`: `a & (((1 << w) - 1) << k)`.
pub and_field : (k w a : ℕ) → bit_and a ((2 ^ w - 1) * 2 ^ k) ≡ a / 2 ^ k % 2 ^ w * 2 ^ k
and_field k w a = rw (and_shl k a (2 ^ w - 1), and_mask w (a / 2 ^ k)) refl

-- Flags below bit `k` are joined among themselves.
pub or_high :
    (k q a b : ℕ) → a < 2 ^ k → b < 2 ^ k → bit_or (q * 2 ^ k + a) b ≡ q * 2 ^ k + bit_or a b
or_high zero q a b h g =
    let e : a ≡ 0 = omega arith in
    let f : b ≡ 0 = omega arith in rw (e, f, or_zero (q * 1 + 0)) refl
or_high (suc k) q a b h g =
    let half : (q * 2 ^ suc k + a) / 2 ≡ q * 2 ^ k + a / 2 = omega (arith, double q k) in
    let la : a / 2 < 2 ^ k = omega (arith, pow-suc 2 k) in
    let lb : b / 2 < 2 ^ k = omega (arith, pow-suc 2 k) in
    let digit = rw (half, or_high k q (a / 2) (b / 2) la lb) at (or_digit (q * 2 ^ suc k + a) b) in
    omega (arith, digit, double q k, or_digit a b)

-- `r | (q << k)`, where `r` fits in `k` bits.
pub or_shl : (k q r : ℕ) → r < 2 ^ k → bit_or r (q * 2 ^ k) ≡ q * 2 ^ k + r
or_shl zero q r h = let e : r ≡ 0 = omega arith in rw (e, zero_or (q * 1)) (omega arith)
or_shl (suc k) q r h =
    let half : q * 2 ^ suc k / 2 ≡ q * 2 ^ k = omega (arith, double q k) in
    let low : r / 2 < 2 ^ k = omega (arith, pow-suc 2 k) in
    let digit = rw (half, or_shl k q (r / 2) low) at (or_digit r (q * 2 ^ suc k)) in
    omega (arith, digit, double q k)
