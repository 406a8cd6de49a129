-- ===== src/Stdio/Numeral.antt =====
-- The digits of a number, and the numeral that they make, for the number printers of src/lib/stdio.c.
use mathlib.Core.List.{reverse, reverse_aux-eq}
use native.Mathlib.Nat.{div-add-mod}
use lord.Prelude.{
  ℕ, zero, suc, ◌+◌, ◌*◌, ◌/◌, ◌%◌, ◌^◌, ◌≤◌, ◌<◌, ◌≡◌, refl, ◌≢◌, inl, inr, false, List, [], ◌∷◌,
  ◌++◌, arith, ◌==◌, ==_iff, Bool-cases, length, All,
}
use lord.Str.{dtoc}
use lord.Stdio.Digits.{
  digit_of, IsDigit, dtoc-IsDigit, dtoc-ne-zero_digit, value, digit_of-dtoc, dtoc-ne-zero, numeral,
  div-lt, AllNonzero,
}

mod-lt_base : (n base : ℕ) → 2 ≤ base → base ≤ 16 → n % base < 16
mod-lt_base n base h k = omega arith

pub numeral-AllNonzero :
    (fuel base num : ℕ) → 2 ≤ base → base ≤ 16 → AllNonzero (numeral fuel base num)
unfolding numeral AllNonzero
numeral-AllNonzero zero base num h k = tt
numeral-AllNonzero (suc fuel) base num h k = elim (Bool-cases (num == 0)) [
  | inl done ↦ rw done tt
  | inr more ↦
      rw more
        (dtoc-ne-zero _ (mod-lt_base num base h k), numeral-AllNonzero fuel base (num / base) h k)
]

-- All bytes are digits.
abbrev pub AllDigits : (base : ℕ) → List ℕ → Type 0
AllDigits base out = All (IsDigit base) out

AllDigits-append :
    (base : ℕ) (xs ys : List ℕ) → AllDigits base xs → AllDigits base ys → AllDigits base (xs ++ ys)
AllDigits-append base [] ys h k = k
AllDigits-append base (x ∷ xs) ys h k = (h.0, AllDigits-append base xs ys h.1 k)

-- The first byte, 0 if there is none.
abbrev pub leading : List ℕ → ℕ
leading [] = 0
leading (c ∷ cs) = c

leading-append : (xs ys : List ℕ) → length xs ≢ 0 → leading (xs ++ ys) ≡ leading xs
leading-append [] ys ne = absurd (ne refl)
leading-append (x ∷ xs) ys ne = refl

reverse-numeral :
    (fuel base num : ℕ)
    → (num == 0) ≡ false
    → reverse (numeral (suc fuel) base num)
      ≡ reverse (numeral fuel base (num / base)) ++ dtoc (num % base) ∷ []
unfolding numeral
reverse-numeral fuel base num more =
    rw more (reverse_aux-eq (numeral fuel base (num / base)) (dtoc (num % base) ∷ []))

pub numeral-AllDigits :
    (fuel base num : ℕ) → 2 ≤ base → base ≤ 16 → AllDigits base (reverse (numeral fuel base num))
unfolding numeral
numeral-AllDigits zero base num h k = tt
numeral-AllDigits (suc fuel) base num h k = elim (Bool-cases (num == 0)) [
  | inl done ↦ rw done tt
  | inr more ↦ rw (reverse-numeral fuel base num more) (
      AllDigits-append base (reverse (numeral fuel base (num / base))) (dtoc (num % base) ∷ [])
        (numeral-AllDigits fuel base (num / base) h k)
        (dtoc-IsDigit base (num % base) k (omega (arith, h)), tt))
]

value-append :
    (base acc : ℕ) (xs : List ℕ) (c : ℕ)
    → value base acc (xs ++ c ∷ []) ≡ value base acc xs * base + digit_of c
unfolding value
value-append base acc [] c = refl
value-append base acc (x ∷ xs) c = value-append base (acc * base + digit_of x) xs c

pub value-numeral :
    (fuel base num : ℕ)
    → 2 ≤ base
    → base ≤ 16
    → num < 2 ^ fuel
    → value base 0 (reverse (numeral fuel base num)) ≡ num
unfolding numeral value
value-numeral zero base num h k lt = omega arith
value-numeral (suc fuel) base num h k lt = elim (Bool-cases (num == 0)) [
  | inl done ↦ rw done (ground arith)
  | inr more ↦
      rw
        (
          more,
          reverse_aux-eq (numeral fuel base (num / base)) (dtoc (num % base) ∷ []),
          value-append base 0 (reverse (numeral fuel base (num / base))) (dtoc (num % base)),
          value-numeral fuel base (num / base) h k (div-lt num fuel base h lt),
          digit_of-dtoc (num % base) (mod-lt_base num base h k),
        )
        (grind arith)
]

numeral_zero : (fuel base : ℕ) → numeral fuel base 0 ≡ []
unfolding numeral
numeral_zero zero base = refl
numeral_zero (suc fuel) base = refl

last_digit : (num base : ℕ) → 2 ≤ base → num / base ≡ 0 → num ≢ 0 → num % base ≢ 0
last_digit num base h e ne =
    let sum : base * 0 + num % base ≡ num = rw e at (div-add-mod num base) in omega (arith, sum, ne)

pub length-numeral : (fuel base num : ℕ) → length (numeral fuel base num) ≤ fuel
unfolding numeral
length-numeral zero base num = omega arith
length-numeral (suc fuel) base num = ground (arith, length-numeral fuel base (num / base))

nonempty_of_value : (base : ℕ) (out : List ℕ) → value base 0 out ≢ 0 → length out ≢ 0
unfolding value
nonempty_of_value base [] ne = absurd (ne refl)
nonempty_of_value base (c ∷ cs) ne = omega arith

pub nonempty-numeral :
    (fuel base num : ℕ)
    → 2 ≤ base
    → base ≤ 16
    → num < 2 ^ fuel
    → num ≢ 0
    → length (reverse (numeral fuel base num)) ≢ 0
nonempty-numeral fuel base num h k lt ne =
    nonempty_of_value base (reverse (numeral fuel base num))
      (rw (value-numeral fuel base num h k lt) ne)

pub leading-numeral :
    (fuel base num : ℕ)
    → 2 ≤ base
    → base ≤ 16
    → num < 2 ^ fuel
    → num ≢ 0
    → leading (reverse (numeral fuel base num)) ≢ b'0'
unfolding numeral
leading-numeral zero base num h k lt ne = absurd (omega arith)
leading-numeral (suc fuel) base num h k lt ne =
    let more : (num == 0) ≡ false = ground arith in
    let rest : List ℕ = reverse (numeral fuel base (num / base)) in
    let below = div-lt num fuel base h lt in
    elim (Bool-cases (num / base == 0)) [
      | inl last ↦
          let e : num / base ≡ 0 = (==_iff (num / base) 0).0 last in
          let none_left : numeral fuel base (num / base) ≡ [] = rw e (numeral_zero fuel base) in
          let small : num % base ≢ 0 = last_digit num base h e ne in
          rw (reverse-numeral fuel base num more, none_left)
            (dtoc-ne-zero_digit (num % base) (mod-lt_base num base h k) small)
      | inr left ↦
          let ne' : num / base ≢ 0 = ground arith in
          rw
            (
              reverse-numeral fuel base num more,
              leading-append rest (dtoc (num % base) ∷ [])
                  (nonempty-numeral fuel base (num / base) h k below ne'),
            )
            (leading-numeral fuel base (num / base) h k below ne')
    ]
