-- ===== src/Stdio/Digits.antt =====
-- The loops of the number printers of src/lib/stdio.c on the digits of a number.
use mathlib.Core.List.{map, reverse, reverse-append, reverse_aux-eq, append_assoc, append-nil}
use native.Mathlib.Nat.{pow-suc}
use lord.Prelude.{
  ℕ, zero, suc, ◌+◌, ◌-◌, ◌*◌, ◌/◌, ◌%◌, ◌^◌, ◌≤◌, ◌<◌, ◌≡◌, refl, ap, ◌∙◌, ◌≢◌, ◌⊎◌, inl, inr,
  false, some, List, [], ◌∷◌, ◌++◌, arith, ltb, ◌==◌, if◌then◌else◌, Bool-cases, get_or, set,
  replicate, length, length-append,
}
use lord.Str.{dtoc}
use lord.Stdio.{max_interger_size, digits_loop, reverse_loop, c_string}

-- The digit that a character stands for, and the number that a numeral does.
abbrev pub digit_of : ℕ → ℕ
digit_of c = if ltb c b'A' then c - b'0' else c - b'A' + 10

unfoldable pub value : (base acc : ℕ) → List ℕ → ℕ
value base acc [] = acc
value base acc (c ∷ cs) = value base (acc * base + digit_of c) cs

-- The characters that are digits to the base `base`.
abbrev pub IsDigit : (base c : ℕ) → Type 0
IsDigit base c =
    ((b'0' ≤ c) × (c ≤ b'9') × (c < b'0' + base)) ⊎ ((b'A' ≤ c) × (c + 10 < b'A' + base))

pub dtoc-IsDigit : (base d : ℕ) → base ≤ 16 → d < base → IsDigit base (dtoc d)
unfolding dtoc
dtoc-IsDigit base d h k = elim (Bool-cases (ltb d 10)) [
  | inl figure ↦ inl (ground arith, ground arith, ground arith)
  | inr letter ↦ inr (ground arith, ground arith)
]

pub dtoc-ne-zero_digit : (d : ℕ) → d < 16 → d ≢ 0 → dtoc d ≢ b'0'
unfolding dtoc
dtoc-ne-zero_digit d h ne = ground arith

pub digit_of-dtoc : (d : ℕ) → d < 16 → digit_of (dtoc d) ≡ d
unfolding dtoc
digit_of-dtoc d h = ground arith

pub dtoc-ne-zero : (d : ℕ) → d < 16 → dtoc d ≢ 0
unfolding dtoc
dtoc-ne-zero d h = ground arith

-- The digits of `num`, the last one first.
unfoldable pub numeral : (fuel base num : ℕ) → List ℕ
numeral zero base num = []
numeral (suc fuel) base num =
    let rest = numeral fuel base (num / base) in if num == 0 then [] else dtoc (num % base) ∷ rest

-- Lists filled from the left.
pub set-append :
    (xs ys : List ℕ) (y v : ℕ) → set (xs ++ y ∷ ys) (length xs) v ≡ (xs ++ v ∷ []) ++ ys
set-append [] ys y v = refl
set-append (x ∷ xs) ys y v = ap (λ t. x ∷ t) (set-append xs ys y v)

pub get_or-append : (xs ys : List ℕ) (y : ℕ) → get_or (xs ++ y ∷ ys) (length xs) 0 ≡ y
get_or-append [] ys y = refl
get_or-append (x ∷ xs) ys y = get_or-append xs ys y

pub div-lt : (n k base : ℕ) → 2 ≤ base → n < 2 ^ suc k → n / base < 2 ^ k
div-lt n k base h lt = grind (arith, pow-suc 2 k)

-- With room for `k` binary digits the loop ends by its test, behind the digits of `num`.
pub digits_loop-numeral :
    (left k base num : ℕ) (ds tail : List ℕ)
    → 2 ≤ base
    → num < 2 ^ k
    → k < left
    → length tail ≡ left
    → length ds + left ≡ max_interger_size
    → (rest : List ℕ) × (digits_loop left base num (length ds) (ds ++ tail)
        ≡ some ((ds ++ numeral k base num) ++ rest, length (ds ++ numeral k base num)))
unfolding digits_loop numeral
digits_loop-numeral zero k base num ds tail h lt fuel e room = absurd (omega arith)
digits_loop-numeral (suc left) zero base num ds tail h lt fuel e room =
    let done : num ≡ 0 = omega arith in (tail, rw (done, append-nil))
digits_loop-numeral (suc left) (suc k) base num ds [] h lt fuel e room = absurd (omega arith)
digits_loop-numeral (suc left) (suc k) base num ds (y ∷ tail) h lt fuel e room =
    elim (Bool-cases (num == 0)) [
      | inl done ↦ (y ∷ tail, rw (done, append-nil))
      | inr more ↦
          let d : ℕ = dtoc (num % base) in
          let (rest, eq) =
            digits_loop-numeral left k base (num / base) (ds ++ d ∷ []) tail h
              (div-lt num k base h lt) (omega arith) (omega arith)
              (omega (arith, length-append ds (d ∷ []))) in
          let full : (length ds + 1 == max_interger_size) ≡ false = ground arith in
          let len : length (ds ++ d ∷ []) ≡ length ds + 1 =
            omega (arith, length-append ds (d ∷ [])) in
          (rest, rw (more, full, set-append ds tail y d, ← len, eq, append_assoc ds (d ∷ [])))
    ]

pub length-reverse : (xs : List ℕ) → length (reverse xs) ≡ length xs
length-reverse [] = refl
length-reverse (x ∷ xs) =
    rw (reverse-append (x ∷ []) xs)
      (omega (arith, length-append (reverse xs) (x ∷ []), length-reverse xs))

-- What is still to be copied is the start of `arr`, in reverse.
pub reverse_loop-lem :
    (us pre arr tail buffer rest : List ℕ) (j : ℕ)
    → j ≡ length pre + length us
    → arr ≡ reverse us ++ tail
    → buffer ≡ pre ++ (map (λ _. 0) us ++ rest)
    → reverse_loop (length us) (length pre) j arr buffer ≡ (pre ++ us) ++ rest
unfolding reverse_loop
reverse_loop-lem [] pre arr tail buffer rest j e ea eb = rw (eb, append-nil) refl
reverse_loop-lem (u ∷ us) pre arr tail buffer rest j e ea eb =
    rw (reverse_loop, copied, len)
      (reverse_loop-lem us (pre ++ u ∷ []) arr (u ∷ tail) _ rest j (omega (arith, len)) ea' refl
        ∙ ap (λ t. t ++ rest) (append_assoc pre (u ∷ []) us))
  where
    ea' : arr ≡ reverse us ++ u ∷ tail
    ea' =
        ea
        ∙ ap (λ t. t ++ tail) (reverse_aux-eq us (u ∷ []))
        ∙ append_assoc (reverse us) (u ∷ []) tail

    idx : j - length pre - 1 ≡ length (reverse us)
    idx = omega (arith, length-reverse us, e)

    len : length pre + 1 ≡ length (pre ++ u ∷ [])
    len = omega (arith, length-append pre (u ∷ []))

    digit : get_or arr (j - length pre - 1) 0 ≡ u
    digit = rw (idx, ea') (get_or-append (reverse us) tail u)

    copied :
        set buffer (length pre) (get_or arr (j - length pre - 1) 0)
        ≡ (pre ++ u ∷ []) ++ (map (λ _. 0) us ++ rest)
    copied =
        rw digit (ap (λ t. set t (length pre) u) eb ∙ set-append pre (map (λ _. 0) us ++ rest) 0 u)

-- An empty buffer with room for `us` and a terminator.
pub replicate_room :
    (us : List ℕ) (n : ℕ)
    → length us < n
    → (rest : List ℕ) × (replicate n 0 ≡ map (λ _. 0) us ++ 0 ∷ rest)
replicate_room us zero lt = absurd (omega arith)
replicate_room [] (suc n) lt = (replicate n 0, refl)
replicate_room (u ∷ us) (suc n) lt =
    let (rest, e) = replicate_room us n (omega arith) in (rest, ap (λ t. 0 ∷ t) e)

unfoldable pub AllNonzero : List ℕ → Type 0
AllNonzero [] = Unit
AllNonzero (c ∷ cs) = (c ≢ 0) × AllNonzero cs

pub AllNonzero-append : (xs ys : List ℕ) → AllNonzero xs → AllNonzero ys → AllNonzero (xs ++ ys)
unfolding AllNonzero
AllNonzero-append [] ys h k = k
AllNonzero-append (x ∷ xs) ys h k = (h.0, AllNonzero-append xs ys h.1 k)

pub AllNonzero-reverse : (xs : List ℕ) → AllNonzero xs → AllNonzero (reverse xs)
unfolding AllNonzero
AllNonzero-reverse [] h = tt
AllNonzero-reverse (x ∷ xs) h =
    rw (reverse_aux-eq xs (x ∷ []))
      (AllNonzero-append (reverse xs) (x ∷ []) (AllNonzero-reverse xs h.1) (h.0, tt))

pub c_string-append : (xs rest : List ℕ) → AllNonzero xs → c_string (xs ++ 0 ∷ rest) ≡ xs
unfolding c_string AllNonzero
c_string-append [] rest h = refl
c_string-append (x ∷ xs) rest h = ground (arith, c_string-append xs rest h.1)
