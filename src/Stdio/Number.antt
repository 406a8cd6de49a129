-- ===== src/Stdio/Number.antt =====
-- The numerals that the number printers of src/lib/stdio.c print.
use mathlib.Core.List.{reverse, reverse-reverse}
use mathlib.Core.Bool.{and-false}
use lord.Prelude.{
  ℕ, ◌^◌, ◌≤◌, ◌<◌, ◌≡◌, refl, ap, subst, ◌∙◌, sym, ◌≢◌, inl, inr, Bool, true, false, some, List,
  [], ◌∷◌, ◌++◌, arith, ◌==◌, ==_iff, if◌then◌else◌, Bool-cases, length,
}
use lord.Stdio.Numeral.{
  numeral-AllNonzero, AllDigits, leading, numeral-AllDigits, value-numeral, length-numeral,
  nonempty-numeral, leading-numeral,
}
use lord.Stdio.{
  max_interger_size, digits_loop, reverse_loop, c_string, empty_buffer, print_digits, print_number,
  print_int, print_hex, print_bin, serial_print_int, serial_print_hex, serial_print_bin,
}
use lord.Stdio.Digits.{
  value, numeral, digits_loop-numeral, length-reverse, reverse_loop-lem, replicate_room, AllNonzero,
  AllNonzero-reverse, c_string-append,
}

-- The loop's result, reversed into an empty buffer and cut at its terminator.
print_digits-reverse :
    (ds arr rest : List ℕ)
    → AllNonzero ds
    → length ds < max_interger_size
    → arr ≡ ds ++ rest
    → print_digits empty_buffer (some (arr, length ds)) ≡ reverse ds
unfolding print_digits empty_buffer
print_digits-reverse ds arr rest ok lt e =
    let (room, split) =
      replicate_room (reverse ds) max_interger_size (omega (arith, length-reverse ds, lt)) in
    ap c_string (
      subst (λ n. reverse_loop n 0 n arr empty_buffer ≡ reverse ds ++ 0 ∷ room) (length-reverse ds)
        (reverse_loop-lem (reverse ds) [] arr rest empty_buffer (0 ∷ room) _ (omega arith)
          (e ∙ ap (λ t. t ++ rest) (sym (reverse-reverse ds))) split))
    ∙ c_string-append (reverse ds) room (AllNonzero-reverse ds ok)

-- The shared body prints the digits of a 64-bit number that is not 0.
print_number-numeral :
    (zero_case : Bool) (base num : ℕ)
    → 2 ≤ base
    → base ≤ 16
    → num < 2 ^ 64
    → num ≢ 0
    → print_number zero_case base num ≡ reverse (numeral 64 base num)
unfolding print_number
print_number-numeral zero_case base num h k lt ne =
    let nonzero : (num == 0) ≡ false = ground arith in
    let (rest, e) =
      digits_loop-numeral 128 64 base num [] empty_buffer h lt (omega arith) room refl in
    rw (nonzero, and-false, e)
      (print_digits-reverse (numeral 64 base num) _ rest (numeral-AllNonzero 64 base num h k)
        (omega (arith, length-numeral 64 base num)) refl)
  where
    room : length empty_buffer ≡ 128
    room = unfold empty_buffer in refl

print_number_zero :
    (zero_case : Bool) (base : ℕ)
    → print_number zero_case base 0 ≡ (if zero_case then b'0' ∷ [] else [])
unfolding print_number print_digits digits_loop empty_buffer reverse_loop c_string
print_number_zero true base = refl
print_number_zero false base = refl

-- `Prints base num out`: `out` is the numeral of `num` to the base `base`, of at most 64 digits, the
-- figures and the capital letters from A on, and without a zero in front.
abbrev pub Prints : (base num : ℕ) → List ℕ → Type 0
Prints base num out =
    (value base 0 out ≡ num)
    × AllDigits base out
    × (leading out ≢ b'0')
    × (length out ≤ 64)
    × (length out ≢ 0)

print_number-Prints :
    (zero_case : Bool) (base num : ℕ)
    → 2 ≤ base
    → base ≤ 16
    → num < 2 ^ 64
    → num ≢ 0
    → Prints base num (print_number zero_case base num)
print_number-Prints zero_case base num h k lt ne =
    rw (print_number-numeral zero_case base num h k lt ne) (
      value-numeral 64 base num h k lt,
      numeral-AllDigits 64 base num h k,
      leading-numeral 64 base num h k lt ne,
      omega (arith, length-reverse (numeral 64 base num), length-numeral 64 base num),
      nonempty-numeral 64 base num h k lt ne,
    )

-- For a 64-bit number other than 0, `print_int`, `print_hex` and `print_bin` print between 1 and 64
-- bytes, each a digit of the base 10, 16 or 2 (the figures, and capital letters above 9), without a
-- zero in front, that read as a numeral to that base are the number itself.
pub print-Prints :
    (num : ℕ)
    → num < 2 ^ 64
    → num ≢ 0
    → Prints 10 num (print_int num) × Prints 16 num (print_hex num) × Prints 2 num (print_bin num)
unfolding print_int print_hex print_bin
print-Prints num lt ne = (
  print_number-Prints true 10 num (omega arith) (omega arith) lt ne,
  print_number-Prints true 16 num (omega arith) (omega arith) lt ne,
  print_number-Prints false 2 num (omega arith) (omega arith) lt ne,
)

serial_number :
    (base num : ℕ)
    → 2 ≤ base
    → base ≤ 16
    → num < 2 ^ 64
    → print_number false base num ≡ (if num == 0 then [] else print_number true base num)
serial_number base num h k lt = elim (Bool-cases (num == 0)) [
  | inl zero_arg ↦
      let e : num ≡ 0 = (==_iff num 0).0 zero_arg in rw (zero_arg, e) (print_number_zero false base)
  | inr more ↦
      let ne : num ≢ 0 = ground arith in
      rw more (
        print_number-numeral false base num h k lt ne
        ∙ sym (print_number-numeral true base num h k lt ne))
]

-- The serial printers print the same bytes as those of the framebuffer, except that for 0
-- `serial_print_int` and `serial_print_hex` print nothing where `print_int` and `print_hex` print
-- the one digit `0`.
pub serial_print_lem :
    (num : ℕ)
    → num < 2 ^ 64
    → (serial_print_int num ≡ (if num == 0 then [] else print_int num))
      × (serial_print_hex num ≡ (if num == 0 then [] else print_hex num))
      × (serial_print_bin num ≡ print_bin num)
      × (print_int 0 ≡ b'0' ∷ [])
      × (print_hex 0 ≡ b'0' ∷ [])
unfolding serial_print_int serial_print_hex serial_print_bin print_int print_hex print_bin
serial_print_lem num lt = (
  serial_number 10 num (omega arith) (omega arith) lt,
  serial_number 16 num (omega arith) (omega arith) lt,
  refl,
  print_number_zero true 10,
  print_number_zero true 16,
)
