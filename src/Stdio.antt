-- ===== src/Stdio.antt =====
-- The number printers of src/lib/stdio.c. Each returns the bytes that it hands to
-- `kernel_framebuffer_print` or `kernel_serial_print`.
pub mod Digits
pub mod Format
pub mod Number
pub mod Numeral
mod Tests
use lord.Prelude.{
  ℕ, zero, suc, ◌+◌, ◌-◌, ◌/◌, ◌%◌, ◌≡◌, Bool, true, false, Option, none, some, List, [], ◌∷◌, ◌==◌,
  if◌then◌else◌, get_or, set, replicate, ◌&&◌,
}
use lord.Str.{dtoc}

abbrev pub max_interger_size : ℕ
max_interger_size = 128

-- The `while (num != 0)` loop: the digits filled into `arr`, and their number `j`. The early
-- `return` at `j == MAX_INTERGER_SIZE` is `none`.
pub digits_loop : (left base num j : ℕ) → List ℕ → Option (List ℕ × ℕ)
digits_loop zero base num j arr = none
digits_loop (suc left) base num j arr =
    let rest = digits_loop left base (num / base) (j + 1) (set arr j (dtoc (num % base))) in
    if num == 0 then some (arr, j) else if j + 1 == max_interger_size then none else rest

-- `for (int i = 0; i < j; i++) buffer[i] = arr[j - i - 1];`
pub reverse_loop : (left i j : ℕ) → (arr buffer : List ℕ) → List ℕ
reverse_loop zero i j arr buffer = buffer
reverse_loop (suc left) i j arr buffer =
    reverse_loop left (i + 1) j arr (set buffer i (get_or arr (j - i - 1) 0))

-- The bytes of a buffer before its terminator: `strlen(buffer)` bytes of `buffer`.
pub c_string : List ℕ → List ℕ
c_string [] = []
c_string (c ∷ cs) = if c == 0 then [] else c ∷ c_string cs

-- `char buffer[MAX_INTERGER_SIZE] = {0};`, and the same for `arr`.
pub empty_buffer : List ℕ
empty_buffer = replicate max_interger_size 0

-- What a printer does with the outcome of its loop.
pub print_digits : List ℕ → Option (List ℕ × ℕ) → List ℕ
unfolding reverse_loop c_string
print_digits buffer none = []
print_digits buffer (some (arr, j)) = c_string (reverse_loop j 0 j arr buffer)

-- The body that the printers share; `zero_case` tells whether the printer has the test that puts
-- `'0'` into the buffer for 0.
pub print_number : Bool → (base num : ℕ) → List ℕ
print_number zero_case base num =
    let buffer = if zero_case && num == 0 then set empty_buffer 0 b'0' else empty_buffer in
    print_digits buffer (digits_loop max_interger_size base num 0 empty_buffer)

unfoldable pub print_int : ℕ → List ℕ
print_int num = print_number true 10 num

unfoldable pub print_hex : ℕ → List ℕ
print_hex num = print_number true 16 num

unfoldable pub print_bin : ℕ → List ℕ
print_bin num = print_number false 2 num

unfoldable pub serial_print_int : ℕ → List ℕ
serial_print_int num = print_number false 10 num

unfoldable pub serial_print_hex : ℕ → List ℕ
serial_print_hex num = print_number false 16 num

unfoldable pub serial_print_bin : ℕ → List ℕ
serial_print_bin num = print_number false 2 num
