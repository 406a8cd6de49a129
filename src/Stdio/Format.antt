-- ===== src/Stdio/Format.antt =====
-- The formatted output of src/lib/stdio.c: `kprintf`, `serial_kprintf`, `klog`, and `toupper`. Texts
-- are the bytes before their terminator.
pub mod Template
pub mod Serial
pub mod Upper
mod Tests
use Prim.Native.Char.{code}
use Prim.Native.String.{String}
use lord.Prelude.{
  ℕ, ◌%◌, ◌^◌, Bool, true, false, ◌||◌, Option, none, some, List, [], ◌∷◌, ◌++◌, ◌==◌,
  if◌then◌else◌,
}
use lord.Stdio.{
  print_int, print_hex, print_bin, serial_print_int, serial_print_hex, serial_print_bin,
}

abbrev pub text : String → List ℕ
text String.[] = []
text (String.◌∷◌ c s) = code c ∷ text s

-- An argument behind the format: a 64-bit word, or a text.
pub data Arg : Type 0 where
  num : ℕ → Arg
  str : List ℕ → Arg

-- The number printers of one of the two outputs.
pub record Printers : Type 0 where
  pub int : ℕ → List ℕ
  pub hex : ℕ → List ℕ
  pub bin : ℕ → List ℕ

abbrev pub framebuffer : Printers
framebuffer = record { int = print_int; hex = print_hex; bin = print_bin }

abbrev pub serial : Printers
serial = record { int = serial_print_int; hex = serial_print_hex; bin = serial_print_bin }

-- `va_arg`, with what it prints and the arguments behind it; `none` where the argument is missing or
-- of the other kind.
abbrev pub take_num : (ℕ → List ℕ) → List Arg → Option (List ℕ × List Arg)
take_num f [] = none
take_num f (num n ∷ args) = some (f n, args)
take_num f (str s ∷ args) = none

abbrev pub take_str : List Arg → Option (List ℕ × List Arg)
take_str [] = none
take_str (num n ∷ args) = none
take_str (str s ∷ args) = some (s, args)

-- The cases of FORMAT_SPECIFIER. Behind `l` the character itself is incremented, so the inner
-- `switch` sees `m` and prints nothing.
unfoldable pub directive : Printers → ℕ → List Arg → Option (List ℕ × List Arg)
directive p c args =
    if c == b'n'
    then some (b'\n' ∷ [], args)
    else if c == b'k'
    then take_str args
    else if c == b'd' || c == b'i'
    then take_num p.int args
    else if c == b's'
    then take_str args
    else if c == b'c'
    then take_num (λ n. n % 2 ^ 8 ∷ []) args
    else if c == b'x'
    then take_num p.hex args
    else if c == b'b'
    then take_num p.bin args
    else some ([], args)

-- `state`
pub data Mode : Type 0 where
  normal : Mode
  format_specifier : Mode

-- Output before that of the rest.
abbrev pub emit : List ℕ → Option (List ℕ) → Option (List ℕ)
emit out none = none
emit out (some rest) = some (out ++ rest)

-- The loop over the format.
unfoldable pub format_loop : Printers → Mode → List ℕ → List Arg → Option (List ℕ)
unfolding directive
format_loop p mode [] args = some []
format_loop p normal (c ∷ cs) args =
    let rest = format_loop p (if c == b'{' then format_specifier else normal) cs args in
    if c == b'{' then rest else emit (c ∷ []) rest
format_loop p format_specifier (c ∷ cs) args = elim (directive p c args) [
  | none ↦ none
  | some r ↦ emit r.0 (format_loop p (if c == b'}' then normal else format_specifier) cs r.1)
]

-- What is printed. `printf_lock` is free, and free again behind the call.
unfoldable pub kprintf : List ℕ → List Arg → Option (List ℕ)
kprintf format_string args = format_loop framebuffer normal format_string args

unfoldable pub serial_kprintf : List ℕ → List Arg → Option (List ℕ)
serial_kprintf format_string args = format_loop serial normal format_string args

abbrev pub ansi_color_red : List ℕ
ansi_color_red = 0x1b ∷ text "[31m"

abbrev pub ansi_color_green : List ℕ
ansi_color_green = 0x1b ∷ text "[32m"

abbrev pub ansi_color_yellow : List ℕ
ansi_color_yellow = 0x1b ∷ text "[33m"

abbrev pub ansi_color_magenta : List ℕ
ansi_color_magenta = 0x1b ∷ text "[35m"

abbrev pub ansi_color_reset : List ℕ
ansi_color_reset = 0x1b ∷ text "[0m"

pub data Level : Type 0 where
  log_info : Level
  log_warn : Level
  log_error : Level
  log_success : Level

-- The framebuffer output of `klog` at the time `stamp`.
pub klog_framebuffer : Level → (stamp : ℕ) → (func msg : List ℕ) → Option (List ℕ)
klog_framebuffer log_info stamp func msg =
    kprintf (text "[{d}] info: {s}: {sn}") (num stamp ∷ str func ∷ str msg ∷ [])
klog_framebuffer log_warn stamp func msg =
    kprintf (text "[{d}] {k}warning{k}: {s}: {sn}")
      (num stamp ∷ str ansi_color_yellow ∷ str ansi_color_reset ∷ str func ∷ str msg ∷ [])
klog_framebuffer log_error stamp func msg =
    kprintf (text "[{d}] {k}error{k}: {s}: {sn}")
      (num stamp ∷ str ansi_color_red ∷ str ansi_color_reset ∷ str func ∷ str msg ∷ [])
klog_framebuffer log_success stamp func msg =
    kprintf (text "[{d}] {k}success{k}: {s}: {sn}")
      (num stamp ∷ str ansi_color_green ∷ str ansi_color_reset ∷ str func ∷ str msg ∷ [])

-- Its serial output, where `serial_enabled`.
pub klog_serial : Level → (func msg : List ℕ) → Option (List ℕ)
klog_serial log_info func msg =
    serial_kprintf (text "{k}KLOG_INFO{k}: {s}: {sn}")
      (str ansi_color_magenta ∷ str ansi_color_reset ∷ str func ∷ str msg ∷ [])
klog_serial log_warn func msg =
    serial_kprintf (text "{k}KLOG_WARN{k}: {s}: {sn}")
      (str ansi_color_yellow ∷ str ansi_color_reset ∷ str func ∷ str msg ∷ [])
klog_serial log_error func msg =
    serial_kprintf (text "{k}KLOG_ERROR{k}: {s}: {sn}")
      (str ansi_color_red ∷ str ansi_color_reset ∷ str func ∷ str msg ∷ [])
klog_serial log_success func msg =
    serial_kprintf (text "{k}KLOG_SUCCESS{k}: {s}: {sn}")
      (str ansi_color_green ∷ str ansi_color_reset ∷ str func ∷ str msg ∷ [])

-- Both outputs of `klog`.
pub klog :
    (serial_enabled : Bool)
    → Level
    → (stamp : ℕ) → (func msg : List ℕ) → Option (List ℕ) × Option (List ℕ)
unfolding klog_framebuffer klog_serial
klog serial_enabled level stamp func msg = (
  klog_framebuffer level stamp func msg,
  if serial_enabled then klog_serial level func msg else some [],
)

-- The cases of `toupper`, each with what it returns.
abbrev pub upper_cases : List (ℕ × ℕ)
upper_cases =
    (b'a', b'A')
    ∷ (b'b', b'B')
    ∷ (b'c', b'C')
    ∷ (b'd', b'D')
    ∷ (b'e', b'E')
    ∷ (b'f', b'F')
    ∷ (b'g', b'G')
    ∷ (b'h', b'H')
    ∷ (b'i', b'I')
    ∷ (b'j', b'J')
    ∷ (b'k', b'K')
    ∷ (b'l', b'L')
    ∷ (b'm', b'M')
    ∷ (b'n', b'N')
    ∷ (b'o', b'O')
    ∷ (b'p', b'P')
    ∷ (b't', b'T')
    ∷ (b'r', b'R')
    ∷ (b's', b'S')
    ∷ (b'u', b'U')
    ∷ (b'v', b'V')
    ∷ (b'w', b'W')
    ∷ (b'x', b'X')
    ∷ (b'y', b'Y')
    ∷ (b'z', b'Z')
    ∷ []

abbrev pub switch : List (ℕ × ℕ) → ℕ → ℕ
switch [] c = c
switch (k ∷ ks) c = if c == k.0 then k.1 else switch ks c

pub toupper : ℕ → ℕ
toupper c = switch upper_cases c
