-- ===== src/Stdio/Format/Serial.antt =====
-- `serial_kprintf` against `kprintf`, and the lines of `klog`.
use lord.Prelude.{
  ℕ, ◌^◌, ◌<◌, ◌≡◌, refl, ap, ◌∙◌, ◌≢◌, inl, inr, Bool, true, false, ◌||◌, Option, none, some, List,
  [], ◌∷◌, ◌++◌, ◌==◌, if◌then◌else◌, All, arith, Option-cases,
}
use lord.Stdio.{
  print_int, print_hex, print_bin, serial_print_int, serial_print_hex, serial_print_bin,
}
use lord.Stdio.Number.{serial_print_lem}
use lord.Stdio.Format.{
  Arg, num, str, text, Printers, directive, Mode, normal, format_specifier, emit, format_loop,
  kprintf, serial_kprintf, framebuffer, serial, take_num, take_str, Level, log_info, log_warn,
  log_error, log_success, ansi_color_red, ansi_color_green, ansi_color_yellow, ansi_color_magenta,
  ansi_color_reset, klog, klog_framebuffer, klog_serial,
}

-- A number that both printers print.
abbrev pub IsPrinted : Arg → Type 0
IsPrinted (num n) = (n < 2 ^ 64) × (n ≢ 0)
IsPrinted (str s) = Unit

-- A directive that takes an argument leaves the others.
abbrev Leaves : Option (List ℕ × List Arg) → Type 0
Leaves none = Unit
Leaves (some r) = All IsPrinted r.1

take_num-Leaves : (f : ℕ → List ℕ) (args : List Arg) → All IsPrinted args → Leaves (take_num f args)
take_num-Leaves f [] h = tt
take_num-Leaves f (num n ∷ args) h = h.1
take_num-Leaves f (str s ∷ args) h = tt

take_str-Leaves : (args : List Arg) → All IsPrinted args → Leaves (take_str args)
take_str-Leaves [] h = tt
take_str-Leaves (num n ∷ args) h = tt
take_str-Leaves (str s ∷ args) h = h.1

if-Leaves :
    (b : Bool) (o q : Option (List ℕ × List Arg))
    → Leaves o
    → Leaves q
    → Leaves (if b then o else q)
if-Leaves true o q h k = h
if-Leaves false o q h k = k

directive-Leaves :
    (p : Printers) (c : ℕ) (args : List Arg) → All IsPrinted args → Leaves (directive p c args)
unfolding directive
directive-Leaves p c args h = if-Leaves (c == b'n') _ _ h (
    if-Leaves (c == b'k') _ _ (take_str-Leaves args h) (
      if-Leaves (c == b'd' || c == b'i') _ _ (take_num-Leaves p.int args h) (
        if-Leaves (c == b's') _ _ (take_str-Leaves args h) (
          if-Leaves (c == b'c') _ _ (take_num-Leaves _ args h) (
            if-Leaves (c == b'x') _ _ (take_num-Leaves p.hex args h)
              (if-Leaves (c == b'b') _ _ (take_num-Leaves p.bin args h) h))))))

take_num-same :
    (f g : ℕ → List ℕ) (args : List Arg)
    → ((n : ℕ) → n < 2 ^ 64 → n ≢ 0 → f n ≡ g n)
    → All IsPrinted args
    → take_num f args ≡ take_num g args
take_num-same f g [] same h = refl
take_num-same f g (num n ∷ args) same h = ap (λ t. some (t, args)) (same n h.0.0 h.0.1)
take_num-same f g (str s ∷ args) same h = refl

nonzero_case : (n : ℕ) (xs ys : List ℕ) → n ≢ 0 → xs ≡ (if n == 0 then [] else ys) → xs ≡ ys
nonzero_case n xs ys ne e = let f : (n == 0) ≡ false = ground (arith, ne) in rw f at e

directive-same :
    (c : ℕ) (args : List Arg)
    → All IsPrinted args
    → directive serial c args ≡ directive framebuffer c args
unfolding directive
directive-same c args h =
    rw
      (
        take_num-same serial_print_int print_int args
            (λ n lt ne. nonzero_case n _ _ ne (serial_print_lem n lt).0) h,
        take_num-same serial_print_hex print_hex args
            (λ n lt ne. nonzero_case n _ _ ne (serial_print_lem n lt).1) h,
        take_num-same serial_print_bin print_bin args (λ n lt ne. (serial_print_lem n lt).2) h,
      )
      refl

format_loop-same :
    (mode : Mode) (cs : List ℕ) (args : List Arg)
    → All IsPrinted args
    → format_loop serial mode cs args ≡ format_loop framebuffer mode cs args
unfolding format_loop
format_loop-same mode [] args h = refl
format_loop-same normal (c ∷ cs) args h =
    ap (λ t. if c == b'{' then t else emit (c ∷ []) t)
      (format_loop-same (if c == b'{' then format_specifier else normal) cs args h)
format_loop-same format_specifier (c ∷ cs) args h =
    elim (Option-cases (directive framebuffer c args)) [
      | inl bad ↦ let bad' = directive-same c args h ∙ bad in rw (format_loop, bad, bad') refl
      | inr (r, good) ↦
          let good' = directive-same c args h ∙ good in
          let left : All IsPrinted r.1 = rw good at (directive-Leaves framebuffer c args h) in
          rw (format_loop, good, good')
            (ap (emit r.0)
              (format_loop-same (if c == b'}' then normal else format_specifier) cs r.1 left))
    ]

-- Where every number among the arguments is a 64-bit number other than 0, `serial_kprintf` prints
-- what `kprintf` prints, and fails where it fails, whatever the format.
pub serial_kprintf-kprintf :
    (format_string : List ℕ) (args : List Arg)
    → All IsPrinted args
    → serial_kprintf format_string args ≡ kprintf format_string args
unfolding kprintf serial_kprintf
serial_kprintf-kprintf format_string args h = format_loop-same normal format_string args h

-- How `klog` names a level on the framebuffer, and on the serial port.
abbrev pub label : Level → List ℕ
label log_info = text "info"
label log_warn = ansi_color_yellow ++ text "warning" ++ ansi_color_reset
label log_error = ansi_color_red ++ text "error" ++ ansi_color_reset
label log_success = ansi_color_green ++ text "success" ++ ansi_color_reset

abbrev pub serial_label : Level → List ℕ
serial_label log_info = ansi_color_magenta ++ text "KLOG_INFO" ++ ansi_color_reset
serial_label log_warn = ansi_color_yellow ++ text "KLOG_WARN" ++ ansi_color_reset
serial_label log_error = ansi_color_red ++ text "KLOG_ERROR" ++ ansi_color_reset
serial_label log_success = ansi_color_green ++ text "KLOG_SUCCESS" ++ ansi_color_reset

-- The text that follows the label.
abbrev pub message : (func msg : List ℕ) → List ℕ
message func msg = text ": " ++ (func ++ (text ": " ++ (msg ++ b'\n' ∷ [])))

-- The four formats of `klog` agree with their arguments: it prints the time in brackets, the level,
-- the function and the message, and the same without the time on the serial port if that is enabled.
pub klog_lem :
    (serial_enabled : Bool) (level : Level) (stamp : ℕ) (func msg : List ℕ)
    → klog serial_enabled level stamp func msg ≡ (
      some (text "[" ++ (print_int stamp ++ (text "] " ++ (label level ++ message func msg)))),
      some (if serial_enabled then serial_label level ++ message func msg else []),
    )
unfolding klog klog_framebuffer klog_serial kprintf serial_kprintf format_loop directive
klog_lem true log_info stamp func msg = refl
klog_lem true log_warn stamp func msg = refl
klog_lem true log_error stamp func msg = refl
klog_lem true log_success stamp func msg = refl
klog_lem false log_info stamp func msg = refl
klog_lem false log_warn stamp func msg = refl
klog_lem false log_error stamp func msg = refl
klog_lem false log_success stamp func msg = refl
