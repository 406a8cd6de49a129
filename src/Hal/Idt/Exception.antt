-- ===== src/Hal/Idt/Exception.antt =====
-- The exception report of src/hal/idt.c, and the dispatch of `interrupt_handler`.
mod Tests
use lord.Prelude.{
  ℕ, zero, suc, ◌<◌, ◌≡◌, refl, true, Option, none, some, List, [], ◌∷◌, ◌++◌, arith, ltb, ◌==◌,
  if◌then◌else◌, get_elem?, Option-cases, inl, inr, length,
}
use lord.Kernel.{Outcome, done, killed, hangs, fault}
use lord.Stdio.{print_int, print_hex}
use lord.Stdio.Format.{Arg, num, str, text, directive, emit, format_loop, kprintf}

-- `interrupt_frame`
pub record Frame : Type 0 where
  pub r15 : ℕ
  pub r14 : ℕ
  pub r13 : ℕ
  pub r12 : ℕ
  pub r11 : ℕ
  pub r10 : ℕ
  pub r9 : ℕ
  pub r8 : ℕ
  pub rdi : ℕ
  pub rsi : ℕ
  pub rbp : ℕ
  pub rdx : ℕ
  pub rcx : ℕ
  pub rbx : ℕ
  pub rax : ℕ
  pub int_no : ℕ
  pub err : ℕ
  pub rip : ℕ
  pub cs : ℕ
  pub rflags : ℕ
  pub rsp : ℕ
  pub ss : ℕ

pub exception_messages : List (List ℕ)
exception_messages =
    text "Division Error"
    ∷ text "Debug"
    ∷ text "Non Maskable Interrupt"
    ∷ text "Breakpoint"
    ∷ text "Into Detected Overflow"
    ∷ text "Out of Bounds"
    ∷ text "Invalid Opcode"
    ∷ text "Device not available"
    ∷ text "Double Fault"
    ∷ text "Coprocessor Segment Overrun"
    ∷ text "Invalid TSS"
    ∷ text "Segment Not Present"
    ∷ text "Stack Fault"
    ∷ text "General Protection Fault"
    ∷ text "Page Fault"
    ∷ text "x87 FPU Floating-point error"
    ∷ text "Alignment Check"
    ∷ text "Machine Check"
    ∷ text "SIMD Floating-point exception"
    ∷ text "Virtualization exception"
    ∷ text "Control Protection"
    ∷ text "Reserved"
    ∷ text "Reserved"
    ∷ text "Reserved"
    ∷ text "Reserved"
    ∷ text "Reserved"
    ∷ text "Reserved"
    ∷ text "Reserved"
    ∷ text "Reserved"
    ∷ text "Reserved"
    ∷ text "Reserved"
    ∷ []

-- What one call prints, before what the calls behind it print.
abbrev pub then_print : Option (List ℕ) → Option (List ℕ) → Option (List ℕ)
then_print none rest = none
then_print (some out) rest = emit out rest

-- The calls of `kprintf` on an exception. In the first format `\n` is a newline of the C text.
pub report : (message : List ℕ) → Frame → Option (List ℕ)
report message r =
    then_print
      (kprintf
        (b'\n'
          ∷ text "Oh no! Received interrupt {d}, '{s}'. Below is the provided stack frame{n}{n}")
        (num r.int_no ∷ str message ∷ []))
      (then_print (kprintf (text "error code 0x{xn}") (num r.err ∷ [])) (
        then_print
          (kprintf (text "rax 0x{x} | rbx 0x{x} | rcx 0x{x} | rdx 0x{xn}")
            (num r.rax ∷ num r.rbx ∷ num r.rcx ∷ num r.rdx ∷ []))
          (then_print
            (kprintf (text "rdi 0x{x} | rsi 0x{x} | rbp 0x{xn}")
              (num r.rdi ∷ num r.rsi ∷ num r.rbp ∷ []))
            (then_print
              (kprintf
                (text
                  "r8 0x{x} | r9 0x{x} | r10 0x{x} | r11 0x{x} | r12 0x{x} | r13 0x{x} | r14 0x{x} | r15 0x{xn}")
                (num r.r8
                  ∷ num r.r9
                  ∷ num r.r10
                  ∷ num r.r11
                  ∷ num r.r12
                  ∷ num r.r13
                  ∷ num r.r14
                  ∷ num r.r15
                  ∷ []))
              (kprintf (text "rip 0x{x} | cs 0x{x} | ss 0x{x} | rsp 0x{x} | rflags 0x{xn}")
                (num r.rip ∷ num r.cs ∷ num r.ss ∷ num r.rsp ∷ num r.rflags ∷ []))))))

-- Whether `interrupt_handler` calls `apic_timer_handler`.
pub data Handled : Type 0 where
  nothing : Handled
  timer_tick : Handled

-- What is printed, and how the call ends. A read of `exception_messages` behind its end is a fault.
pub interrupt_handler : Frame → Option (List ℕ) × Outcome Handled
unfolding report exception_messages
interrupt_handler r =
    if ltb r.int_no 32
    then elim (get_elem? exception_messages r.int_no) [
      | none ↦ (some [], fault)
      | some message ↦ (report message r, killed)
    ]
    else if r.int_no == 255
    then (kprintf (text "hey") [], done nothing)
    else if r.int_no == 69
    then (some [], done timer_tick)
    else if r.int_no == 70
    then (some [], hangs)
    else (some [], done nothing)

-- A line of registers.
pub line : List (List ℕ × ℕ) → List ℕ
line [] = b'\n' ∷ []
line ((name, n) ∷ []) = name ++ (text " 0x" ++ (print_hex n ++ b'\n' ∷ []))
line ((name, n) ∷ q ∷ rs) = name ++ (text " 0x" ++ (print_hex n ++ (text " | " ++ line (q ∷ rs))))

-- What is to be on the screen: the vector with its message, and all words of the frame but the vector.
pub report_text : (message : List ℕ) → Frame → List ℕ
unfolding line
report_text message r =
    (b'\n' ∷ text "Oh no! Received interrupt "
      ++ (print_int r.int_no
          ++ (text ", '"
              ++ (message ++ (text "'. Below is the provided stack frame" ++ b'\n' ∷ b'\n' ∷ [])))))
    ++ (line ((text "error code", r.err) ∷ [])
        ++ (line (
              (text "rax", r.rax)
              ∷ (text "rbx", r.rbx)
              ∷ (text "rcx", r.rcx)
              ∷ (text "rdx", r.rdx)
              ∷ [])
            ++ (line ((text "rdi", r.rdi) ∷ (text "rsi", r.rsi) ∷ (text "rbp", r.rbp) ∷ [])
                ++ (line (
                      (text "r8", r.r8)
                      ∷ (text "r9", r.r9)
                      ∷ (text "r10", r.r10)
                      ∷ (text "r11", r.r11)
                      ∷ (text "r12", r.r12)
                      ∷ (text "r13", r.r13)
                      ∷ (text "r14", r.r14)
                      ∷ (text "r15", r.r15)
                      ∷ [])
                    ++ line (
                        (text "rip", r.rip)
                        ∷ (text "cs", r.cs)
                        ∷ (text "ss", r.ss)
                        ∷ (text "rsp", r.rsp)
                        ∷ (text "rflags", r.rflags)
                        ∷ [])))))

get_elem?-length :
    (xs : List (List ℕ)) (i : ℕ) → i < length xs → (x : List ℕ) × (get_elem? xs i ≡ some x)
get_elem?-length [] i h = absurd (omega arith)
get_elem?-length (x ∷ xs) zero h = (x, refl)
get_elem?-length (x ∷ xs) (suc i) h = get_elem?-length xs i (omega arith)

report_prints : (message : List ℕ) (r : Frame) → report message r ≡ some (report_text message r)
unfolding report report_text line kprintf format_loop directive
report_prints message r = refl

-- For each of the vectors 0 to 30 `interrupt_handler` prints the vector, its message and all words of
-- the frame, and kills the kernel; for the vector 31 it reads behind the end of
-- `exception_messages`.
pub interrupt_handler_lem :
    (r s : Frame)
    → r.int_no < 31
    → s.int_no ≡ 31
    → (message : List ℕ) × (get_elem? exception_messages r.int_no ≡ some message)
      × (interrupt_handler r ≡ (some (report_text message r), killed))
      × (interrupt_handler s ≡ (some [], fault))
unfolding interrupt_handler exception_messages
interrupt_handler_lem r s lt e =
    let (message, found) = get_elem?-length exception_messages r.int_no lt in
    let below : ltb r.int_no 32 ≡ true = ground arith in
    (
      message,
      found,
      rw (interrupt_handler, below, found, report_prints message r) refl,
      rw (interrupt_handler, e) refl,
    )
