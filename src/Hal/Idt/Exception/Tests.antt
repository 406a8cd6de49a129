-- ===== src/Hal/Idt/Exception/Tests.antt =====
-- An instance of the theorem on exceptions.
use lord.Prelude.{ℕ, ◌≡◌, refl, some, get_elem?, List, [], arith}
use lord.Kernel.{killed, fault}
use lord.Hal.Idt.Exception.{
  Frame, exception_messages, report_text, interrupt_handler, interrupt_handler_lem,
}

abbrev frame : ℕ → Frame
frame n = record {
  r15 = 0;
  r14 = 0;
  r13 = 0;
  r12 = 0;
  r11 = 0;
  r10 = 0;
  r9 = 0;
  r8 = 0;
  rdi = 0;
  rsi = 0;
  rbp = 0;
  rdx = 0;
  rcx = 0;
  rbx = 0;
  rax = 0;
  int_no = n;
  err = 0;
  rip = 0x1000;
  cs = 8;
  rflags = 2;
  rsp = 0x9000;
  ss = 0x10;
}

interrupt_handler_lem_example :
    (message : List ℕ) × (get_elem? exception_messages 14 ≡ some message)
    × (interrupt_handler (frame 14) ≡ (some (report_text message (frame 14)), killed))
    × (interrupt_handler (frame 31) ≡ (some [], fault))
interrupt_handler_lem_example = interrupt_handler_lem (frame 14) (frame 31) (omega arith) refl
