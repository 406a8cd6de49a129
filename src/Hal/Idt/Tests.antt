-- ===== src/Hal/Idt/Tests.antt =====
-- Runs of the registration, and instances of its theorems.
use lord.Prelude.{ℕ, ◌≡◌, refl, false, Option, some, arith, ltb}
use lord.Kernel.{done}
use lord.Hal.Idt.{
  max_irq, Interrupts, gate, kernel_status_success, kernel_status_error, register_irq_vector,
  find_unused, register_irq, set_idt,
}
use lord.Hal.Idt.Register.{
  handler, IsInstalled, registered, IsFirstUnused, behind_register, register_irq-IsFirstUnused,
  register_irq_vector-register_irq, set_idt_lem,
}

abbrev blank : Interrupts
blank = record {
  idt = λ v. gate 0 0;
  irq_list = λ v. record { base = 0; in_use = ltb v 32 };
  locked = false;
}

blank-IsInstalled : IsInstalled blank
blank-IsInstalled = record { installed = λ v h used. ground arith; unlocked = refl }

first_is_32 : find_unused max_irq 0 blank.irq_list ≡ some 32
unfolding find_unused
first_is_32 = refl

register_irq-IsFirstUnused_example :
    (answer : Option ℕ) × (register_irq 0xffff_8000_0000_1234 0x8e blank
      ≡ done (answer, behind_register 0xffff_8000_0000_1234 0x8e blank answer))
    × IsFirstUnused blank.irq_list answer
    × IsInstalled (behind_register 0xffff_8000_0000_1234 0x8e blank answer)
register_irq-IsFirstUnused_example =
    register_irq-IsFirstUnused 0xffff_8000_0000_1234 0x8e (omega arith) blank-IsInstalled

register_irq_vector-register_irq_example :
    (s1 : Interrupts) × (register_irq_vector 32 0x2000 0x8e blank
      ≡ done (kernel_status_error, blank))
    × (register_irq 0x1000 0x8e blank ≡ done (some 32, s1))
    × (handler (s1.idt 32) ≡ 0x1000)
    × (register_irq_vector 32 0x2000 0x8e s1
        ≡ done (kernel_status_success, registered 32 0x2000 0x8e s1))
    × (handler ((registered 32 0x2000 0x8e s1).idt 32) ≡ 0x2000)
    × IsInstalled (registered 32 0x2000 0x8e s1)
register_irq_vector-register_irq_example =
    register_irq_vector-register_irq 0x1000 0x2000 0x8e 0x8e 32 (omega arith) (omega arith)
      blank-IsInstalled first_is_32

set_idt_lem_example :
    ((set_idt (λ n. n) blank).irq_list 69 ≡ blank.irq_list 69)
    × ((set_idt (λ n. n) blank).idt 69 ≡ gate 69 0x8e)
    × ((set_idt (λ n. n) blank).locked ≡ false)
set_idt_lem_example = set_idt_lem (λ n. n) 69 blank
