-- ===== src/Hal/Idt.antt =====
-- src/hal/idt.c: the interrupt gates, and their registration.
pub mod Exception
pub mod Register
mod Tests
use lord.Prelude.{
  ℕ, zero, suc, ◌+◌, ◌/◌, ◌%◌, ◌^◌, Bool, true, false, Option, none, some, List, [], ◌∷◌, bit_and,
  ◌==◌, ltb, if◌then◌else◌,
}
use lord.Bits.{shr}
use lord.Kernel.{Outcome, done, killed, hangs, ◌>>=◌}

abbrev pub max_irq : ℕ
max_irq = 256

-- `idt_descriptor`
pub record IdtDescriptor : Type 0 where
  pub offset_low : ℕ
  pub segment_sel : ℕ
  pub ist : ℕ
  pub attributes : ℕ
  pub offset_high : ℕ
  pub offset_higher : ℕ
  pub reserved : ℕ

-- `irq_t`
pub record Irq : Type 0 where
  pub base : ℕ
  pub in_use : Bool

-- The arrays `idt` and `irq_list`, and `irq_register_lock`. Loading the table register is not
-- modelled.
pub record Interrupts : Type 0 where
  pub idt : ℕ → IdtDescriptor
  pub irq_list : ℕ → Irq
  pub locked : Bool

abbrev pub gate : (base flags : ℕ) → IdtDescriptor
gate base flags = record {
  offset_low = bit_and base 0xffff;
  segment_sel = 0x08;
  ist = 0;
  attributes = flags;
  offset_high = bit_and (shr base 16) 0xffff;
  offset_higher = bit_and (shr base 32) 0xffffffff;
  reserved = 0;
}

abbrev pub set_idt_descriptor : (vector base flags : ℕ) → Interrupts → Interrupts
set_idt_descriptor vector base flags s = record s {
  idt = λ v. if v == vector then gate base flags else s.idt v;
}

-- `irq_list[vector] = {base, true}`
abbrev pub use_irq : (vector base : ℕ) → Interrupts → Interrupts
use_irq vector base s = record s {
  irq_list = λ v. if v == vector then record { base = base; in_use = true } else s.irq_list v;
}

pub data Kstatus : Type 0 where
  kernel_status_success : Kstatus
  kernel_status_error : Kstatus

pub register_irq_vector : (vector base flags : ℕ) → Interrupts → Outcome (Kstatus × Interrupts)
register_irq_vector vector base flags s =
    if s.locked
    then hangs
    else if (s.irq_list vector).in_use
    then done (
      kernel_status_success,
      record (use_irq vector base (set_idt_descriptor vector base flags s)) { locked = false },
    )
    else done (kernel_status_error, record s { locked = false })

-- The loop of `register_irq`, with the rounds that are left.
pub find_unused : (left i : ℕ) → (ℕ → Irq) → Option ℕ
find_unused zero i irqs = none
find_unused (suc left) i irqs =
    let rest = find_unused left (i + 1) irqs in if (irqs i).in_use then rest else some i

-- The vector, `none` for -1.
pub register_irq : (base flags : ℕ) → Interrupts → Outcome (Option ℕ × Interrupts)
unfolding find_unused
register_irq base flags s = if s.locked then hangs else elim (find_unused max_irq 0 s.irq_list) [
  | none ↦ done (none, record s { locked = false })
  | some i ↦
      done (some i, record (use_irq i base (set_idt_descriptor i base flags s)) { locked = false })
]

-- The first loop of `set_idt`.
pub reserve_loop : (left i : ℕ) → Interrupts → Interrupts
reserve_loop zero i s = s
reserve_loop (suc left) i s = reserve_loop left (i + 1) (use_irq i 0 s)

-- The calls of `set_idt_descriptor` for the vectors from `i` on.
pub exception_loop : (isr : ℕ → ℕ) → (left i : ℕ) → Interrupts → Interrupts
exception_loop isr zero i s = s
exception_loop isr (suc left) i s =
    exception_loop isr left (i + 1) (set_idt_descriptor i (isr i) 0x8e s)

-- `isr n` is the address of `s_isr<n>`.
pub set_idt : (isr : ℕ → ℕ) → Interrupts → Interrupts
unfolding reserve_loop exception_loop
set_idt isr s = set_idt_descriptor 255 (isr 255) 0x8e (
    set_idt_descriptor 70 (isr 70) 0x8e (
      set_idt_descriptor 69 (isr 69) 0x8e
        (set_idt_descriptor 44 0 0x8e (exception_loop isr 32 0 (reserve_loop 32 0 s)))))
