-- ===== src/Hal/Idt/Register.antt =====
-- The registration of interrupt vectors.
use lord.Prelude.{
  ℕ, zero, suc, ◌+◌, ◌*◌, ◌/◌, ◌^◌, ◌≤◌, ◌<◌, ◌≡◌, refl, sym, ap, ◌∙◌, ℕ_discrete, inl, inr, true,
  false, Option, none, some, arith, ◌&&◌, ◌||◌, leb, ◌==◌, ltb, if◌then◌else◌, Bool-cases,
  Option-cases,
}
use lord.Bits.{and_mask}
use lord.Kernel.{done}
use lord.Hal.Idt.{
  max_irq, IdtDescriptor, Irq, Interrupts, gate, set_idt_descriptor, use_irq, kernel_status_success,
  kernel_status_error, register_irq_vector, find_unused, register_irq, reserve_loop, exception_loop,
  set_idt,
}

-- The handler that the processor reads from a gate.
abbrev pub handler : IdtDescriptor → ℕ
handler d = d.offset_low + d.offset_high * 2 ^ 16 + d.offset_higher * 2 ^ 32

handler-gate : (base flags : ℕ) → base < 2 ^ 64 → handler (gate base flags) ≡ base
handler-gate base flags h =
    omega (arith, and_mask 16 base, and_mask 16 (base / 2 ^ 16), and_mask 32 (base / 2 ^ 32))

-- The vectors from 32 on that are in use have their registered handler in the gate, and the lock is
-- free.
pub record IsInstalled (s : Interrupts) : Type 0 where
  pub installed :
      (v : ℕ) → 32 ≤ v → (s.irq_list v).in_use ≡ true → handler (s.idt v) ≡ (s.irq_list v).base
  pub unlocked : s.locked ≡ false

-- The state behind a registration of the vector `i`.
abbrev pub registered : (i base flags : ℕ) → Interrupts → Interrupts
registered i base flags s = record (use_irq i base (set_idt_descriptor i base flags s)) {
  locked = false;
}

registered-IsInstalled :
    (i base flags : ℕ) {s : Interrupts}
    → base < 2 ^ 64
    → IsInstalled s
    → IsInstalled (registered i base flags s)
registered-IsInstalled i base flags {s} lt is = record {
  installed = λ v h used. elim (Bool-cases (v == i)) [
    | inl here ↦ rw here (handler-gate base flags lt)
    | inr other ↦ rw other (is.installed v h (rw other at used))
  ];
  unlocked = refl;
}

find_unused-some :
    (left i : ℕ) (irqs : ℕ → Irq) {v : ℕ}
    → find_unused left i irqs ≡ some v
    → (i ≤ v)
      × (v < i + left)
      × ((irqs v).in_use ≡ false)
      × ((j : ℕ) → i ≤ j → j < v → (irqs j).in_use ≡ true)
unfolding find_unused
find_unused-some zero i irqs e = absurd (cc e)
find_unused-some (suc left) i irqs {v} e = elim (Bool-cases (irqs i).in_use) [
  | inr free ↦
      let same : i ≡ v = ground (arith, e, free) in
      rw (sym same) (omega arith, omega arith, free, λ j h k. absurd (omega arith))
  | inl used ↦
      let (a, b, c, d) = find_unused-some left (i + 1) irqs (rw (find_unused, used) at e) in
      (
        omega arith,
        omega arith,
        c,
        λ j h k. elim (ℕ_discrete i j) [
          | yes first ↦ rw (sym first) used
          | no later ↦ d j (omega arith) k
        ],
      )
]

find_unused-none :
    (left i : ℕ) (irqs : ℕ → Irq)
    → find_unused left i irqs ≡ none
    → (j : ℕ) → i ≤ j
    → j < i + left
    → (irqs j).in_use ≡ true
unfolding find_unused
find_unused-none zero i irqs e j h k = absurd (omega arith)
find_unused-none (suc left) i irqs e j h k = elim (Bool-cases (irqs i).in_use) [
  | inr free ↦ absurd (ground (arith, e, free))
  | inl used ↦ elim (ℕ_discrete i j) [
    | yes first ↦ rw (sym first) used
    | no later ↦
        find_unused-none left (i + 1) irqs (rw (find_unused, used) at e) j (omega arith)
          (omega arith)
  ]
]

-- The answer of `register_irq`: the first vector that is not in use, or none if all are.
abbrev pub IsFirstUnused : (ℕ → Irq) → Option ℕ → Type 0
IsFirstUnused irqs none = (j : ℕ) → j < max_irq → (irqs j).in_use ≡ true
IsFirstUnused irqs (some v) =
    (v < max_irq) × ((irqs v).in_use ≡ false) × ((j : ℕ) → j < v → (irqs j).in_use ≡ true)

-- The state behind a call that answers so.
abbrev pub behind_register : (base flags : ℕ) → Interrupts → Option ℕ → Interrupts
behind_register base flags s none = s
behind_register base flags s (some v) = registered v base flags s

-- `register_irq` returns, with the lock free, the first vector that is not in use, and -1 if all
-- are; it puts the handler into that gate and marks it as used, changes no other gate, and keeps
-- the invariant that used vectors from 32 on have their handler in the gate.
pub register_irq-IsFirstUnused :
    (base flags : ℕ) {s : Interrupts}
    → base < 2 ^ 64
    → IsInstalled s
    → (answer : Option ℕ) × (register_irq base flags s
        ≡ done (answer, behind_register base flags s answer))
      × IsFirstUnused s.irq_list answer
      × IsInstalled (behind_register base flags s answer)
unfolding register_irq
register_irq-IsFirstUnused base flags {s} lt is =
    elim (Option-cases (find_unused max_irq 0 s.irq_list)) [
      | inl full ↦ (
        none,
        rw (register_irq, is.unlocked, full) refl,
        λ j h. find_unused-none max_irq 0 s.irq_list full j (omega arith) (omega arith),
        is,
      )
      | inr (v, found) ↦
          let (a, b, c, d) = find_unused-some max_irq 0 s.irq_list found in
          (
            some v,
            rw (register_irq, is.unlocked, found) refl,
            (omega arith, c, λ j h. d j (omega arith) h),
            registered-IsInstalled v base flags lt is,
          )
    ]

-- `register_irq_vector` refuses the vector that is to be registered next, because it is not in use,
-- and leaves the state as it is; once `register_irq` has given that vector away, it succeeds, and
-- replaces the handler of the vector's owner.
pub register_irq_vector-register_irq :
    (base base' flags flags' v : ℕ) {s : Interrupts}
    → base < 2 ^ 64
    → base' < 2 ^ 64
    → IsInstalled s
    → find_unused max_irq 0 s.irq_list ≡ some v
    → (s1 : Interrupts) × (register_irq_vector v base' flags' s ≡ done (kernel_status_error, s))
      × (register_irq base flags s ≡ done (some v, s1))
      × (handler (s1.idt v) ≡ base)
      × (register_irq_vector v base' flags' s1
          ≡ done (kernel_status_success, registered v base' flags' s1))
      × (handler ((registered v base' flags' s1).idt v) ≡ base')
      × IsInstalled (registered v base' flags' s1)
unfolding register_irq register_irq_vector
register_irq_vector-register_irq base base' flags flags' v {s} lt lt' is found =
    let (a, b, c, d) = find_unused-some max_irq 0 s.irq_list found in
    let itself : (v == v) ≡ true = ground arith in
    (
      registered v base flags s,
      rw (register_irq_vector, is.unlocked, c) refl,
      rw (register_irq, is.unlocked, found) refl,
      rw itself (handler-gate base flags lt),
      rw (register_irq_vector, itself) refl,
      rw itself (handler-gate base' flags' lt'),
      registered-IsInstalled v base' flags' lt' (registered-IsInstalled v base flags lt is),
    )

reserve_loop_lem :
    (left i v : ℕ) (s : Interrupts)
    → ((reserve_loop left i s).irq_list v ≡ (
        if leb i v && ltb v (i + left) then record { base = 0; in_use = true } else s.irq_list v))
      × ((reserve_loop left i s).idt ≡ s.idt)
      × ((reserve_loop left i s).locked ≡ s.locked)
unfolding reserve_loop
reserve_loop_lem zero i v s = (ground arith, refl, refl)
reserve_loop_lem (suc left) i v s =
    let (a, b, c) = reserve_loop_lem left (i + 1) v (use_irq i 0 s) in (ground (arith, a), b, c)

exception_loop_lem :
    (isr : ℕ → ℕ) (left i v : ℕ) (s : Interrupts)
    → ((exception_loop isr left i s).idt v
        ≡ (if leb i v && ltb v (i + left) then gate (isr v) 0x8e else s.idt v))
      × ((exception_loop isr left i s).irq_list ≡ s.irq_list)
      × ((exception_loop isr left i s).locked ≡ s.locked)
unfolding exception_loop
exception_loop_lem isr zero i v s = (ground arith, refl, refl)
exception_loop_lem isr (suc left) i v s =
    let (a, b, c) = exception_loop_lem isr left (i + 1) v (set_idt_descriptor i (isr i) 0x8e s) in
    elim (ℕ_discrete v i) [
      | yes here ↦ (rw here (let a' = rw here at a in ground (arith, a')), b, c)
      | no other ↦ (ground (arith, a), b, c)
    ]

last_gates_lem :
    (isr : ℕ → ℕ) (v : ℕ) (t : Interrupts) (old : IdtDescriptor)
    → t.idt v ≡ (if ltb v 32 then gate (isr v) 0x8e else old)
    → (set_idt_descriptor 255 (isr 255) 0x8e (
          set_idt_descriptor 70
            (isr 70)
            0x8e
            (set_idt_descriptor 69 (isr 69) 0x8e (set_idt_descriptor 44 0 0x8e t)))).idt
        v
      ≡ (if ltb v 32 || v == 69 || v == 70 || v == 255
          then gate (isr v) 0x8e
          else if v == 44
          then gate 0 0x8e
          else old)
last_gates_lem isr v t old e = elim (ℕ_discrete v 255) [
  | yes h ↦ rw h refl
  | no n255 ↦ elim (ℕ_discrete v 70) [
    | yes h ↦ rw h refl
    | no n70 ↦ elim (ℕ_discrete v 69) [
      | yes h ↦ rw h refl
      | no n69 ↦ elim (ℕ_discrete v 44) [ yes h ↦ rw h refl | no n44 ↦ ground (arith, e) ]
    ]
  ]
]

-- `set_idt` marks exactly the vectors below 32 as used. It fills their gates and those of the vectors
-- 69, 70 and 255 with their handlers, and that of 44 with a null pointer, so the last four may be
-- given away by `register_irq`.
pub set_idt_lem :
    (isr : ℕ → ℕ) (v : ℕ) (s : Interrupts)
    → ((set_idt isr s).irq_list v
        ≡ (if ltb v 32 then record { base = 0; in_use = true } else s.irq_list v))
      × ((set_idt isr s).idt v ≡ (
          if ltb v 32 || v == 69 || v == 70 || v == 255
          then gate (isr v) 0x8e
          else if v == 44
          then gate 0 0x8e
          else s.idt v))
      × ((set_idt isr s).locked ≡ s.locked)
unfolding set_idt
set_idt_lem isr v s =
    let (a, b, c) = reserve_loop_lem 32 0 v s in
    let (d, e, f) = exception_loop_lem isr 32 0 v (reserve_loop 32 0 s) in
    (
      ap (λ g. g v) e ∙ a ∙ ground arith,
      last_gates_lem isr v (exception_loop isr 32 0 (reserve_loop 32 0 s)) _ (d ∙ ground arith),
      f ∙ c,
    )
