-- ===== src/Sched/Switch/Tests.antt =====
-- A switch to a context at 0x1002, which is not aligned, from a stack below 0x9000.
use lord.Prelude.{ℕ, ◌+◌, ◌%◌, ◌^◌, ◌<◌, ◌≡◌, refl, arith, ◌==◌, if◌then◌else◌}
use lord.Str.{Bytes}
use lord.Sched.{Context}
use lord.Sched.Switch.{
  Register, Machine, IsStored, run, switch_context, rbx, rsp, rbp, r12, r13, r14, r15,
  run-switch_context,
}

abbrev sleeper : Context
sleeper = record {
  rbx = 11;
  rsp = 0x5000;
  rbp = 0;
  r12 = 0;
  r13 = 13;
  r14 = 0x2000;
  r15 = 0;
  rip = 0x40_0000;
  rflags = 0;
}

-- The context, and the words at 0x2000.
abbrev bytes : Bytes
bytes a =
    if a == 0x1002
    then 11
    else (if a == 0x100b
        then 0x50
        else (if a == 0x1022
            then 13
            else (if a == 0x102b
                then 0x20
                else (if a == 0x2009 then 0x70 else (if a == 0x2010 then 8 else 0)))))

abbrev registers : Register → ℕ
registers Register.rsp = 0x9000
registers Register.rsi = 0x1002
registers Register.rdi = 0x8ff0
registers _ = 1

abbrev machine : Machine
machine = record { regs = registers; rip = 0x10; cs = 8; mem = bytes }

sleeper-IsStored : IsStored bytes 0x1002 sleeper
sleeper-IsStored = record {
  rbx_word = refl;
  rsp_word = refl;
  rbp_word = refl;
  r12_word = refl;
  r13_word = refl;
  r14_word = refl;
}

run-switch_context_example :
    (u : Machine) × (run switch_context machine ≡ u)
    × (u.rip ≡ 0x7000)
    × (u.cs ≡ 8 % 2 ^ 16)
    × (u.regs rsp ≡ 0x2018)
    × (u.regs rbx ≡ 0)
    × (u.regs rbp ≡ 13)
    × (u.regs r12 ≡ 0)
    × (u.regs r13 ≡ 0)
    × (u.regs r14 ≡ 0x5000)
    × (u.regs r15 ≡ 11)
    × ((a : ℕ) → (a < 0x9000 → a + 56 < 0x9000) → u.mem a ≡ bytes a)
run-switch_context_example =
    run-switch_context machine sleeper sleeper-IsStored (omega arith) (omega arith) (omega arith)
      (omega arith) (λ h. omega arith) (λ h. omega arith)
