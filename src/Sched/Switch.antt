-- ===== src/Sched/Switch.antt =====
-- src/scheduler/sched.asm: `switch_context`, on the registers and the bytes of memory.
mod Tests
use mathlib.Core.List.{map}
use lord.Prelude.{
  length, ℕ, ◌+◌, ◌-◌, ◌*◌, ◌%◌, ◌^◌, ◌≤◌, ◌<◌, ◌≡◌, refl, ap, ◌∙◌, List, [], ◌∷◌, ◌++◌, arith,
  ◌==◌, if◌then◌else◌,
}
use lord.Str.{Bytes}
use lord.Acpi.{word16, word32, word64}
use lord.HostApi.{put32}
use lord.Sched.{Context, put64}

pub data Register : Type 0 where
  rbx rsp rbp r12 r13 r14 r15 rdi rsi : Register

pub record Machine : Type 0 where
  pub regs : Register → ℕ
  pub rip : ℕ
  pub cs : ℕ
  pub mem : Bytes

pub data Instruction : Type 0 where
  push pop : Register → Instruction
  mov : Register → Register → Instruction
  retfq : Instruction

abbrev pub number : Register → ℕ
number rbx = 0
number rsp = 1
number rbp = 2
number r12 = 3
number r13 = 4
number r14 = 5
number r15 = 6
number rdi = 7
number rsi = 8

abbrev pub put_reg : (Register → ℕ) → Register → ℕ → Register → ℕ
put_reg regs r v q = if number q == number r then v else regs q

-- `push rsp` stores the value before the push; `pop rsp` leaves the value that was read.
unfoldable pub execute : Instruction → Machine → Machine
unfolding put64
execute (push r) s =
    let top = (s.regs rsp + (2 ^ 64 - 8)) % 2 ^ 64 in
    record s { regs = put_reg s.regs rsp top; mem = put64 s.mem top (s.regs r) }
execute (pop r) s = record s {
  regs = put_reg (put_reg s.regs rsp ((s.regs rsp + 8) % 2 ^ 64)) r (word64 s.mem (s.regs rsp));
}
execute (mov to from) s = record s { regs = put_reg s.regs to (s.regs from) }
execute retfq s = record s {
  regs = put_reg s.regs rsp ((s.regs rsp + 16) % 2 ^ 64);
  rip = word64 s.mem (s.regs rsp);
  cs = word64 s.mem ((s.regs rsp + 8) % 2 ^ 64) % 2 ^ 16;
}

unfoldable pub run : List Instruction → Machine → Machine
unfolding execute
run [] s = s
run (i ∷ code) s = run code (execute i s)

abbrev pub save_context : List Instruction
save_context = push rbx ∷ push rsp ∷ push rbp ∷ push r12 ∷ push r13 ∷ push r14 ∷ push r15 ∷ []

abbrev pub load_context : List Instruction
load_context = pop r15 ∷ pop r14 ∷ pop r13 ∷ pop r12 ∷ pop rbp ∷ pop rsp ∷ pop rbx ∷ []

-- The code after its label; `old` is in `rdi` and `new` in `rsi`.
abbrev pub switch_context : List Instruction
switch_context = save_context ++ mov rdi rsp ∷ mov rsp rsi ∷ load_context ++ retfq ∷ []

-- The words of a `context`.
pub record IsStored (m : Bytes) (a : ℕ) (c : Context) : Type 0 where
  pub rbx_word : word64 m a ≡ c.rbx
  pub rsp_word : word64 m (a + 8) ≡ c.rsp
  pub rbp_word : word64 m (a + 16) ≡ c.rbp
  pub r12_word : word64 m (a + 24) ≡ c.r12
  pub r13_word : word64 m (a + 32) ≡ c.r13
  pub r14_word : word64 m (a + 40) ≡ c.r14

saved_regs :
    (s : Machine)
    → 56 ≤ s.regs rsp
    → s.regs rsp < 2 ^ 64
    → (run save_context s).regs rsp + 56 ≡ s.regs rsp
unfolding run execute
saved_regs s h l = omega arith

saved_rsi : (s : Machine) → (run save_context s).regs rsi ≡ s.regs rsi
unfolding run execute
saved_rsi s = refl

put64_far : (m : Bytes) (p v x : ℕ) → (p ≤ x → p + 8 ≤ x) → put64 m p v x ≡ m x
unfolding put64
put64_far m p v x out = ground (arith, out)

push_far :
    (r : Register) (s : Machine) (n a : ℕ)
    → s.regs rsp ≡ n + 8
    → n + 8 < 2 ^ 64
    → (n ≤ a → n + 8 ≤ a)
    → (execute (push r) s).mem a ≡ s.mem a
unfolding execute
push_far r s n a at l out =
    put64_far s.mem ((s.regs rsp + (2 ^ 64 - 8)) % 2 ^ 64) (s.regs r) a
      (λ h. omega (arith, at, out (omega (arith, at, h))))

-- The stack pointer behind `k` pushes.
pushed_rsp :
    (r : Register) (s : Machine) (n : ℕ)
    → s.regs rsp ≡ n + 8
    → n + 8 < 2 ^ 64
    → (execute (push r) s).regs rsp ≡ n
unfolding execute
pushed_rsp r s n at l = omega (arith, at)

pushes_far :
    (code : List Register) (s : Machine) (a : ℕ)
    → 8 * length code ≤ s.regs rsp
    → s.regs rsp < 2 ^ 64
    → (a < s.regs rsp → a + 8 * length code < s.regs rsp)
    → (run (map push code) s).mem a ≡ s.mem a
unfolding run
pushes_far [] s a h l out = refl
pushes_far (r ∷ code) s a h l out =
    let n : ℕ = s.regs rsp - 8 in
    let at : s.regs rsp ≡ n + 8 = omega (arith, h) in
    let top = pushed_rsp r s n at (omega (arith, l)) in
    pushes_far code (execute (push r) s) a (omega (arith, top, h)) (omega (arith, top, l))
      (λ lt. omega (arith, top, out (omega (arith, top, lt))))
    ∙ push_far r s n a at (omega (arith, l)) (λ le. ground (arith, out))

saved_mem :
    (s : Machine) (a : ℕ)
    → 56 ≤ s.regs rsp
    → s.regs rsp < 2 ^ 64
    → (a < s.regs rsp → a + 56 < s.regs rsp)
    → (run save_context s).mem a ≡ s.mem a
saved_mem s a h l out = pushes_far (rbx ∷ rsp ∷ rbp ∷ r12 ∷ r13 ∷ r14 ∷ r15 ∷ []) s a h l out

-- A word whose bytes are the same.
word64-same :
    (m m' : Bytes) (a : ℕ) → ((d : ℕ) → d < 8 → m' (a + d) ≡ m (a + d)) → word64 m' a ≡ word64 m a
word64-same m m' a h = omega (
  arith,
  byte 0 a (omega arith) (omega arith),
  byte 1 (a + 1) refl (omega arith),
  byte 2 (a + 2) refl (omega arith),
  byte 3 (a + 2 + 1) (omega arith) (omega arith),
  byte 4 (a + 4) refl (omega arith),
  byte 5 (a + 4 + 1) (omega arith) (omega arith),
  byte 6 (a + 4 + 2) (omega arith) (omega arith),
  byte 7 (a + 4 + 2 + 1) (omega arith) (omega arith),
)
  where
    byte : (d x : ℕ) → x ≡ a + d → d < 8 → m' x ≡ m x
    byte d x e lt = rw e (h d lt)

-- The registers behind `load_context` and `retfq`, from a stack pointer at the context `c`.
loaded_context :
    (t : Machine) (a : ℕ) (c : Context)
    → t.regs rsp ≡ a
    → a + 56 < 2 ^ 64
    → c.r14 + 24 < 2 ^ 64
    → IsStored t.mem a c
    → let u = run (load_context ++ retfq ∷ []) t in
      (u.rip ≡ word64 t.mem (c.r14 + 8))
      × (u.cs ≡ word64 t.mem (c.r14 + 16) % 2 ^ 16)
      × (u.regs rsp ≡ c.r14 + 24)
      × (u.regs rbx ≡ word64 t.mem c.r14)
      × (u.regs rbp ≡ c.r13)
      × (u.regs r12 ≡ c.r12)
      × (u.regs r13 ≡ c.rbp)
      × (u.regs r14 ≡ c.rsp)
      × (u.regs r15 ≡ c.rbx)
      × (u.mem ≡ t.mem)
unfolding run execute
loaded_context t a c at la lc is =
    let n : ℕ → ℕ = λ (k : ℕ). (k + 8) % 2 ^ 64 in
    let e0 = at in
    let e1 : n (t.regs rsp) ≡ a + 8 = omega (arith, at) in
    let e2 : n (n (t.regs rsp)) ≡ a + 16 = omega (arith, at) in
    let e3 : n (n (n (t.regs rsp))) ≡ a + 24 = omega (arith, at) in
    let e4 : n (n (n (n (t.regs rsp)))) ≡ a + 32 = omega (arith, at) in
    let e5 : n (n (n (n (n (t.regs rsp))))) ≡ a + 40 = omega (arith, at) in
    let stack : word64 t.mem (n (n (n (n (n (t.regs rsp)))))) ≡ c.r14 =
      ap (word64 t.mem) e5 ∙ is.r14_word in
    let x : ℕ = word64 t.mem (n (n (n (n (n (t.regs rsp)))))) in
    let s1 : n x ≡ c.r14 + 8 = omega (arith, stack) in
    let s2 : n (n x) ≡ c.r14 + 16 = omega (arith, stack) in
    let s3 : (n x + 16) % 2 ^ 64 ≡ c.r14 + 24 = omega (arith, stack) in
    (
      ap (word64 t.mem) s1,
      ap (λ w. word64 t.mem w % 2 ^ 16) s2,
      s3,
      ap (word64 t.mem) stack,
      ap (word64 t.mem) e4 ∙ is.r13_word,
      ap (word64 t.mem) e3 ∙ is.r12_word,
      ap (word64 t.mem) e2 ∙ is.rbp_word,
      ap (word64 t.mem) e1 ∙ is.rsp_word,
      ap (word64 t.mem) e0 ∙ is.rbx_word,
      refl,
    )

-- `switch_context` to a context `c`, where neither the words of the context nor the three words that
-- its `r14` points to overlap the 56 bytes that are pushed: the fields of the context come back in the
-- reverse order, `rbx` in `r15` and so on, its `r14` becomes the stack pointer, and `rbx`, the address
-- of the next instruction and the code segment are read there. The fields `r15`, `rip` and `rflags` are
-- not read, and no byte of memory changes but the pushed ones, so the old context is not stored.
pub run-switch_context :
    (s : Machine) (c : Context)
    → IsStored s.mem (s.regs rsi) c
    → 56 ≤ s.regs rsp
    → s.regs rsp < 2 ^ 64
    → s.regs rsi + 56 < 2 ^ 64
    → c.r14 + 24 < 2 ^ 64
    → (s.regs rsi < s.regs rsp → s.regs rsi + 104 ≤ s.regs rsp)
    → (c.r14 < s.regs rsp → c.r14 + 80 ≤ s.regs rsp)
    → (u : Machine) × (run switch_context s ≡ u)
      × (u.rip ≡ word64 s.mem (c.r14 + 8))
      × (u.cs ≡ word64 s.mem (c.r14 + 16) % 2 ^ 16)
      × (u.regs rsp ≡ c.r14 + 24)
      × (u.regs rbx ≡ word64 s.mem c.r14)
      × (u.regs rbp ≡ c.r13)
      × (u.regs r12 ≡ c.r12)
      × (u.regs r13 ≡ c.rbp)
      × (u.regs r14 ≡ c.rsp)
      × (u.regs r15 ≡ c.rbx)
      × ((a : ℕ) → (a < s.regs rsp → a + 56 < s.regs rsp) → u.mem a ≡ s.mem a)
unfolding run execute
run-switch_context s c is low top new stack out1 out2 =
    let l = loaded_context moved (s.regs rsi) c refl new stack is' in
    (
      run (load_context ++ retfq ∷ []) moved,
      refl,
      l.0 ∙ stack_word 8 (omega arith),
      l.1 ∙ ap (λ w. w % 2 ^ 16) (stack_word 16 (omega arith)),
      l.2,
      l.3 ∙ word c.r14 (λ d h lt. omega (arith, out2 (omega (arith, lt)))),
      l.4,
      l.5,
      l.6,
      l.7,
      l.8,
      kept,
    )
  where
    saved : Machine
    saved = run save_context s

    moved : Machine
    moved = run (mov rdi rsp ∷ mov rsp rsi ∷ []) saved

    kept : (a : ℕ) → (a < s.regs rsp → a + 56 < s.regs rsp) → moved.mem a ≡ s.mem a
    kept a out = saved_mem s a low top out

    word :
        (a : ℕ)
        → ((d : ℕ) → d < 8 → a + d < s.regs rsp → a + d + 56 < s.regs rsp)
        → word64 moved.mem a ≡ word64 s.mem a
    word a out = word64-same s.mem moved.mem a (λ d h. kept (a + d) (out d h))

    stack_word : (k : ℕ) → k ≤ 16 → word64 moved.mem (c.r14 + k) ≡ word64 s.mem (c.r14 + k)
    stack_word k few = word (c.r14 + k) (λ d h lt. omega (arith, few, h, out2 (omega (arith, lt))))

    read : (k : ℕ) → k ≤ 40 → word64 moved.mem (s.regs rsi + k) ≡ word64 s.mem (s.regs rsi + k)
    read k few = word (s.regs rsi + k) (λ d h lt. omega (arith, few, h, out1 (omega (arith, lt))))

    is' : IsStored moved.mem (s.regs rsi) c
    is' = record {
      rbx_word =
          word (s.regs rsi) (λ d h lt. omega (arith, h, out1 (omega (arith, lt)))) ∙ is.rbx_word;
      rsp_word = read 8 (omega arith) ∙ is.rsp_word;
      rbp_word = read 16 (omega arith) ∙ is.rbp_word;
      r12_word = read 24 (omega arith) ∙ is.r12_word;
      r13_word = read 32 (omega arith) ∙ is.r13_word;
      r14_word = read 40 (omega arith) ∙ is.r14_word;
    }
