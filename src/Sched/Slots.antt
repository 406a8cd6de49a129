-- ===== src/Sched/Slots.antt =====
-- The processes behind `alloc_process` and `scheduler_init`, whose stacks come from the same heap as
-- the structure of the processor.
use native.Mathlib.Nat.{add-zero}
use lord.Prelude.{
  ℕ, zero, suc, ◌+◌, ◌%◌, ◌^◌, ◌≤◌, ◌<◌, ◌≡◌, ◌≢◌, refl, ap, ◌∙◌, true, false, some, arith, inl,
  inr, Bool-cases, ℕ_discrete, ◌==◌, ltb, leb, ◌&&◌, if◌then◌else◌,
}
use lord.Kernel.{done, killed, hangs}
use lord.Str.{Bytes, memset}
use lord.Str.Blocks.{memset_lem}
use lord.Acpi.{word64}
use lord.Kmalloc.Alias.{Reach, head_block, kmalloc-same_address, kmalloc-wipes}
use lord.Kmalloc.Inv.{reuses}
use lord.Sched.{
  running, ready, unused, initial_stack_size, proc_max, proc_size, proc_at, state_of,
  current_process_at, put64, put_state, put_kstack, put_pid, put_rsp, put_rip, Sched, memory,
  with_memory, slot_loop, fill_process, alloc_process, add_task, put_idle, schedule_loop,
  scheduler_init,
}

-- Bytes outside the stores.
put_kstack_far :
    (m : Bytes) (proc v x : ℕ) → (proc + 8 ≤ x → proc + 16 ≤ x) → put_kstack m proc v x ≡ m x
unfolding put_kstack put64
put_kstack_far m proc v x out = ground (arith, out)

put_pid_far :
    (m : Bytes) (proc v x : ℕ) → (proc + 20 ≤ x → proc + 22 ≤ x) → put_pid m proc v x ≡ m x
unfolding put_pid
put_pid_far m proc v x out = ground (arith, out)

put_rsp_far :
    (m : Bytes) (proc v x : ℕ) → (proc + 30 ≤ x → proc + 38 ≤ x) → put_rsp m proc v x ≡ m x
unfolding put_rsp put64
put_rsp_far m proc v x out = ground (arith, out)

put_rip_far :
    (m : Bytes) (proc v x : ℕ) → (proc + 78 ≤ x → proc + 86 ≤ x) → put_rip m proc v x ≡ m x
unfolding put_rip put64
put_rip_far m proc v x out = ground (arith, out)

-- The bytes of a state lie outside the stores to the other fields, of this process or another.
abbrev IsStateByte : (cpu_state x : ℕ) → Type 0
IsStateByte cpu_state x = (k : ℕ) × (d : ℕ) × (d < 4) × (x ≡ proc_at cpu_state k + 16 + d)

fill_process_far :
    (kstack pid cpu_state j x : ℕ) (m : Bytes)
    → IsStateByte cpu_state x
    → fill_process kstack pid (proc_at cpu_state j) m x ≡ m x
unfolding fill_process
fill_process_far kstack pid cpu_state j x m (k, d, few, e) =
    let p : ℕ = proc_at cpu_state j in
    let m1 : Bytes = put_kstack m p kstack in
    let m2 : Bytes = put_pid m1 p pid in
    let m3 : Bytes = put_rip m2 p 0 in
    put_rsp_far m3 p ((kstack + initial_stack_size) % 2 ^ 64) x (λ h. omega arith)
    ∙ put_rip_far m2 p 0 x (λ h. omega arith)
    ∙ put_pid_far m1 p pid x (λ h. omega arith)
    ∙ put_kstack_far m p kstack x (λ h. omega arith)

-- A state whose bytes are 0.
zero_state :
    (m : Bytes) (proc : ℕ) → ((d : ℕ) → d < 4 → m (proc + 16 + d) ≡ 0) → state_of m proc ≡ 0
zero_state m proc h =
    let e0 : m (proc + 16) ≡ 0 = rw add-zero at (h 0 (omega arith)) in
    let third : proc + 16 + 3 ≡ proc + 16 + 2 + 1 = omega arith in
    let e3 : m (proc + 16 + 2 + 1) ≡ 0 = rw third at (h 3 (omega arith)) in
    omega (arith, e0, h 1 (omega arith), h 2 (omega arith), e3)

same_state :
    (m m' : Bytes) (proc : ℕ)
    → ((d : ℕ) → d < 4 → m' (proc + 16 + d) ≡ m (proc + 16 + d))
    → state_of m' proc ≡ state_of m proc
same_state m m' proc h =
    let e0 : m' (proc + 16) ≡ m (proc + 16) = rw add-zero at (h 0 (omega arith)) in
    let third : proc + 16 + 3 ≡ proc + 16 + 2 + 1 = omega arith in
    let e3 : m' (proc + 16 + 2 + 1) ≡ m (proc + 16 + 2 + 1) = rw third at (h 3 (omega arith)) in
    omega (arith, e0, h 1 (omega arith), h 2 (omega arith), e3)

proc_at-nonnull : (cpu_state j : ℕ) → 0 < cpu_state → (proc_at cpu_state j == 0) ≡ false
proc_at-nonnull cpu_state j pos = ground arith

put_rip-state_of :
    (m : Bytes) (cpu_state j k entry : ℕ)
    → state_of (put_rip m (proc_at cpu_state j) entry) (proc_at cpu_state k)
      ≡ state_of m (proc_at cpu_state k)
put_rip-state_of m cpu_state j k entry =
    same_state m (put_rip m (proc_at cpu_state j) entry) (proc_at cpu_state k) (λ d few.
      put_rip_far m (proc_at cpu_state j) entry (proc_at cpu_state k + 16 + d) (λ h. omega arith))

in_proc :
    (a x y : ℕ)
    → a ≤ x
    → x < a + proc_size
    → (if leb a x && ltb x (a + proc_size) then 0 else y) ≡ 0
in_proc a x y lo hi = ground arith

-- The first process whose state is that of an unused one.
slot_loop_first :
    (left i cpu_state j : ℕ) (m : Bytes)
    → i ≤ j
    → j < i + left
    → ((k : ℕ) → i ≤ k → k < j → state_of m (proc_at cpu_state k) ≢ running)
    → state_of m (proc_at cpu_state j) ≡ running
    → slot_loop left i cpu_state m ≡ some (proc_at cpu_state j)
unfolding slot_loop
slot_loop_first zero i cpu_state j m h l before at = absurd (omega arith)
slot_loop_first (suc left) i cpu_state j m h l before at = elim (ℕ_discrete i j) [
  | yes e ↦
      let here : (state_of m (proc_at cpu_state i) == unused) ≡ true = rw e (ground (arith, at)) in
      rw (slot_loop, here) (ap (λ n. some (proc_at cpu_state n)) e)
  | no ne ↦
      let taken : (state_of m (proc_at cpu_state i) == unused) ≡ false =
        ground (arith, before i (omega arith) (omega arith)) in
      rw (slot_loop, taken)
        (slot_loop_first left (i + 1) cpu_state j m (omega arith) (omega arith)
          (λ k lo hi. before k (omega arith) hi) at)
]

in_stack :
    (a x y : ℕ)
    → a ≤ x
    → x < a + initial_stack_size
    → (if leb a x && ltb x (a + initial_stack_size) then 0 else y) ≡ 0
in_stack a x y lo hi = ground arith

-- Behind `alloc_process` the structure of the processor, at the start of the heap, has only states 0.
module _ {base : ℕ} {m0 : Bytes} (s : Sched) (r : Reach base s.cpu_state m0 s.heap)
    (anew : reuses initial_stack_size (head_block s.heap) ≡ false) where
  -- Where the structure of the processor is at the start of the heap, as `smp_init` leaves it, the heap
  -- has no freed block that is large enough, and a process has the state `RUNNING`: `alloc_process`
  -- gives away the first such process and counts the process numbers on; and the allocation of its
  -- stack wipes the structure, so that no process is ready afterwards, not even the new one. The heap
  -- stays one that the operations of Kmalloc reach.
  pub alloc_process-wipes :
      (j : ℕ)
      → j < proc_max
      → ((k : ℕ) → k < j → state_of (memory s) (proc_at s.cpu_state k) ≢ running)
      → state_of (memory s) (proc_at s.cpu_state j) ≡ running
      → (s' : Sched) × (alloc_process s ≡ done (proc_at s.cpu_state j, s'))
        × (s'.cpu_state ≡ s.cpu_state)
        × (s'.next_pid ≡ s.next_pid + 1)
        × ((k : ℕ) → k < proc_max → state_of (memory s') (proc_at s.cpu_state k) ≡ unused)
        × Reach base s'.cpu_state m0 s'.heap
  unfolding alloc_process
  alloc_process-wipes j few before here =
      let slot : slot_loop proc_max 0 s.cpu_state (memory s) ≡ some (proc_at s.cpu_state j) =
        slot_loop_first proc_max 0 s.cpu_state j (memory s) (omega arith) (omega arith)
          (λ k lo hi. before k hi) here in
      let r1 = Reach.store (put_state (memory s) (proc_at s.cpu_state j) ready) r in
      let (g, allocates, wiped, block) = kmalloc-wipes initial_stack_size r1 (omega arith) anew in
      (
        record s {
          next_pid = s.next_pid + 1;
          heap = record g {
            mem = fill_process s.cpu_state s.next_pid (proc_at s.cpu_state j) g.mem;
          };
        },
        rw (alloc_process, slot, allocates) refl,
        refl,
        refl,
        λ k lt.
            zero_state (fill_process s.cpu_state s.next_pid (proc_at s.cpu_state j) g.mem)
              (proc_at s.cpu_state k)
              (λ d dl.
                fill_process_far s.cpu_state s.next_pid s.cpu_state j
                  (proc_at s.cpu_state k + 16 + d) g.mem (k, d, dl, refl)
                ∙ wiped (proc_at s.cpu_state k + 16 + d)
                ∙ in_stack s.cpu_state (proc_at s.cpu_state k + 16 + d) _ (omega arith)
                    (omega arith)),
        Reach.store _ (Reach.alloc initial_stack_size r1 allocates),
      )

  -- The processes behind `add_task` are not ready either.
  add_task-wipes :
      (entry j : ℕ)
      → j < proc_max
      → ((k : ℕ) → k < j → state_of (memory s) (proc_at s.cpu_state k) ≢ running)
      → state_of (memory s) (proc_at s.cpu_state j) ≡ running
      → 0 < s.cpu_state
      → (s' : Sched) × (add_task entry s ≡ done s')
        × (s'.cpu_state ≡ s.cpu_state)
        × ((k : ℕ) → k < proc_max → state_of (memory s') (proc_at s.cpu_state k) ≡ unused)
  unfolding add_task
  add_task-wipes entry j few before here pos =
      let (s1, returns, same, pid, states, reach) = alloc_process-wipes j few before here in
      let p : ℕ = proc_at s.cpu_state j in
      let given : (p == 0) ≡ false = proc_at-nonnull s.cpu_state j pos in
      (
        with_memory (put_rip (memory s1) p entry) s1,
        rw (add_task, returns, given) refl,
        same,
        λ k lt. put_rip-state_of (memory s1) s.cpu_state j k entry ∙ states k lt,
      )

-- A round in which no process is ready.
schedule_loop-hangs :
    (left i : ℕ) (s : Sched)
    → ((k : ℕ) → k < i + left → state_of (memory s) (proc_at s.cpu_state k) ≡ unused)
    → schedule_loop left i s ≡ hangs
unfolding schedule_loop
schedule_loop-hangs zero i s h = refl
schedule_loop-hangs (suc left) i s h =
    let idle : (state_of (memory s) (proc_at s.cpu_state i) == ready) ≡ false =
      ground (arith, h i (omega arith)) in
    rw (schedule_loop, idle) (schedule_loop-hangs left (i + 1) s (λ k lt. h k (omega arith)))

-- The process that `scheduler_init` writes over the first slot is not ready.
put_idle-state_of : (m : Bytes) (proc : ℕ) → state_of (put_idle proc m) proc ≡ running
unfolding put_idle
put_idle-state_of m proc = zero_state (put_pid (memset proc 0 proc_size m) proc ready) proc (λ d dl.
    put_pid_far (memset proc 0 proc_size m) proc ready (proc + 16 + d) (λ h. omega arith)
    ∙ memset_lem proc 0 proc_size m (proc + 16 + d)
    ∙ in_proc proc (proc + 16 + d) _ (omega arith) (omega arith))

-- Where the structure of the processor is at the start of the heap, as `smp_init` leaves it, and the
-- heap has no freed block that is large enough, `scheduler_init` kills the kernel if there is a
-- current process, and otherwise searches forever: the process that it makes is wiped by the
-- allocation of its own stack, and no process is ready.
pub scheduler_init-hangs :
    (test_task : ℕ) {base : ℕ} {m0 : Bytes} (s : Sched)
    → Reach base s.cpu_state m0 s.heap
    → reuses initial_stack_size (head_block s.heap) ≡ false
    → scheduler_init test_task s
      ≡ (if word64 (memory s) (current_process_at s.cpu_state) == 0 then hangs else killed)
unfolding scheduler_init
scheduler_init-hangs test_task s r anew =
    elim (Bool-cases (word64 (memory s) (current_process_at s.cpu_state) == 0)) [
      | inr current ↦ rw (scheduler_init, current) refl
      | inl none_yet ↦
          let (_, _, nonnull) = kmalloc-same_address 0 r in
          let m : Bytes = put_idle (proc_at s.cpu_state 0) (memory s) in
          let (s', returns, same, states) =
            add_task-wipes (with_memory m s) (Reach.store m r) anew test_task 0 (omega arith)
              (λ k lt. absurd (omega arith)) (put_idle-state_of (memory s) (proc_at s.cpu_state 0))
              (omega (arith, nonnull)) in
          rw (scheduler_init, none_yet, returns)
            (schedule_loop-hangs proc_max 0 s'
              (λ k lt. ap (λ a. state_of (memory s') (proc_at a k)) same ∙ states k lt))
    ]
