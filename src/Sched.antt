-- ===== src/Sched.antt =====
-- src/scheduler/sched.c: the processes of one processor, in the bytes of its structure.
pub mod Slots
pub mod Switch
mod Tests
use lord.Prelude.{ℕ, zero, suc, ◌+◌, ◌*◌, ◌/◌, ◌%◌, ◌^◌, Option, none, some, ◌==◌, if◌then◌else◌}
use lord.Kernel.{Outcome, done, killed, hangs, fault, ◌>>=◌}
use lord.Str.{Bytes, memset}
use lord.Acpi.{word32, word64}
use lord.HostApi.{put16, put32}
use lord.Kmalloc.{Heap, kmalloc}

-- The values of `proc_state`.
abbrev pub running : ℕ
running = 0

abbrev pub ready : ℕ
ready = 1

abbrev pub unused : ℕ
unused = 0

abbrev pub proc_max : ℕ
proc_max = 512

abbrev pub initial_stack_size : ℕ
initial_stack_size = 0x1_0000

-- `context`
pub record Context : Type 0 where
  pub rbx : ℕ
  pub rsp : ℕ
  pub rbp : ℕ
  pub r12 : ℕ
  pub r13 : ℕ
  pub r14 : ℕ
  pub r15 : ℕ
  pub rip : ℕ
  pub rflags : ℕ

-- `sizeof(proc)`: the context is packed, and two bytes of padding follow it.
abbrev pub proc_size : ℕ
proc_size = 96

-- `&proc_list[i]` in the structure of a processor, which is packed.
abbrev pub proc_at : (cpu_state i : ℕ) → ℕ
proc_at cpu_state i = cpu_state + 12 + proc_size * i

abbrev pub state_of : Bytes → (proc : ℕ) → ℕ
state_of m proc = word32 m (proc + 16)

-- The address of `current_process`, behind the processes.
abbrev pub current_process_at : (cpu_state : ℕ) → ℕ
current_process_at cpu_state = cpu_state + 12 + proc_size * proc_max

pub put64 : Bytes → (a v : ℕ) → Bytes
put64 m a v = put32 (put32 m a (v % 2 ^ 32)) (a + 4) (v / 2 ^ 32 % 2 ^ 32)

pub put_state : Bytes → (proc state : ℕ) → Bytes
put_state m proc state = put32 m (proc + 16) state

pub put_kstack : Bytes → (proc kstack : ℕ) → Bytes
unfolding put64
put_kstack m proc kstack = put64 m (proc + 8) kstack

pub put_pid : Bytes → (proc pid : ℕ) → Bytes
put_pid m proc pid = put16 m (proc + 20) (pid % 2 ^ 16)

pub put_rsp : Bytes → (proc rsp : ℕ) → Bytes
unfolding put64
put_rsp m proc rsp = put64 m (proc + 30) rsp

pub put_rip : Bytes → (proc rip : ℕ) → Bytes
unfolding put64
put_rip m proc rip = put64 m (proc + 78) rip

-- `get_cpu_struct()`, `next_pid`, and the heap with the bytes of memory.
pub record Sched : Type 0 where
  pub cpu_state : ℕ
  pub next_pid : ℕ
  pub heap : Heap

abbrev pub memory : Sched → Bytes
memory s = s.heap.mem

abbrev pub with_memory : Bytes → Sched → Sched
with_memory m s = record s { heap = record s.heap { mem = m } }

-- The loop of `alloc_process`: the address of the process.
pub slot_loop : (left i cpu_state : ℕ) → Bytes → Option ℕ
slot_loop zero i cpu_state m = none
slot_loop (suc left) i cpu_state m =
    let rest = slot_loop left (i + 1) cpu_state m in
    if state_of m (proc_at cpu_state i) == unused then some (proc_at cpu_state i) else rest

-- The stores of `alloc_process` behind the allocation. A stack that could not be allocated is only
-- logged.
pub fill_process : (kstack pid proc : ℕ) → Bytes → Bytes
unfolding put_kstack put_pid put_rip put_rsp
fill_process kstack pid proc m =
    put_rsp (put_rip (put_pid (put_kstack m proc kstack) proc pid) proc 0) proc
      ((kstack + initial_stack_size) % 2 ^ 64)

-- The process that it points to, 0 for `NULL`.
pub alloc_process : Sched → Outcome (ℕ × Sched)
unfolding slot_loop fill_process put_state
alloc_process s = elim (slot_loop proc_max 0 s.cpu_state (memory s)) [
  | none ↦ done (0, s)
  | some proc ↦
      kmalloc initial_stack_size (record s.heap { mem = put_state (memory s) proc ready }) >>= λ r.
      done (
        proc,
        record s {
          next_pid = s.next_pid + 1;
          heap = record r.1 { mem = fill_process r.0 s.next_pid proc r.1.mem };
        },
      )
]

pub add_task : (entry : ℕ) → Sched → Outcome Sched
unfolding alloc_process put_rip
add_task entry s = alloc_process s >>= λ r.
    if r.0 == 0 then killed else done (with_memory (put_rip (memory r.1) r.0 entry) r.1)

-- `proc_list[0] = idle`: the fourth initialiser, `READY`, is that of the pid.
pub put_idle : (proc : ℕ) → Bytes → Bytes
unfolding put_pid
put_idle proc m = put_pid (memset proc 0 proc_size m) proc ready

-- One round of the scheduler's loop, up to its first `switch_context`, where the result is the state
-- handed over. The context of the current process is read through `current_process`. A round in which
-- no process is ready changes nothing, and is followed by the same one.
pub schedule_loop : (left i : ℕ) → Sched → Outcome Sched
unfolding put64 put_state
schedule_loop zero i s = hangs
schedule_loop (suc left) i s =
    let rest = schedule_loop left (i + 1) s in
    let proc = proc_at s.cpu_state i in
    let current = current_process_at s.cpu_state in
    if state_of (memory s) proc == ready
    then (if word64 (memory s) current == 0
        then fault
        else done (with_memory (put_state (put64 (memory s) current proc) proc running) s))
    else rest

-- `test_task` is the address of that function.
pub scheduler_init : (test_task : ℕ) → Sched → Outcome Sched
unfolding add_task put_idle schedule_loop
scheduler_init test_task s =
    if word64 (memory s) (current_process_at s.cpu_state) == 0
    then (add_task test_task (with_memory (put_idle (proc_at s.cpu_state 0) (memory s)) s)
        >>= schedule_loop proc_max 0)
    else killed
