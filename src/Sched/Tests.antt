-- ===== src/Sched/Tests.antt =====
-- Processes in a structure at the start of a heap, and instances of the theorems.
use lord.Prelude.{ℕ, zero, suc, ◌+◌, ◌<◌, ◌≡◌, ◌≢◌, refl, arith, leb, ◌==◌, if◌then◌else◌}
use lord.Kernel.{done, hangs, killed}
use lord.Str.{Bytes}
use lord.Acpi.{word64}
use lord.Kmalloc.Alias.{Reach}
use lord.Kmalloc.Tests.{booted, booted-Reach, sevens}
use lord.Sched.{
  Sched, running, unused, proc_max, proc_at, state_of, current_process_at, memory, alloc_process,
  scheduler_init,
}
use lord.Sched.Slots.{alloc_process-wipes, scheduler_init-hangs}

-- The state of the first process is not zero, those of the others are.
abbrev bytes : Bytes
bytes a = if leb (proc_at 0x1000 1) a then 0 else 7

abbrev fresh : Sched
fresh = record { cpu_state = 0x1000; next_pid = 1; heap = record booted { mem = bytes } }

fresh-Reach : Reach 1 0x1000 sevens fresh.heap
fresh-Reach = Reach.store bytes booted-Reach

taken : (k : ℕ) → k < 1 → state_of bytes (proc_at 0x1000 k) ≢ running
taken zero lt e = absurd (omega (arith, e))
taken (suc k) lt e = absurd (omega arith)

alloc_process-wipes_example :
    (s' : Sched) × (alloc_process fresh ≡ done (proc_at 0x1000 1, s'))
    × (s'.cpu_state ≡ 0x1000)
    × (s'.next_pid ≡ 1 + 1)
    × ((k : ℕ) → k < proc_max → state_of (memory s') (proc_at 0x1000 k) ≡ unused)
    × Reach 1 s'.cpu_state sevens s'.heap
alloc_process-wipes_example = alloc_process-wipes fresh fresh-Reach refl 1 (omega arith) taken refl

scheduler_init-hangs_example :
    scheduler_init 0x5000 fresh
    ≡ (if word64 bytes (current_process_at 0x1000) == 0 then hangs else killed)
scheduler_init-hangs_example = scheduler_init-hangs 0x5000 fresh fresh-Reach refl
