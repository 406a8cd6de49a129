-- ===== src/Hal/Smp.antt =====
-- src/hal/smp.c: the structures of the processors, and the start of one more processor.
mod Tests
use lord.Prelude.{
  ℕ, ◌+◌, ◌/◌, ◌%◌, ◌^◌, ◌<◌, ◌≡◌, refl, Bool, true, false, Option, none, some, List, [], ◌∷◌,
  arith, ◌==◌, if◌then◌else◌,
}
use lord.Kernel.{Outcome, done, killed, hangs, fault, ◌>>=◌}
use lord.Str.{Bytes, put, memset}
use lord.Acpi.{word32}
use lord.Kmalloc.{Heap, kmalloc}
use lord.Kmalloc.Alias.{Reach, kmalloc-same_address}
use lord.Drivers.Pmt.{Counter}
use lord.Hal.Apic.{Apic, ap_apic_init}
use lord.Hal.Ioapic.{Stores}

-- `sizeof(cpu_state)`, with 512 processes of 96 bytes.
abbrev pub cpu_state_size : ℕ
cpu_state_size = 49246

-- The registers in which a processor has the address of its structure.
pub record Cpu : Type 0 where
  pub gs_base : ℕ
  pub kernel_gs_base : ℕ

abbrev pub cpu_at : ℕ → Cpu
cpu_at a = record { gs_base = a; kernel_gs_base = a }

-- `cpu_struct->lapic_id = lapic_id`, the first field.
pub put_lapic_id : Bytes → (cpu_struct lapic_id : ℕ) → Bytes
put_lapic_id m a v =
    put (put (put (put m a (v % 2 ^ 8)) (a + 1) (v / 2 ^ 8 % 2 ^ 8)) (a + 2) (v / 2 ^ 16 % 2 ^ 8))
      (a + 3) (v / 2 ^ 24 % 2 ^ 8)

-- The first processor, with the local APIC numbers of all of them; `none` is a null response. The
-- others are given `ap_init` to run.
unfoldable pub smp_init :
    (cpus : Option (List ℕ)) → (kernel_killed : Bool) → Heap → Outcome (Cpu × Heap)
smp_init none kernel_killed h = killed
smp_init (some []) kernel_killed h = fault
smp_init (some (id ∷ ids)) kernel_killed h = kmalloc cpu_state_size h >>= λ r.
    if r.0 == 0
    then fault
    else if kernel_killed
    then killed
    else done (cpu_at r.0, record r.1 { mem = put_lapic_id r.1.mem r.0 id })

-- The state that `ap_init` changes, and `ap_init_lock`.
pub record Ap : Type 0 where
  pub heap : Heap
  pub apic : Apic
  pub init_locked : Bool

-- `ap_init` up to its endless loop, with the stores to the local APIC. The tables of the processor are
-- loaded by assembly.
unfoldable pub ap_init :
    Counter
    → Bytes
    → (current_count : ℕ → ℕ) → (fuel lapic_id : ℕ) → Ap
    → Outcome (Cpu × Stores × Ap)
ap_init c m current_count fuel lapic_id s =
    if s.init_locked
    then hangs
    else kmalloc cpu_state_size s.heap >>= λ r.
        if r.0 == 0
        then fault
        else (ap_apic_init c m current_count fuel s.apic >>= λ q. done (
          cpu_at r.0,
          q.0,
          record {
            heap = record r.1 {
              mem = put_lapic_id (memset r.0 0 cpu_state_size r.1.mem) r.0 lapic_id;
            };
            apic = q.1;
            init_locked = false;
          },
        ))

put_lapic_id_lem : (m : Bytes) (a v : ℕ) → v < 2 ^ 32 → word32 (put_lapic_id m a v) a ≡ v
unfolding put_lapic_id
put_lapic_id_lem m a v h = ground arith

-- On any heap that calls of the allocator and stores have left, `smp_init` returns for the first
-- processor, and `ap_init` behind it for the next, if the start of its local APIC returns: both have
-- the start of the heap as their structure, and the number of the second processor is in it.
pub ap_init-smp_init :
    {base a : ℕ} {m0 : Bytes} {h : Heap} (c : Counter) (m : Bytes) (current_count : ℕ → ℕ)
    (fuel id next : ℕ) (ids : List ℕ) (apic apic' : Apic) (stores : Stores)
    → Reach base a m0 h
    → ap_apic_init c m current_count fuel apic ≡ done (stores, apic')
    → next < 2 ^ 32
    → (h1 : Heap) × (s : Ap) × (smp_init (some (id ∷ ids)) false h ≡ done (cpu_at a, h1))
      × (ap_init c m current_count fuel next
            (record { heap = h1; apic = apic; init_locked = false })
          ≡ done (cpu_at a, stores, s))
      × (word32 s.heap.mem a ≡ next)
      × (s.init_locked ≡ false)
unfolding smp_init ap_init
ap_init-smp_init {a} c m current_count fuel id next ids apic apic' stores r starts few =
    let (g, first, nonnull) = kmalloc-same_address cpu_state_size r in
    let h1 : Heap = record g { mem = put_lapic_id g.mem a id } in
    let r1 = Reach.store (put_lapic_id g.mem a id) (Reach.alloc cpu_state_size r first) in
    let (g', second, _) = kmalloc-same_address cpu_state_size r1 in
    let given : (a == 0) ≡ false = ground (arith, nonnull) in
    (
      h1,
      record {
        heap = record g' { mem = put_lapic_id (memset a 0 cpu_state_size g'.mem) a next };
        apic = apic';
        init_locked = false;
      },
      rw (first, given) refl,
      rw (second, given, starts) refl,
      put_lapic_id_lem _ a next few,
      refl,
    )
