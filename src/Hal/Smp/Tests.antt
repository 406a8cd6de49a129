-- ===== src/Hal/Smp/Tests.antt =====
-- Two processors on a new heap.
use lord.Prelude.{◌≡◌, refl, false, some, [], ◌∷◌, arith}
use lord.Kernel.{done}
use lord.Acpi.{word32}
use lord.Kmalloc.{Heap}
use lord.Kmalloc.Tests.{booted, booted-Reach}
use lord.Drivers.Pmt.{pmt_delay, delay_loop, pmt_read, ticks_since}
use lord.Hal.Apic.{lapic_timer_init, ap_apic_init}
use lord.Hal.Apic.Tests.{table_bytes, counter, current_count, reset}
use lord.Hal.Ioapic.{Stores}
use lord.Hal.Smp.{Ap, cpu_at, smp_init, ap_init, ap_init-smp_init}

abbrev timer_stores : Stores
timer_stores =
    (0xfee0_00f0, 0x1ff)
    ∷ (0xfee0_0380, 0)
    ∷ (0xfee0_03e0, 3)
    ∷ (0xfee0_0380, 0xffff_ffff)
    ∷ (0xfee0_0320, 0x1_0000)
    ∷ (0xfee0_0320, 0x2_0045)
    ∷ (0xfee0_0380, 280000)
    ∷ []

apic_starts : ap_apic_init counter table_bytes current_count 10 reset ≡ done (timer_stores, reset)
unfolding ap_apic_init lapic_timer_init pmt_delay delay_loop pmt_read ticks_since
apic_starts = refl

ap_init-smp_init_example :
    (h1 : Heap) × (s : Ap) × (smp_init (some (0 ∷ 1 ∷ [])) false booted ≡ done (cpu_at 0x1000, h1))
    × (ap_init counter table_bytes current_count 10 1
          (record { heap = h1; apic = reset; init_locked = false })
        ≡ done (cpu_at 0x1000, timer_stores, s))
    × (word32 s.heap.mem 0x1000 ≡ 1)
    × (s.init_locked ≡ false)
ap_init-smp_init_example =
    ap_init-smp_init counter table_bytes current_count 10 0 1 (1 ∷ []) reset reset timer_stores
      booted-Reach apic_starts (omega arith)
