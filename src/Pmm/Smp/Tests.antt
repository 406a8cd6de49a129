-- ===== src/Pmm/Smp/Tests.antt =====
-- Two processors, and instances of the theorems.
use lord.Prelude.{ℕ, ◌≡◌, refl, true, false, arith}
use lord.Pmm.{Pmm, Words}
use lord.Pmm.Init.{boot}
use lord.Pmm.Smp.{
  idle, alloc_spin, alloc_test, critical, Move, System, update, pick, Steps, here, later, outside,
}
use lord.Pmm.Smp.Atomic.{interleaved_excludes, interleaved-Sequential}
use lord.Pmm.Smp.Call.{Sequential}
use lord.Pmm.Smp.Stuck.{IsStuck, none_free-IsStuck}

abbrev upper : ℕ
upper = 0x100_0000

abbrev blank : Words
blank a = 0

abbrev empty : Pmm
empty = boot blank

-- The processor 0 has entered `pmm_free` on a page, and the processor 1 spins in `pmm_alloc`.
contended : (y : System upper) × Steps upper (outside upper empty) y × (critical (y.pc 0) ≡ true)
contended = (
  _,
  later
      (later (later (later here (pick 0 (Move.call_free 0x2000))) (pick 1 Move.call_alloc))
        (pick 0 (Move.free_enter refl)))
      (pick 1 (Move.alloc_wait refl)),
  refl,
)

interleaved_excludes_example : ◌≡◌ {A = ℕ} 0 0
interleaved_excludes_example = interleaved_excludes upper contended.1 0 0 contended.2 contended.2

-- The same processor has returned.
finished :
    (y : System upper) × Steps upper (outside upper empty) y × ((j : ℕ) → critical (y.pc j) ≡ false)
finished = (
  _,
  later
      (later
        (later
          (later
            (later (later here (pick 0 (Move.call_free 0x2000))) (pick 0 (Move.free_enter refl)))
            (pick 0 Move.link))
          (pick 0 Move.head))
        (pick 0 Move.count_up))
      (pick 0 Move.free_leave),
  λ j. ground arith,
)

interleaved-Sequential_example : Sequential upper empty finished.0.shared
interleaved-Sequential_example = interleaved-Sequential upper finished.1 finished.2

-- The processor 0 is in `pmm_alloc` on an empty pool.
abbrev failing :
    (y : System upper) × Steps upper (outside upper empty) y
    × (y.pc 0 ≡ alloc_test)
    × (y.shared.free_page_count ≡ 0)
failing =
    (_, later (later here (pick 0 Move.call_alloc)) (pick 0 (Move.alloc_enter refl)), refl, refl)

abbrev behind_failing : System upper
behind_failing = record {
  shared = failing.0.shared;
  pc = update upper (update upper failing.0.pc 0 idle) 1 alloc_spin;
}

none_free-IsStuck_example :
    Move upper failing.0.shared (failing.0.pc 0) failing.0.shared idle
    × (behind_failing.shared ≡ failing.0.shared)
    × IsStuck upper behind_failing
none_free-IsStuck_example =
    none_free-IsStuck upper 0 failing.1 failing.2 failing.3 (later here (pick 1 Move.call_alloc))
