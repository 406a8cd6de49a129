-- ===== src/Pmm/Smp/Stuck.antt =====
-- The processors behind a `pmm_alloc` that found the pool empty.
use lord.Prelude.{ℕ, ◌≡◌, refl, ap, ◌∙◌, ◌≢◌, true, false, arith, ◌==◌, ℕ_discrete}
use lord.Pmm.{Pmm}
use lord.Pmm.Smp.{
  Pc, idle, alloc_test, critical, Move, System, update, pick, Steps, here, later, outside,
}
use lord.Pmm.Smp.Atomic.{Steps-IsAtomic, inside_alone}

module _ (hhdm : ℕ) where
  -- The lock is held, and no processor is inside to free it.
  pub record IsStuck (y : System hhdm) : Type 0 where
    pub locked : y.shared.locked ≡ true
    pub outside : (j : ℕ) → critical (y.pc j) ≡ false

  Move-locked :
      {s s' : Pmm} {p q : Pc}
      → Move hhdm s p s' q
      → s.locked ≡ true
      → critical p ≡ false
      → (s' ≡ s) × (critical q ≡ false)
  Move-locked (Move.call_free addr) l h = (refl, refl)
  Move-locked Move.call_alloc l h = (refl, refl)
  Move-locked (Move.free_wait k) l h = (refl, refl)
  Move-locked (Move.free_enter k) l h = absurd (cc (k, l))
  Move-locked (Move.alloc_wait k) l h = (refl, refl)
  Move-locked (Move.alloc_enter k) l h = absurd (cc (k, l))
  Move-locked Move.link l h = absurd (cc h)
  Move-locked Move.head l h = absurd (cc h)
  Move-locked Move.count_up l h = absurd (cc h)
  Move-locked Move.free_leave l h = absurd (cc h)
  Move-locked (Move.none_free e) l h = absurd (cc h)
  Move-locked (Move.some_free e) l h = absurd (cc h)
  Move-locked Move.load l h = absurd (cc h)
  Move-locked Move.next l h = absurd (cc h)
  Move-locked Move.count_down l h = absurd (cc h)
  Move-locked Move.alloc_leave l h = absurd (cc h)

  step_IsStuck :
      {s s' : Pmm} {pc : ℕ → Pc} (i : ℕ) {q : Pc}
      → IsStuck (record { shared = s; pc = pc })
      → Move hhdm s (pc i) s' q
      → (s' ≡ s) × IsStuck (record { shared = s'; pc = update hhdm pc i q })
  step_IsStuck {pc} i {q} stuck mv =
      let (same, out) = Move-locked mv stuck.locked (stuck.outside i) in
      (
        same,
        record {
          locked = ap (λ t. t.locked) same ∙ stuck.locked;
          outside = λ j. elim (ℕ_discrete j i) [
            | yes e ↦ let own : (i == i) ≡ true = ground arith in rw (e, own) out
            | no ne ↦ let other : (j == i) ≡ false = ground arith in rw other (stuck.outside j)
          ];
        },
      )

  -- Where a call of `pmm_alloc` finds the pool empty, it returns `NULL` with the lock held and no
  -- processor inside; from then on, whatever any number of processors do, no call of `pmm_alloc` or
  -- `pmm_free` ever gets inside, and the allocator never changes.
  pub none_free-IsStuck :
      {start : Pmm} {y z : System hhdm} (i : ℕ)
      → Steps hhdm (outside hhdm start) y
      → y.pc i ≡ alloc_test
      → y.shared.free_page_count ≡ 0
      → Steps hhdm (record { shared = y.shared; pc = update hhdm y.pc i idle }) z
      → Move hhdm y.shared (y.pc i) y.shared idle × (z.shared ≡ y.shared) × IsStuck z
  none_free-IsStuck {y} i reached at empty r = (rw at (Move.none_free empty), (go r).0, (go r).1)
    where
      alone : (y.shared.locked ≡ true) × ((j : ℕ) → j ≢ i → critical (y.pc j) ≡ false)
      alone = inside_alone hhdm i (Steps-IsAtomic hhdm reached) (ap critical at)

      begun : IsStuck (record { shared = y.shared; pc = update hhdm y.pc i idle })
      begun = record {
        locked = alone.0;
        outside = λ j. elim (ℕ_discrete j i) [
          | yes e ↦ let own : (i == i) ≡ true = ground arith in rw (e, own) refl
          | no ne ↦ let other : (j == i) ≡ false = ground arith in rw other (alone.1 j ne)
        ];
      }

      go :
          {z : System hhdm}
          → Steps hhdm (record { shared = y.shared; pc = update hhdm y.pc i idle }) z
          → (z.shared ≡ y.shared) × IsStuck z
      go here = (refl, begun)
      go (later s (pick k mv)) =
          let (same, stuck) = go s in
          let (same', stuck') = step_IsStuck k stuck mv in (same' ∙ same, stuck')
