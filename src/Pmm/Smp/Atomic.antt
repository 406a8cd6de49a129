-- ===== src/Pmm/Smp/Atomic.antt =====
-- Interleaved calls against calls one after another.
use lord.Prelude.{ℕ, ◌≡◌, refl, sym, ap, subst, ◌∙◌, ◌≢◌, true, false, arith, ℕ_discrete}
use lord.Pmm.{Pmm}
use lord.Pmm.Smp.{
  Pc, idle, free_spin, alloc_spin, free_link, free_head, free_count, free_release, alloc_test,
  alloc_load, alloc_next, alloc_count, alloc_release, critical, Move, System, update, pick, Steps,
  here, later, outside,
}
use lord.Pmm.Smp.Call.{
  Sequential, none_yet, Partial, stays, enters_free, enters_alloc, Move-Outer, goes_on, leaves,
  Move-Inner,
}

module _ (hhdm : ℕ) where
  -- No processor is inside, or one is.
  pub data IsAtomic (start : Pmm) (s : Pmm) (pc : ℕ → Pc) : Type 0 where
    quiet : Sequential hhdm start s → ((j : ℕ) → critical (pc j) ≡ false) → IsAtomic start s pc
    held :
        (i : ℕ) (b : Pmm)
        → Sequential hhdm start b
        → b.locked ≡ false
        → s.locked ≡ true
        → Partial hhdm b s (pc i)
        → ((j : ℕ) → j ≢ i → critical (pc j) ≡ false)
        → IsAtomic start s pc

  -- The state of the processors behind a step.
  step_IsAtomic :
      {start s s' : Pmm} {pc : ℕ → Pc} (i : ℕ) {q : Pc}
      → IsAtomic start s pc
      → Move hhdm s (pc i) s' q
      → IsAtomic start s' (update hhdm pc i q)
  step_IsAtomic {start} {s} {s'} {pc} i {q} (quiet seq out) mv = elim (Move-Outer hhdm mv (out i)) [
    | stays e c ↦ quiet (subst (Sequential hhdm start) (sym e) seq) (still_outside c)
    | enters_free addr l e at ↦
        held i s seq l (ap (λ t. t.locked) e) (rw (own, at) e) (λ j ne. rw (others j ne) (out j))
    | enters_alloc l e at ↦
        held i s seq l (ap (λ t. t.locked) e) (rw (own, at) e) (λ j ne. rw (others j ne) (out j))
  ]
    where
      own : update hhdm pc i q i ≡ q
      own = ground arith

      others : (j : ℕ) → j ≢ i → update hhdm pc i q j ≡ pc j
      others j ne = ground arith

      still_outside : critical q ≡ false → (j : ℕ) → critical (update hhdm pc i q j) ≡ false
      still_outside c j = elim (ℕ_discrete j i) [
        | yes e ↦ rw (e, own) c
        | no ne ↦ rw (others j ne) (out j)
      ]
  step_IsAtomic {start} {s} {s'} {pc} i {q} (held k b seq free l part out) mv =
      elim (ℕ_discrete i k) [
        | yes e ↦ elim (Move-Inner hhdm seq free mv l (rw e part)) [
          | goes_on c l' part' ↦
              held i b seq free l' (rw own part') (λ j ne. rw (others j ne) (out j (rw e at ne)))
          | leaves c seq' ↦ quiet seq' (all_outside e c)
        ]
        | no ne ↦ elim (Move-Outer hhdm mv (out i ne)) [
          | stays e c ↦
              held k b seq free (ap (λ t. t.locked) e ∙ l) (rw (others k (λ z. ne (sym z)), e) part)
                (λ j nj. still c j nj)
          | enters_free addr l' e at ↦ absurd (cc (l, l'))
          | enters_alloc l' e at ↦ absurd (cc (l, l'))
        ]
      ]
    where
      own : update hhdm pc i q i ≡ q
      own = ground arith

      others : (j : ℕ) → j ≢ i → update hhdm pc i q j ≡ pc j
      others j ne = ground arith

      all_outside : i ≡ k → critical q ≡ false → (j : ℕ) → critical (update hhdm pc i q j) ≡ false
      all_outside e c j = elim (ℕ_discrete j i) [
        | yes z ↦ rw (z, own) c
        | no ne ↦ rw (others j ne) (out j (rw e at ne))
      ]

      still : critical q ≡ false → (j : ℕ) → j ≢ k → critical (update hhdm pc i q j) ≡ false
      still c j nj = elim (ℕ_discrete j i) [
        | yes z ↦ rw (z, own) c
        | no ne ↦ rw (others j ne) (out j nj)
      ]

  pub Steps-IsAtomic :
      {start : Pmm} {y : System hhdm}
      → Steps hhdm (outside hhdm start) y
      → IsAtomic start y.shared y.pc
  Steps-IsAtomic here = quiet none_yet (λ j. refl)
  Steps-IsAtomic (later r (pick i mv)) = step_IsAtomic i (Steps-IsAtomic r) mv

  -- A processor inside holds the lock alone.
  pub inside_alone :
      {start s : Pmm} {pc : ℕ → Pc} (i : ℕ)
      → IsAtomic start s pc
      → critical (pc i) ≡ true
      → (s.locked ≡ true) × ((j : ℕ) → j ≢ i → critical (pc j) ≡ false)
  inside_alone i (quiet seq out) h = absurd (cc (out i, h))
  inside_alone {pc} i (held k b seq free l part out) h = elim (ℕ_discrete i k) [
    | yes e ↦ rw e (l, out)
    | no ne ↦ absurd (cc (out i ne, h))
  ]

  -- Whatever the interleaving, no two processors are inside `pmm_alloc` or `pmm_free` together.
  pub interleaved_excludes :
      {start : Pmm} {y : System hhdm}
      → Steps hhdm (outside hhdm start) y
      → (i j : ℕ) → critical (y.pc i) ≡ true
      → critical (y.pc j) ≡ true
      → i ≡ j
  interleaved_excludes {y} r i j hi hj = elim (Steps-IsAtomic r) [
    | quiet seq out ↦ absurd (cc (out i, hi))
    | held k b seq free l part out ↦ elim (ℕ_discrete i k) [
      | no ni ↦ absurd (cc (out i ni, hi))
      | yes ei ↦ elim (ℕ_discrete j k) [ no nj ↦ absurd (cc (out j nj, hj)) | yes ej ↦ ei ∙ sym ej ]
    ]
  ]

  not_inside : (t u : Pmm) (p : Pc) → critical p ≡ false → Partial hhdm t u p → ⊥
  not_inside t u idle c x = x
  not_inside t u (free_spin addr) c x = x
  not_inside t u alloc_spin c x = x
  not_inside t u (free_link addr) c x = cc c
  not_inside t u (free_head addr) c x = cc c
  not_inside t u free_count c x = cc c
  not_inside t u free_release c x = cc c
  not_inside t u alloc_test c x = cc c
  not_inside t u alloc_load c x = cc c
  not_inside t u (alloc_next addr) c x = cc c
  not_inside t u (alloc_count addr) c x = cc c
  not_inside t u (alloc_release addr) c x = cc c

  -- Whatever the interleaving, whenever no processor is inside, the allocator is in a state that calls
  -- of `pmm_alloc` and `pmm_free`, one after another, reach from the same start.
  pub interleaved-Sequential :
      {start : Pmm} {y : System hhdm}
      → Steps hhdm (outside hhdm start) y
      → ((j : ℕ) → critical (y.pc j) ≡ false)
      → Sequential hhdm start y.shared
  interleaved-Sequential {start} {y} r out = settle (Steps-IsAtomic r) out
    where
      settle :
          {s : Pmm} {pc : ℕ → Pc}
          → IsAtomic start s pc
          → ((j : ℕ) → critical (pc j) ≡ false)
          → Sequential hhdm start s
      settle (quiet seq _) h = seq
      settle {pc} (held k b seq free l part _) h = absurd (not_inside b _ (pc k) (h k) part)
