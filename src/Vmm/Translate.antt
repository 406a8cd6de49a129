-- ===== src/Vmm/Translate.antt =====
-- The walk of the processor through the page tables.
use lord.Prelude.{
  ℕ, ◌/◌, ◌%◌, ◌^◌, ◌≡◌, refl, sym, ap, ◌∙◌, true, inl, inr, Bool-cases, Option-cases, Option, none,
  some, if◌then◌else◌,
}
use lord.Bits.{and_mask}
use lord.Pmm.{Words}
use lord.Vmm.{slot, present, table_of, pml4_offset, pdp_offset, pd_offset, pt_offset}

module _ (hhdm : ℕ) where
  -- One level: the table that an entry points to, if the entry is present.
  unfoldable pub step : Words → (table index : ℕ) → Option ℕ
  step m table index =
      if present (m (slot table index)) then some (table_of hhdm (m (slot table index))) else none

  unfoldable pub walk_at : Words → (root j4 j3 j2 j1 : ℕ) → Option ℕ
  walk_at m root j4 j3 j2 j1 = elim (step m root j4) [
    | none ↦ none
    | some t3 ↦ elim (step m t3 j3) [
      | none ↦ none
      | some t2 ↦ elim (step m t2 j2) [ none ↦ none | some t1 ↦ some (slot t1 j1) ]
    ]
  ]

  -- The address of the last-level entry of a virtual address, if the three entries above it are
  -- present.
  unfoldable pub walk_slot : Words → (root va : ℕ) → Option ℕ
  unfolding walk_at
  walk_slot m root va =
      walk_at m root (va / 2 ^ 39 % 512) (va / 2 ^ 30 % 512) (va / 2 ^ 21 % 512) (va / 2 ^ 12 % 512)

  -- That entry.
  unfoldable pub walk : Words → (root va : ℕ) → Option ℕ
  unfolding walk_slot
  walk m root va = elim (walk_slot m root va) [ none ↦ none | some a ↦ some (m a) ]

  pub step_kept :
      (m' m : Words) (t j : ℕ) {t' : ℕ}
      → m' (slot t j) ≡ m (slot t j)
      → present (m (slot t j)) ≡ true
      → table_of hhdm (m (slot t j)) ≡ t'
      → step m' t j ≡ some t'
  unfolding step
  step_kept m' m t j kept here points = rw (step, kept, here, points)

  pub step-some :
      (m : Words) (t j t' : ℕ)
      → step m t j ≡ some t'
      → (present (m (slot t j)) ≡ true) × (table_of hhdm (m (slot t j)) ≡ t')
  unfolding step
  step-some m t j t' e = elim (Bool-cases (present (m (slot t j)))) [
    | inl here ↦ (here, cc (rw here at e))
    | inr absent ↦ absurd (cc (rw absent at e))
  ]

  pub walk_steps :
      (m : Words) (root : ℕ) {t3 t2 t1 : ℕ} (i4 i3 i2 i1 : ℕ)
      → step m root i4 ≡ some t3
      → step m t3 i3 ≡ some t2
      → step m t2 i2 ≡ some t1
      → walk_at m root i4 i3 i2 i1 ≡ some (slot t1 i1)
  unfolding walk_at
  walk_steps m root i4 i3 i2 i1 s4 s3 s2 = rw (walk_at, s4, s3, s2)

  walk_offsets :
      (m : Words) (root va : ℕ)
      → walk_slot m root va
        ≡ walk_at m root (pml4_offset va) (pdp_offset va) (pd_offset va) (pt_offset va)
  unfolding walk_slot
  walk_offsets m root va =
      rw
        (
          and_mask 9 (va / 2 ^ 39),
          and_mask 9 (va / 2 ^ 30),
          and_mask 9 (va / 2 ^ 21),
          and_mask 9 (va / 2 ^ 12),
        )
        refl

  -- The tables that a walk goes through.
  pub record Path4 (m : Words) (root va a : ℕ) : Type 0 where
    pub t3 : ℕ
    pub t2 : ℕ
    pub t1 : ℕ
    pub at4 : step m root (pml4_offset va) ≡ some t3
    pub at3 : step m t3 (pdp_offset va) ≡ some t2
    pub at2 : step m t2 (pd_offset va) ≡ some t1
    pub last : slot t1 (pt_offset va) ≡ a

  walk_at-some :
      (m : Words) (root i4 i3 i2 i1 a : ℕ)
      → walk_at m root i4 i3 i2 i1 ≡ some a
      → (t3 t2 t1 : ℕ) × (step m root i4 ≡ some t3)
        × (step m t3 i3 ≡ some t2)
        × (step m t2 i2 ≡ some t1)
        × (slot t1 i1 ≡ a)
  unfolding walk_at
  walk_at-some m root i4 i3 i2 i1 a e = elim (Option-cases (step m root i4)) [
    | inl bad ↦ absurd (cc (rw (walk_at, bad) at e))
    | inr (t3, e3) ↦ elim (Option-cases (step m t3 i3)) [
      | inl bad ↦ absurd (cc (rw (walk_at, e3, bad) at e))
      | inr (t2, e2) ↦ elim (Option-cases (step m t2 i2)) [
        | inl bad ↦ absurd (cc (rw (walk_at, e3, e2, bad) at e))
        | inr (t1, e1) ↦ (t3, t2, t1, e3, e2, e1, cc (rw (walk_at, e3, e2, e1) at e))
      ]
    ]
  ]

  pub walk_slot-Path4 :
      (m : Words) (root va a : ℕ) → walk_slot m root va ≡ some a → Path4 m root va a
  walk_slot-Path4 m root va a e =
      let (t3, t2, t1, e3, e2, e1, last) =
        walk_at-some m root _ _ _ _ a (sym (walk_offsets m root va) ∙ e) in
      record { t3 = t3; t2 = t2; t1 = t1; at4 = e3; at3 = e2; at2 = e1; last = last }

  pub Path4-walk_slot :
      (m : Words) (root va a : ℕ) → Path4 m root va a → walk_slot m root va ≡ some a
  Path4-walk_slot m root va a p =
      walk_offsets m root va ∙ walk_steps m root _ _ _ _ p.at4 p.at3 p.at2 ∙ ap some p.last
