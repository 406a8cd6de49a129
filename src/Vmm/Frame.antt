-- ===== src/Vmm/Frame.antt =====
-- The descent through tables that are there already.
use lord.Prelude.{ℕ, suc, ◌≤◌, ◌<◌, ◌≡◌, ap, ◌≢◌, false, some, List, arith, ◌==◌}
use lord.Kernel.{done}
use lord.Pmm.{Pmm}
use lord.Vmm.{Vmm, get_lower_table, descend, descend_to_pt, pml4_offset, pdp_offset, pd_offset}
use lord.Vmm.Tables.{IsTables, IsMapped}
use lord.Vmm.Translate.{
  walk_slot, step, step-some, step_kept, Path4, walk_slot-Path4, Path4-walk_slot,
}
use lord.Vmm.Space.{Levels, Path4-Levels, index-lt}
use lord.Vmm.Walk.{Mapped}

module _ (hhdm : ℕ) where
  present_table :
      {level : ℕ → ℕ} (s : Pmm) (t o : ℕ) {t' k : ℕ}
      → IsTables hhdm level s.mem
      → step hhdm s.mem t o ≡ some t'
      → level t' ≡ suc k
      → descend hhdm t o s ≡ done (t', s)
  unfolding descend get_lower_table
  present_table {level} s t o {t'} tables e l =
      let (here, points) = step-some hhdm s.mem t o t' e in
      let nonnull : (t' == 0) ≡ false = ground (arith, null t' l) in
      rw (descend, get_lower_table, here, points, nonnull)
    where
      null : (u : ℕ) {i : ℕ} → level u ≡ suc i → u ≢ 0
      null u h z = omega (arith, ap level z, h, tables.null)

  -- Where all three tables are there, the descent of `vmm_map_page` and `vmm_free_page` finds the last
  -- one and changes nothing.
  pub descend_to_pt-Path4 :
      {level : ℕ → ℕ} {s : Pmm} {root va a : ℕ} (p : Path4 hhdm s.mem root va a)
      → IsTables hhdm level s.mem
      → level root ≡ 4
      → descend_to_pt hhdm root va s ≡ done (p.t1, s)
  unfolding descend_to_pt
  descend_to_pt-Path4 {s} {root} {va} p tables lr =
      let l = Path4-Levels hhdm p tables lr in
      rw (
        descend_to_pt,
        present_table s root (pml4_offset va) tables p.at4 l.on3,
        present_table s p.t3 (pdp_offset va) tables p.at3 l.on2,
        present_table s p.t2 (pd_offset va) tables p.at2 l.on1,
      )

  -- The tables of an address are kept by a mapping.
  pub slot_stays :
      {level : ℕ → ℕ} {v : Vmm} {xs : List ℕ} {root va pa flags : ℕ}
      (m : Mapped hhdm level root va pa flags v xs) (other a : ℕ)
      → IsMapped hhdm level v.pmm xs
      → level root ≡ 4
      → walk_slot hhdm v.pmm.mem root other ≡ some a
      → walk_slot hhdm m.after.pmm.mem root other ≡ some a
  slot_stays {level} {v} {xs} {root} m other a is lr at =
      Path4-walk_slot hhdm m.after.pmm.mem root other a (record {
        t3 = p.t3;
        t2 = p.t2;
        t1 = p.t1;
        at4 = kept root p.t3 _ (omega (arith, lr)) (index-lt _) p.at4;
        at3 = kept p.t3 p.t2 _ (omega (arith, l.on3)) (index-lt _) p.at3;
        at2 = kept p.t2 p.t1 _ (omega (arith, l.on2)) (index-lt _) p.at2;
        last = p.last;
      })
    where
      p : Path4 hhdm v.pmm.mem root other a
      p = walk_slot-Path4 hhdm v.pmm.mem root other a at

      l : Levels hhdm level p
      l = Path4-Levels hhdm p is.tables lr

      kept :
          (t t' j : ℕ)
          → 2 ≤ level t
          → j < 512
          → step hhdm v.pmm.mem t j ≡ some t'
          → step hhdm m.after.pmm.mem t j ≡ some t'
      kept t t' j h jl e =
          let (here, points) = step-some hhdm v.pmm.mem t j t' e in
          step_kept hhdm m.after.pmm.mem v.pmm.mem t j (m.keeps t j h jl here) here points
