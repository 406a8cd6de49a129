-- ===== src/Vmm/Boot/Again.antt =====
-- `vmm_map_page` where the tables are there already: it takes no page of the pool.
use lord.Prelude.{
  ℕ, ◌/◌, ◌%◌, ◌^◌, ◌≤◌, ◌<◌, ◌≡◌, refl, sym, ap, subst, ◌∙◌, false, some, List, arith, bit_and,
  bit_or,
}
use lord.Bits.{shr, and_mask}
use lord.Pmm.{Words, put_word}
use lord.Vmm.{Vmm, slot, vmm_map_page, pt_offset}
use lord.Vmm.Tables.{apart, IsMapped}
use lord.Vmm.Lower.{leaf-IsMapped}
use lord.Vmm.Translate.{walk_slot, walk, step, step-some, step_kept, Path4, Path4-walk_slot}
use lord.Vmm.Space.{walk_slot-kept, translate-put_word, Levels, Path4-Levels, index-lt}
use lord.Vmm.Walk.{Mapped}
use lord.Vmm.Frame.{descend_to_pt-Path4}

-- The bits of an address that choose its last-level table.
abbrev pub region : ℕ → ℕ
region va = va / 2 ^ 21 % 2 ^ 27

same_bits :
    (va other k : ℕ)
    → shr va k % 512 ≡ shr other k % 512
    → bit_and (shr other k) 0x1ff ≡ bit_and (shr va k) 0x1ff
same_bits va other k e = and_mask 9 (shr other k) ∙ sym e ∙ sym (and_mask 9 (shr va k))

module _ (hhdm : ℕ) where
  -- Another address of the same region has the same tables.
  pub region-Path4 :
      {m : Words} {root other a : ℕ} (va : ℕ)
      → region va ≡ region other
      → (p : Path4 hhdm m root other a) → Path4 hhdm m root va (slot p.t1 (pt_offset va))
  region-Path4 {m} {root} {other} va same p = record {
    t3 = p.t3;
    t2 = p.t2;
    t1 = p.t1;
    at4 =
        subst (λ i. step hhdm m root i ≡ some p.t3) (same_bits va other 39 (omega (arith, same)))
          p.at4;
    at3 =
        subst (λ i. step hhdm m p.t3 i ≡ some p.t2) (same_bits va other 30 (omega (arith, same)))
          p.at3;
    at2 =
        subst (λ i. step hhdm m p.t2 i ≡ some p.t1) (same_bits va other 21 (omega (arith, same)))
          p.at2;
    last = refl;
  }

  module _ (hal : hhdm % 4096 ≡ 0) {level : ℕ → ℕ} {v : Vmm} {xs : List ℕ} (root va pa flags : ℕ)
      {a : ℕ} (is : IsMapped hhdm level v.pmm xs) (lr : level root ≡ 4) (free : v.locked ≡ false)
      (p : Path4 hhdm v.pmm.mem root va a) where
    l : Levels hhdm level p
    l = Path4-Levels hhdm p is.tables lr

    abbrev leaf : ℕ
    leaf = slot p.t1 (pt_offset va)

    abbrev after : Words
    after = put_word v.pmm.mem leaf (bit_or pa flags)

    upper_kept : (u j : ℕ) → 2 ≤ level u → j < 512 → after (slot u j) ≡ v.pmm.mem (slot u j)
    upper_kept u j h jl = ground (
      arith,
      apart hhdm u p.t1 j (pt_offset va) is.tables (omega (arith, l.on1, h)) (omega (arith, h))
          (omega (arith, l.on1)) jl (index-lt _),
    )

    kept_step :
        (t t' j : ℕ)
        → 2 ≤ level t
        → j < 512
        → step hhdm v.pmm.mem t j ≡ some t'
        → step hhdm after t j ≡ some t'
    kept_step t t' j h jl e =
        let (here, points) = step-some hhdm v.pmm.mem t j t' e in
        step_kept hhdm after v.pmm.mem t j (upper_kept t j h jl) here points

    after_slot : walk_slot hhdm after root va ≡ some leaf
    after_slot = Path4-walk_slot hhdm after root va leaf (record {
      t3 = p.t3;
      t2 = p.t2;
      t1 = p.t1;
      at4 = kept_step root p.t3 _ (omega (arith, lr)) (index-lt _) p.at4;
      at3 = kept_step p.t3 p.t2 _ (omega (arith, l.on3)) (index-lt _) p.at3;
      at2 = kept_step p.t2 p.t1 _ (omega (arith, l.on2)) (index-lt _) p.at2;
      last = refl;
    })

    before_slot : walk_slot hhdm v.pmm.mem root va ≡ some leaf
    before_slot = sym (walk_slot-kept hhdm is.tables root lr after va upper_kept) ∙ after_slot

    after_leaf : after leaf ≡ bit_or pa flags
    after_leaf = ground arith

    after_walk : walk hhdm after root va ≡ some (bit_or pa flags)
    unfolding walk
    after_walk = rw (walk, after_slot) (ap some after_leaf)

    -- The outcome is that of `vmm_map_page-Mapped`, without a page from the pool.
    pub mapped_again : (m : Mapped hhdm level root va pa flags v xs) × (m.rest ≡ xs)
    unfolding vmm_map_page
    mapped_again = (
      record {
        after = record { pmm = record v.pmm { mem = after }; locked = false };
        level' = level;
        rest = xs;
        leaf = leaf;
        returns = rw (vmm_map_page, free, descend_to_pt-Path4 hhdm {s = v.pmm} p is.tables lr);
        leaf_slot = after_slot;
        translates = after_walk;
        mapped = leaf-IsMapped hhdm hal p.t1 (pt_offset va) _ l.on1 (index-lt _) is;
        root_level = lr;
        unlocked = refl;
        grows = λ u h. refl;
        keeps = λ u j h jl here. upper_kept u j h jl;
        leaves = λ u j h jl. refl;
        maps = translate-put_word hhdm is.tables root lr va leaf _ before_slot;
        spares = λ u h out. (h, out);
        cost = omega arith;
        shrinks = omega arith;
      },
      refl,
    )
