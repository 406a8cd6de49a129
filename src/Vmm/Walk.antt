-- ===== src/Vmm/Walk.antt =====
-- `vmm_map_page` against the walk of the processor.
pub mod Tests
use lord.Prelude.{
  ℕ, ◌+◌, ◌%◌, ◌≤◌, ◌<◌, ◌≡◌, refl, sym, ap, ◌∙◌, ◌≢◌, All, true, false, some, List, arith, bit_and,
  bit_or, ◌==◌, if◌then◌else◌, length,
}
use lord.Kernel.{done}
use lord.Pmm.{Words, put_word, virt}
use lord.Vmm.{
  Vmm, slot, present, descend, descend_to_pt, vmm_map_page, pml4_offset, pdp_offset, pd_offset,
  pt_offset,
}
use lord.Vmm.Tables.{apart, IsMapped}
use lord.Vmm.Translate.{walk_slot, walk, Path4-walk_slot, step_kept}
use lord.Vmm.Space.{page_of, held, updated, translate, walk_slot-kept, translate-put_word, index-lt}
use lord.Vmm.Lower.{Lowered, get_lower_table-Lowered, leaf-IsMapped}

module _ (hhdm : ℕ) where
  -- The address space behind a call of `vmm_map_page`.
  pub record Mapped (level : ℕ → ℕ) (root va pa flags : ℕ) (v : Vmm) (xs : List ℕ) : Type 0 where
    pub after : Vmm
    pub level' : ℕ → ℕ
    pub rest : List ℕ
    pub leaf : ℕ
    pub returns : vmm_map_page hhdm root va pa flags v ≡ done after
    pub leaf_slot : walk_slot hhdm after.pmm.mem root va ≡ some leaf
    pub translates : walk hhdm after.pmm.mem root va ≡ some (bit_or pa flags)
    pub mapped : IsMapped hhdm level' after.pmm rest
    pub root_level : level' root ≡ 4
    pub unlocked : after.locked ≡ false
    pub grows : (u : ℕ) → level u ≢ 0 → level' u ≡ level u
    pub keeps :
        (u j : ℕ)
        → 2 ≤ level u
        → j < 512
        → present (v.pmm.mem (slot u j)) ≡ true
        → after.pmm.mem (slot u j) ≡ v.pmm.mem (slot u j)
    pub leaves :
        (u j : ℕ)
        → level u ≡ 1
        → j < 512
        → after.pmm.mem (slot u j)
          ≡ (if slot u j == leaf then bit_or pa flags else v.pmm.mem (slot u j))
    pub maps :
        (other : ℕ)
        → translate hhdm after.pmm.mem root other
          ≡ updated va (held (bit_or pa flags)) (translate hhdm v.pmm.mem root) other
    pub spares :
        (u : ℕ)
        → level u ≡ 0
        → All (λ x. virt hhdm x ≢ u) xs
        → (level' u ≡ 0) × All (λ x. virt hhdm x ≢ u) rest
    pub cost : length xs ≤ length rest + 3
    pub shrinks : length rest ≤ length xs

  module _ (hal : hhdm % 4096 ≡ 0) {level : ℕ → ℕ} {v : Vmm} {xs : List ℕ} (root va pa flags : ℕ)
      (is : IsMapped hhdm level v.pmm xs) (lr : level root ≡ 4) (free : v.locked ≡ false)
      (enough : 3 ≤ length xs) where
    L3 : Lowered hhdm level v.pmm xs root (pml4_offset va) 2
    L3 = get_lower_table-Lowered hhdm hal lr (index-lt _) is (omega arith)

    L2 : Lowered hhdm L3.level' L3.state L3.rest L3.table (pdp_offset va) 1
    L2 =
        get_lower_table-Lowered hhdm hal L3.on_level (index-lt _) L3.mapped (omega (arith, L3.cost))

    L1 : Lowered hhdm L2.level' L2.state L2.rest L2.table (pd_offset va) 0
    L1 =
        get_lower_table-Lowered hhdm hal L2.on_level (index-lt _) L2.mapped
          (omega (arith, L3.cost, L2.cost))

    descends : descend_to_pt hhdm root va v.pmm ≡ done (L1.table, L1.state)
    unfolding descend_to_pt descend
    descends =
        let n3 : (L3.table == 0) ≡ false = ground (arith, L3.nonnull) in
        let n2 : (L2.table == 0) ≡ false = ground (arith, L2.nonnull) in
        let n1 : (L1.table == 0) ≡ false = ground (arith, L1.nonnull) in
        rw (descend_to_pt, descend, L3.returns, n3, L2.returns, n2, L1.returns, n1)

    abbrev leaf : ℕ
    leaf = slot L1.table (pt_offset va)

    abbrev after_mem : Words
    after_mem = put_word L1.state.mem leaf (bit_or pa flags)

    root_levels :
        (L3.level' root ≡ 4)
        × (L2.level' root ≡ 4)
        × (L1.level' root ≡ 4)
        × (L2.level' L3.table ≡ 3)
        × (L1.level' L3.table ≡ 3)
        × (L1.level' L2.table ≡ 2)
    root_levels =
        let r3 : L3.level' root ≡ 4 = L3.grows root (omega (arith, lr)) ∙ lr in
        let r2 : L2.level' root ≡ 4 = L2.grows root (omega (arith, r3)) ∙ r3 in
        let r1 : L1.level' root ≡ 4 = L1.grows root (omega (arith, r2)) ∙ r2 in
        let s2 : L2.level' L3.table ≡ 3 =
          L2.grows L3.table (omega (arith, L3.on_level)) ∙ L3.on_level in
        let s1 : L1.level' L3.table ≡ 3 = L1.grows L3.table (omega (arith, s2)) ∙ s2 in
        let q1 : L1.level' L2.table ≡ 2 =
          L1.grows L2.table (omega (arith, L2.on_level)) ∙ L2.on_level in
        (r3, r2, r1, s2, s1, q1)

    -- The store of the leaf spares the tables above it.
    leaf_spares :
        (u j : ℕ) → 2 ≤ L1.level' u → j < 512 → after_mem (slot u j) ≡ L1.state.mem (slot u j)
    leaf_spares u j h jl = ground (
      arith,
      apart hhdm u L1.table j (pt_offset va) L1.mapped.tables (omega (arith, L1.on_level))
          (omega arith) (omega (arith, L1.on_level)) jl (index-lt _),
    )

    kept1 : (j : ℕ) → j < 512 → after_mem (slot L2.table j) ≡ L1.state.mem (slot L2.table j)
    kept1 j jl = leaf_spares L2.table j (omega (arith, root_levels.5)) jl

    kept2 : (j : ℕ) → j < 512 → after_mem (slot L3.table j) ≡ L2.state.mem (slot L3.table j)
    kept2 j jl =
        leaf_spares L3.table j (omega (arith, root_levels.4)) jl
        ∙ L1.frame L3.table j (omega (arith, root_levels.3)) jl (
            apart hhdm L3.table L2.table j (pd_offset va) L2.mapped.tables
              (omega (arith, root_levels.3, L2.on_level)) (omega (arith, root_levels.3))
              (omega (arith, L2.on_level)) jl (index-lt _))

    kept3 : (j : ℕ) → j < 512 → after_mem (slot root j) ≡ L3.state.mem (slot root j)
    kept3 j jl =
        leaf_spares root j (omega (arith, root_levels.2)) jl
        ∙ L1.frame root j (omega (arith, root_levels.1)) jl (
            apart hhdm root L2.table j (pd_offset va) L2.mapped.tables
              (omega (arith, root_levels.1, L2.on_level)) (omega (arith, root_levels.1))
              (omega (arith, L2.on_level)) jl (index-lt _))
        ∙ L2.frame root j (omega (arith, root_levels.0)) jl (
            apart hhdm root L3.table j (pdp_offset va) L3.mapped.tables
              (omega (arith, root_levels.0, L3.on_level)) (omega (arith, root_levels.0))
              (omega (arith, L3.on_level)) jl (index-lt _))

    after_leaf : after_mem leaf ≡ bit_or pa flags
    after_leaf = ground arith

    after_slot : walk_slot hhdm after_mem root va ≡ some leaf
    after_slot = Path4-walk_slot hhdm after_mem root va leaf (record {
      t3 = L3.table;
      t2 = L2.table;
      t1 = L1.table;
      at4 =
          step_kept hhdm after_mem L3.state.mem root _ (kept3 (pml4_offset va) (index-lt _))
            L3.is_present L3.points;
      at3 =
          step_kept hhdm after_mem L2.state.mem L3.table _ (kept2 (pdp_offset va) (index-lt _))
            L2.is_present L2.points;
      at2 =
          step_kept hhdm after_mem L1.state.mem L2.table _ (kept1 (pd_offset va) (index-lt _))
            L1.is_present L1.points;
      last = refl;
    })

    walk_after : walk hhdm after_mem root va ≡ some (bit_or pa flags)
    unfolding walk
    walk_after = rw (walk, after_slot) (ap some after_leaf)

    grown : (u : ℕ) → level u ≢ 0 → L1.level' u ≡ level u
    grown u h =
        let g3 = L3.grows u h in
        let g2 = L2.grows u (omega (arith, g3, h)) in
        L1.grows u (omega (arith, g2, g3, h)) ∙ g2 ∙ g3

    keeps_tables :
        (u j : ℕ)
        → 2 ≤ level u
        → j < 512
        → present (v.pmm.mem (slot u j)) ≡ true
        → after_mem (slot u j) ≡ v.pmm.mem (slot u j)
    keeps_tables u j h jl here =
        let g3 = L3.grows u (omega arith) in
        let g2 = L2.grows u (omega (arith, g3)) in
        let k3 = L3.keeps u j (omega arith) jl here in
        let k2 = L2.keeps u j (omega (arith, g3)) jl (rw k3 here) in
        let k1 = L1.keeps u j (omega (arith, g2, g3)) jl (rw (k2, k3) here) in
        leaf_spares u j (omega (arith, grown u (omega arith))) jl ∙ k1 ∙ k2 ∙ k3

    keeps_leaves :
        (u j : ℕ)
        → level u ≡ 1
        → j < 512
        → after_mem (slot u j)
          ≡ (if slot u j == leaf then bit_or pa flags else v.pmm.mem (slot u j))
    keeps_leaves u j h jl =
        let g3 = L3.grows u (omega (arith, h)) in
        let g2 = L2.grows u (omega (arith, g3, h)) in
        let k3 = L3.frame u j (omega (arith, h)) jl (
          apart hhdm u root j (pml4_offset va) is.tables (omega (arith, h, lr)) (omega (arith, h))
            (omega (arith, lr)) jl (index-lt _)) in
        let k2 = L2.frame u j (omega (arith, g3, h)) jl (
          apart hhdm u L3.table j (pdp_offset va) L3.mapped.tables
            (omega (arith, g3, h, L3.on_level)) (omega (arith, g3, h)) (omega (arith, L3.on_level))
            jl (index-lt _)) in
        let k1 = L1.frame u j (omega (arith, g2, g3, h)) jl (
          apart hhdm u L2.table j (pd_offset va) L2.mapped.tables
            (omega (arith, g2, g3, h, L2.on_level)) (omega (arith, g2, g3, h))
            (omega (arith, L2.on_level)) jl (index-lt _)) in
        ap (λ w. if slot u j == leaf then bit_or pa flags else w) (k1 ∙ k2 ∙ k3)

    spares-All :
        (u : ℕ)
        → level u ≡ 0
        → All (λ x. virt hhdm x ≢ u) xs
        → (L1.level' u ≡ 0) × All (λ x. virt hhdm x ≢ u) L1.rest
    spares-All u h out =
        let (h3, o3) = L3.spares u h out in let (h2, o2) = L2.spares u h3 o3 in L1.spares u h2 o2

    -- The new tables translate nothing, and the store into the leaf is an update.
    L1_translate :
        (other : ℕ) → translate hhdm L1.state.mem root other ≡ translate hhdm v.pmm.mem root other
    L1_translate other =
        L1.translations root other root_levels.1
        ∙ L2.translations root other root_levels.0
        ∙ L3.translations root other lr

    L1_slot : walk_slot hhdm L1.state.mem root va ≡ some leaf
    L1_slot =
        sym (walk_slot-kept hhdm L1.mapped.tables root root_levels.2 after_mem va leaf_spares)
        ∙ after_slot

    maps_lem :
        (other : ℕ)
        → translate hhdm after_mem root other
          ≡ updated va (held (bit_or pa flags)) (translate hhdm v.pmm.mem root) other
    maps_lem other =
        translate-put_word hhdm L1.mapped.tables root root_levels.2 va leaf _ L1_slot other
        ∙ ap (λ e. if page_of other == page_of va then held (bit_or pa flags) else e)
            (L1_translate other)

    -- With three pages in the pool, a free lock and a top-level table, `vmm_map_page` returns with the
    -- lock free, and is an update of the partial map by which the processor translates: the page of the
    -- address is translated by an entry of the given page and flags (by none, if that entry is not
    -- present), and every other page as before. The invariant of tables and pool holds, at most three
    -- pages of the pool are used, present entries of the upper tables stay, and of the last-level
    -- entries only that of the address changes.
    pub vmm_map_page-Mapped : Mapped level root va pa flags v xs
    unfolding vmm_map_page
    vmm_map_page-Mapped = record {
      after = record { pmm = record L1.state { mem = after_mem }; locked = false };
      level' = L1.level';
      rest = L1.rest;
      leaf = leaf;
      leaf_slot = after_slot;
      returns = rw (vmm_map_page, free, descends);
      translates = walk_after;
      mapped = leaf-IsMapped hhdm hal L1.table (pt_offset va) _ L1.on_level (index-lt _) L1.mapped;
      root_level = root_levels.2;
      unlocked = refl;
      grows = grown;
      keeps = keeps_tables;
      leaves = keeps_leaves;
      maps = maps_lem;
      spares = spares-All;
      cost = omega (arith, L1.cost, L2.cost, L3.cost);
      shrinks = omega (arith, L1.shrinks, L2.shrinks, L3.shrinks);
    }
