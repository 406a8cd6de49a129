-- ===== src/Vmm/Space.antt =====
-- The translations of an address space as a partial map from pages to entries.
use lord.Prelude.{
  ℕ, suc, ◌+◌, ◌*◌, ◌/◌, ◌%◌, ◌^◌, ◌≤◌, ◌<◌, ◌≡◌, refl, sym, ap, subst, ◌∙◌, ◌≢◌, true, false, inl,
  inr, Option-cases, Option, none, some, arith, bit_and, ◌==◌, if◌then◌else◌, ℕ_discrete,
}
use lord.Bits.{and_mask}
use lord.Pmm.{Words, put_word}
use lord.Vmm.{slot, present, table_of, pml4_offset, pdp_offset, pd_offset}
use lord.Vmm.Tables.{IsTables}
use lord.Vmm.Translate.{walk_at, walk_slot, step, step-some, Path4, walk_slot-Path4}

-- The number of the page of an address, among the 2^36 pages that four levels of tables translate.
abbrev pub page_of : ℕ → ℕ
page_of va = va / 2 ^ 12 % 2 ^ 36

-- What an entry gives: nothing, if it is not present.
abbrev pub held : ℕ → Option ℕ
held entry = if present entry then some entry else none

-- The partial map with another entry for the page of an address.
abbrev pub updated : (va : ℕ) → Option ℕ → (ℕ → Option ℕ) → ℕ → Option ℕ
updated va e f other = if page_of other == page_of va then e else f other

pub index-lt : (a : ℕ) → bit_and a 0x1ff < 512
index-lt a = omega (arith, and_mask 9 a)

module _ (hhdm : ℕ) where
  -- The present entry by which the processor translates an address.
  unfoldable pub translate : Words → (root va : ℕ) → Option ℕ
  unfolding walk_slot
  translate m root va = elim (walk_slot hhdm m root va) [ none ↦ none | some a ↦ held (m a) ]

  -- The tables of a walk stand one level below each other.
  pub record Levels (level : ℕ → ℕ) {m : Words} {root va a : ℕ} (p : Path4 hhdm m root va a)
      : Type 0 where
    pub on3 : level p.t3 ≡ 3
    pub on2 : level p.t2 ≡ 2
    pub on1 : level p.t1 ≡ 1

  pub Path4-Levels :
      {level : ℕ → ℕ} {m : Words} {root va a : ℕ} (p : Path4 hhdm m root va a)
      → IsTables hhdm level m
      → level root ≡ 4
      → Levels level p
  Path4-Levels {level} {m} {root} {va} p tables lr =
      let (h4, e4) = step-some hhdm m root _ _ p.at4 in
      let (h3, e3) = step-some hhdm m p.t3 _ _ p.at3 in
      let (h2, e2) = step-some hhdm m p.t2 _ _ p.at2 in
      let l3 = sym (ap level e4) ∙ tables.lower root (pml4_offset va) 2 lr (index-lt _) h4 in
      let l2 = sym (ap level e3) ∙ tables.lower p.t3 (pdp_offset va) 1 l3 (index-lt _) h3 in
      let l1 = sym (ap level e2) ∙ tables.lower p.t2 (pd_offset va) 0 l2 (index-lt _) h2 in
      record { on3 = l3; on2 = l2; on1 = l1 }

  pub translate-none :
      (m : Words) (root va : ℕ) → walk_slot hhdm m root va ≡ none → translate m root va ≡ none
  unfolding translate
  translate-none m root va e = rw (translate, e)

  pub translate-some :
      (m : Words) (root va a : ℕ)
      → walk_slot hhdm m root va ≡ some a
      → translate m root va ≡ held (m a)
  unfolding translate
  translate-some m root va a e = rw (translate, e)

  -- Addresses of one page have one last-level entry.
  walk_slot-page :
      (m : Words) (root va other : ℕ)
      → page_of other ≡ page_of va
      → walk_slot hhdm m root other ≡ walk_slot hhdm m root va
  unfolding walk_slot
  walk_slot-page m root va other e =
      let i4 : other / 2 ^ 39 % 512 ≡ va / 2 ^ 39 % 512 = omega (arith, e) in
      let i3 : other / 2 ^ 30 % 512 ≡ va / 2 ^ 30 % 512 = omega (arith, e) in
      let i2 : other / 2 ^ 21 % 512 ≡ va / 2 ^ 21 % 512 = omega (arith, e) in
      let i1 : other / 2 ^ 12 % 512 ≡ va / 2 ^ 12 % 512 = omega (arith, e) in
      λ i. walk_at hhdm m root (i4 i) (i3 i) (i2 i) (i1 i)

  pub step-level :
      {level : ℕ → ℕ} {m : Words}
      → IsTables hhdm level m
      → (t j t' k : ℕ) → level t ≡ suc (suc k)
      → j < 512
      → step hhdm m t j ≡ some t'
      → level t' ≡ suc k
  step-level {level} {m} tables t j t' k lt jl e =
      let (here, points) = step-some hhdm m t j t' e in
      ap level (sym points) ∙ tables.lower t j k lt jl here

  module _ {level : ℕ → ℕ} {m : Words} (tables : IsTables hhdm level m) (root : ℕ)
      (lr : level root ≡ 4) where
    -- Where the upper tables are kept, so is the place of every last-level entry.
    pub walk_slot-kept :
        (m' : Words) (va : ℕ)
        → ((u j : ℕ) → 2 ≤ level u → j < 512 → m' (slot u j) ≡ m (slot u j))
        → walk_slot hhdm m' root va ≡ walk_slot hhdm m root va
    unfolding walk_slot walk_at step
    walk_slot-kept m' va kept = elim (Option-cases (step hhdm m root (va / 2 ^ 39 % 512))) [
      | inl bad ↦ rw (walk_at, s4, bad) refl
      | inr (t3, e3) ↦
          let l3 = step-level tables root _ t3 2 lr (omega arith) e3 in
          let s3 = kept_step t3 (va / 2 ^ 30 % 512) (omega (arith, l3)) (omega arith) in
          elim (Option-cases (step hhdm m t3 (va / 2 ^ 30 % 512))) [
            | inl bad ↦ rw (walk_at, s4, e3, s3, bad) refl
            | inr (t2, e2) ↦
                let l2 = step-level tables t3 _ t2 1 l3 (omega arith) e2 in
                let s2 = kept_step t2 (va / 2 ^ 21 % 512) (omega (arith, l2)) (omega arith) in
                rw (walk_at, s4, e3, s3, e2, s2) refl
          ]
    ]
      where
        kept_step : (t j : ℕ) → 2 ≤ level t → j < 512 → step hhdm m' t j ≡ step hhdm m t j
        kept_step t j h jl =
            ap (λ w. if present w then some (table_of hhdm w) else none) (kept t j h jl)

        s4 : step hhdm m' root (va / 2 ^ 39 % 512) ≡ step hhdm m root (va / 2 ^ 39 % 512)
        s4 = kept_step root (va / 2 ^ 39 % 512) (omega (arith, lr)) (omega arith)

    -- Where all tables are kept, so is the translation.
    pub translate-kept :
        (m' : Words) (va : ℕ)
        → ((u j : ℕ) → level u ≢ 0 → j < 512 → m' (slot u j) ≡ m (slot u j))
        → translate m' root va ≡ translate m root va
    translate-kept m' va kept = elim (Option-cases (walk_slot hhdm m root va)) [
      | inl bad ↦ translate-none m' root va (same ∙ bad) ∙ sym (translate-none m root va bad)
      | inr (a, at) ↦
          let p = walk_slot-Path4 hhdm m root va a at in
          let l = Path4-Levels p tables lr in
          let e : m' a ≡ m a =
            subst (λ w. m' w ≡ m w) p.last (kept p.t1 _ (omega (arith, l.on1)) (index-lt _)) in
          translate-some m' root va a (same ∙ at) ∙ ap held e ∙ sym (translate-some m root va a at)
    ]
      where
        same : walk_slot hhdm m' root va ≡ walk_slot hhdm m root va
        same = walk_slot-kept m' va (λ u j h jl. kept u j (omega arith) jl)

    -- The last table of a walk stands for the address.
    Path4-place :
        {va a : ℕ} (p : Path4 hhdm m root va a)
        → tables.place p.t1
          ≡ tables.place root * 2 ^ 27
            + va / 2 ^ 39 % 2 ^ 9 * 2 ^ 18
            + va / 2 ^ 30 % 2 ^ 9 * 2 ^ 9
            + va / 2 ^ 21 % 2 ^ 9
    Path4-place {va} p =
        let l = Path4-Levels p tables lr in
        let (h4, e4) = step-some hhdm m root _ _ p.at4 in
        let (h3, e3) = step-some hhdm m p.t3 _ _ p.at3 in
        let (h2, e2) = step-some hhdm m p.t2 _ _ p.at2 in
        let q4 = sym (ap tables.place e4) ∙ tables.placed root _ 2 lr (index-lt _) h4 in
        let q3 = sym (ap tables.place e3) ∙ tables.placed p.t3 _ 1 l.on3 (index-lt _) h3 in
        let q2 = sym (ap tables.place e2) ∙ tables.placed p.t2 _ 0 l.on2 (index-lt _) h2 in
        omega (
          arith,
          q4,
          q3,
          q2,
          and_mask 9 (va / 2 ^ 39),
          and_mask 9 (va / 2 ^ 30),
          and_mask 9 (va / 2 ^ 21),
        )

    -- Addresses with one last-level entry are of one page.
    same_entry :
        {va other a : ℕ}
        → Path4 hhdm m root va a
        → Path4 hhdm m root other a
        → page_of other ≡ page_of va
    same_entry {va} {other} p q =
        let lp = Path4-Levels p tables lr in
        let lq = Path4-Levels q tables lr in
        let ap4 = tables.aligned p.t1 (omega (arith, lp.on1)) in
        let aq4 = tables.aligned q.t1 (omega (arith, lq.on1)) in
        let entries : slot p.t1 (va / 2 ^ 12 % 512) ≡ slot q.t1 (other / 2 ^ 12 % 512) =
          rw (and_mask 9 (va / 2 ^ 12), and_mask 9 (other / 2 ^ 12)) at (p.last ∙ sym q.last) in
        let table : p.t1 ≡ q.t1 = omega (arith, ap4, aq4, entries) in
        let index : va / 2 ^ 12 % 512 ≡ other / 2 ^ 12 % 512 = omega (arith, table, entries) in
        omega (arith, ap tables.place table, Path4-place p, Path4-place q, index)

    -- A store into the last-level entry of an address is an update of the partial map.
    pub translate-put_word :
        (va leaf entry : ℕ)
        → walk_slot hhdm m root va ≡ some leaf
        → (other : ℕ)
        → translate (put_word m leaf entry) root other
          ≡ updated va (held entry) (translate m root) other
    translate-put_word va leaf entry at other = elim (ℕ_discrete (page_of other) (page_of va)) [
      | yes e ↦
          let hit : (page_of other == page_of va) ≡ true = ground (arith, e) in
          let stored : put_word m leaf entry leaf ≡ entry = ground arith in
          rw hit (
            translate-some _ root other leaf (same ∙ walk_slot-page m root va other e ∙ at)
            ∙ ap held stored)
      | no ne ↦
          let miss : (page_of other == page_of va) ≡ false = ground (arith, ne) in
          rw miss (elim (Option-cases (walk_slot hhdm m root other)) [
            | inl bad ↦
                translate-none _ root other (same ∙ bad) ∙ sym (translate-none m root other bad)
            | inr (a, there) ↦
                let far : a ≢ leaf = λ e.
                  ne (
                    same_entry path (walk_slot-Path4 hhdm m root other leaf (there ∙ ap some e))) in
                let kept : put_word m leaf entry a ≡ m a = ground (arith, far) in
                translate-some _ root other a (same ∙ there)
                ∙ ap held kept
                ∙ sym (translate-some m root other a there)
          ])
    ]
      where
        path : Path4 hhdm m root va leaf
        path = walk_slot-Path4 hhdm m root va leaf at

        l : Levels level path
        l = Path4-Levels path tables lr

        upper : (u j : ℕ) → 2 ≤ level u → j < 512 → slot u j ≢ leaf
        upper u j h jl e =
            let au = tables.aligned u (omega arith) in
            let at1 = tables.aligned path.t1 (omega (arith, l.on1)) in
            let table : u ≡ path.t1 =
              omega (arith, path.last, e, au, at1, index-lt (va / 2 ^ 12)) in
            omega (arith, ap level table, l.on1)

        same : walk_slot hhdm (put_word m leaf entry) root other ≡ walk_slot hhdm m root other
        same = walk_slot-kept _ other (λ u j h jl. ground (arith, upper u j h jl))
