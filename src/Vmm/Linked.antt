-- ===== src/Vmm/Linked.antt =====
-- A new, empty table that `get_lower_table` links into a table translates no address.
use lord.Prelude.{
  ℕ, zero, suc, ◌/◌, ◌%◌, ◌^◌, ◌<◌, ◌≡◌, refl, sym, ap, ◌∙◌, ◌≢◌, true, false, inl, inr,
  Option-cases, Option, none, some, arith, if◌then◌else◌, ℕ_discrete,
}
use lord.Pmm.{Words, virt}
use lord.Vmm.{slot, present, table_of}
use lord.Vmm.Tables.{
  IsPage, IsTables, linked, linked_other, linked_new, linked_self, new_entry-present,
  new_entry-table_of, apart,
}
use lord.Vmm.Translate.{walk_at, walk_slot, step}
use lord.Vmm.Space.{held, translate, translate-none, translate-some, step-level}

-- The part of a page number above the lowest `k` indices.
shift : (k n : ℕ) → ℕ
shift zero n = n
shift (suc k) n = shift k n / 512

module _ (hhdm : ℕ) where
  -- The translation of page `n` from a table on level `k + 1`.
  look : (k : ℕ) → Words → (t n : ℕ) → Option ℕ
  unfolding shift
  look zero m t n = held (m (slot t (n % 512)))
  look (suc k) m t n = elim (step hhdm m t (shift (suc k) n % 512)) [
    | none ↦ none
    | some t' ↦ look k m t' n
  ]

  look-none :
      (k : ℕ) (m : Words) (t n : ℕ)
      → step hhdm m t (shift (suc k) n % 512) ≡ none
      → look (suc k) m t n ≡ none
  unfolding look
  look-none k m t n e = rw (look, e)

  look-some :
      (k : ℕ) (m : Words) (t n t' : ℕ)
      → step hhdm m t (shift (suc k) n % 512) ≡ some t'
      → look (suc k) m t n ≡ look k m t' n
  unfolding look
  look-some k m t n t' e = rw (look, e)

  step-absent : (m : Words) (t j : ℕ) → present (m (slot t j)) ≡ false → step hhdm m t j ≡ none
  unfolding step
  step-absent m t j e = rw (step, e)

  step-present :
      (m : Words) (t j t' : ℕ)
      → present (m (slot t j)) ≡ true
      → table_of hhdm (m (slot t j)) ≡ t'
      → step hhdm m t j ≡ some t'
  unfolding step
  step-present m t j t' e points = rw (step, e, points)

  translate-look :
      (m : Words) (root va : ℕ) → translate hhdm m root va ≡ look 3 m root (va / 2 ^ 12)
  unfolding look walk_slot walk_at shift
  translate-look m root va = elim (Option-cases (step hhdm m root (va / 2 ^ 39 % 512))) [
    | inl bad ↦
        translate-none hhdm m root va (rw (walk_at, bad) refl)
        ∙ sym (look-none 2 m root n (i4 ∙ bad))
    | inr (t3, e3) ↦ elim (Option-cases (step hhdm m t3 (va / 2 ^ 30 % 512))) [
      | inl bad ↦
          translate-none hhdm m root va (rw (walk_at, e3, bad) refl)
          ∙ sym (look-some 2 m root n t3 (i4 ∙ e3) ∙ look-none 1 m t3 n (i3 t3 ∙ bad))
      | inr (t2, e2) ↦ elim (Option-cases (step hhdm m t2 (va / 2 ^ 21 % 512))) [
        | inl bad ↦
            translate-none hhdm m root va (rw (walk_at, e3, e2, bad) refl)
            ∙ sym (
                look-some 2 m root n t3 (i4 ∙ e3)
                ∙ look-some 1 m t3 n t2 (i3 t3 ∙ e2)
                ∙ look-none 0 m t2 n (i2 t2 ∙ bad))
        | inr (t1, e1) ↦
            translate-some hhdm m root va _ (rw (walk_at, e3, e2, e1) refl)
            ∙ sym (
                look-some 2 m root n t3 (i4 ∙ e3)
                ∙ look-some 1 m t3 n t2 (i3 t3 ∙ e2)
                ∙ look-some 0 m t2 n t1 (i2 t2 ∙ e1))
      ]
    ]
  ]
    where
      n : ℕ
      n = va / 2 ^ 12

      i4 : step hhdm m root (shift 3 n % 512) ≡ step hhdm m root (va / 2 ^ 39 % 512)
      i4 = let e : shift 3 n % 512 ≡ va / 2 ^ 39 % 512 = omega arith in ap (step hhdm m root) e

      i3 : (t : ℕ) → step hhdm m t (shift 2 n % 512) ≡ step hhdm m t (va / 2 ^ 30 % 512)
      i3 t = let e : shift 2 n % 512 ≡ va / 2 ^ 30 % 512 = omega arith in ap (step hhdm m t) e

      i2 : (t : ℕ) → step hhdm m t (shift 1 n % 512) ≡ step hhdm m t (va / 2 ^ 21 % 512)
      i2 t = let e : shift 1 n % 512 ≡ va / 2 ^ 21 % 512 = omega arith in ap (step hhdm m t) e

  module _ (hal : hhdm % 4096 ≡ 0) {level : ℕ → ℕ} {m : Words} {x t o k : ℕ} (p : IsPage hhdm x)
      (spare : level (virt hhdm x) ≡ 0) (tables : IsTables hhdm level m)
      (lt : level t ≡ suc (suc k)) (ol : o < 512) (absent : present (m (slot t o)) ≡ false) where
    abbrev page : ℕ
    page = virt hhdm x

    abbrev after : Words
    after = linked hhdm m page t o x

    old : (u i : ℕ) → level u ≡ suc i → u ≢ page
    old u i h e = omega (arith, ap level e, h, spare)

    blank : (j : ℕ) → j < 512 → after (slot page j) ≡ 0
    blank j jl =
        linked_new hhdm hal p m t o j (tables.aligned t (omega (arith, lt))) (old t (suc k) lt) ol
          jl

    blank-look : (i n : ℕ) → look i after page n ≡ none
    unfolding look
    blank-look zero n = let e = blank (n % 512) (omega arith) in rw e refl
    blank-look (suc i) n =
        look-none i after page n
          (step-absent after page _ (ap present (blank (shift (suc i) n % 512) (omega arith))))

    kept :
        (u j i : ℕ)
        → level u ≡ suc i
        → j < 512
        → slot u j ≢ slot t o
        → after (slot u j) ≡ m (slot u j)
    kept u j i h jl ne =
        linked_other hhdm hal p m t o u j (tables.aligned u (omega (arith, h))) (old u i h) jl ne

    kept_step : (u j : ℕ) → after (slot u j) ≡ m (slot u j) → step hhdm after u j ≡ step hhdm m u j
    unfolding step
    kept_step u j e = ap (λ w. if present w then some (table_of hhdm w) else none) e

    linked-look : (i u n : ℕ) → level u ≡ suc i → look i after u n ≡ look i m u n
    unfolding look
    linked-look zero u n h = ap held (
        kept u (n % 512) 0 h (omega arith) (
          apart hhdm u t (n % 512) o tables (omega (arith, h, lt)) (omega (arith, h))
            (omega (arith, lt)) (omega arith) ol))
    linked-look (suc i) u n h = elim (ℕ_discrete (slot u (shift (suc i) n % 512)) (slot t o)) [
      | yes e ↦
          let self : after (slot u (shift (suc i) n % 512)) ≡ _ =
            ap after e ∙ linked_self hhdm hal p m t o in
          look-some i after u n page (
            step-present after u _ page (ap present self ∙ new_entry-present hhdm p)
              (ap (table_of hhdm) self ∙ new_entry-table_of hhdm p))
          ∙ blank-look i n
          ∙ sym (look-none i m u n (step-absent m u _ (ap (λ a. present (m a)) e ∙ absent)))
      | no ne ↦
          let same : step hhdm after u (shift (suc i) n % 512)
              ≡ step hhdm m u (shift (suc i) n % 512) =
            kept_step u _ (kept u _ (suc i) h (omega arith) ne) in
          elim (Option-cases (step hhdm m u (shift (suc i) n % 512))) [
            | inl bad ↦ look-none i after u n (same ∙ bad) ∙ sym (look-none i m u n bad)
            | inr (u', e) ↦
                look-some i after u n u' (same ∙ e)
                ∙ linked-look i u' n (step-level hhdm tables u _ u' i h (omega arith) e)
                ∙ sym (look-some i m u n u' e)
          ]
    ]

    pub linked-translate :
        (root va : ℕ) → level root ≡ 4 → translate hhdm after root va ≡ translate hhdm m root va
    linked-translate root va lr =
        translate-look after root va
        ∙ linked-look 3 root (va / 2 ^ 12) lr
        ∙ sym (translate-look m root va)
