-- ===== src/Vmm/Lower.antt =====
-- The invariant of the page tables under `get_lower_table` of src/mm/vmm.c.
use lord.Prelude.{
  ℕ, suc, ◌+◌, ◌%◌, ◌≤◌, ◌<◌, ◌≡◌, refl, sym, ap, subst, ◌∙◌, ◌≢◌, inl, inr, true, false, List, [],
  ◌∷◌, arith, ◌==◌, length, All, Bool-cases, ℕ_discrete,
}
use lord.Kernel.{done}
use lord.Pmm.{Words, put_word, Pmm, virt}
use lord.Pmm.Pool.{pmm_alloc-IsPool, IsPool-mem}
use lord.Vmm.{slot, present, table_of, get_lower_table}
use lord.Vmm.Space.{translate}
use lord.Vmm.Linked.{linked-translate}
use lord.Vmm.Tables.{
  apart, IsPage, IsTables, IsMapped, with_table, linked, linked-IsTables, linked_other, linked_self,
  virt-aligned, new_entry-present, new_entry-table_of,
}

module _ (hhdm : ℕ) where
  -- The outcome of a call at slot `o` of a table `t` on level `k + 2`.
  pub record Lowered (level : ℕ → ℕ) (s : Pmm) (xs : List ℕ) (t o k : ℕ) : Type 0 where
    pub table : ℕ
    pub state : Pmm
    pub level' : ℕ → ℕ
    pub rest : List ℕ
    pub returns : get_lower_table hhdm t o s ≡ done (table, state)
    pub nonnull : table ≢ 0
    pub on_level : level' table ≡ suc k
    pub mapped : IsMapped hhdm level' state rest
    pub is_present : present (state.mem (slot t o)) ≡ true
    pub points : table_of hhdm (state.mem (slot t o)) ≡ table
    pub grows : (u : ℕ) → level u ≢ 0 → level' u ≡ level u
    pub frame :
        (u j : ℕ)
        → level u ≢ 0
        → j < 512
        → slot u j ≢ slot t o
        → state.mem (slot u j) ≡ s.mem (slot u j)
    pub keeps :
        (u j : ℕ)
        → level u ≢ 0
        → j < 512
        → present (s.mem (slot u j)) ≡ true
        → state.mem (slot u j) ≡ s.mem (slot u j)
    pub spares :
        (u : ℕ)
        → level u ≡ 0
        → All (λ x. virt hhdm x ≢ u) xs
        → (level' u ≡ 0) × All (λ x. virt hhdm x ≢ u) rest
    pub translations :
        (root va : ℕ)
        → level root ≡ 4
        → translate hhdm state.mem root va ≡ translate hhdm s.mem root va
    pub cost : length xs ≤ length rest + 1
    pub shrinks : length rest ≤ length xs

  -- A page of the pool keeps its first word where another becomes a table.
  pool_linked :
      (hal : hhdm % 4096 ≡ 0) (level : ℕ → ℕ) (m : Words) (t o x : ℕ) (xs : List ℕ)
      → IsTables hhdm level m
      → level t ≢ 0
      → o < 512
      → IsPage hhdm x
      → All (λ y. y ≢ x) xs
      → All (λ y. IsPage hhdm y × (level (virt hhdm y) ≡ 0)) xs
      → All (λ y. linked hhdm m (virt hhdm x) t o x (virt hhdm y) ≡ m (virt hhdm y)) xs
  pool_linked hal level m t o x [] tables lt ol p out pages = tt
  pool_linked hal level m t o x (y ∷ ys) tables lt ol p out pages =
      (kept, pool_linked hal level m t o x ys tables lt ol p out.1 pages.1)
    where
      q : IsPage hhdm y
      q = pages.0.0

      first : slot (virt hhdm y) 0 ≡ virt hhdm y
      first = omega arith

      no_table : slot (virt hhdm y) 0 ≢ slot t o
      no_table e =
          let same : virt hhdm y ≡ t =
            omega (arith, e, virt-aligned hhdm hal q, tables.aligned t lt) in
          lt (ap level (sym same) ∙ pages.0.1)

      kept : linked hhdm m (virt hhdm x) t o x (virt hhdm y) ≡ m (virt hhdm y)
      kept = rw first at (
          linked_other hhdm hal p m t o (virt hhdm y) 0 (virt-aligned hhdm hal q)
            (omega (arith, out.0, p.mapped, q.mapped)) (omega arith) no_table)

  -- The pages behind a new table are still no tables.
  spare_pages :
      (level : ℕ → ℕ) (x k : ℕ) (xs : List ℕ)
      → IsPage hhdm x
      → All (λ y. y ≢ x) xs
      → All (λ y. IsPage hhdm y × (level (virt hhdm y) ≡ 0)) xs
      → All (λ y. IsPage hhdm y × (with_table hhdm level (virt hhdm x) k (virt hhdm y) ≡ 0)) xs
  spare_pages level x k [] p out pages = tt
  spare_pages level x k (y ∷ ys) p out pages =
      let q : IsPage hhdm y = pages.0.0 in
      let ne : (virt hhdm y == virt hhdm x) ≡ false = ground (arith, out.0, p.mapped, q.mapped) in
      ((q, rw ne pages.0.1), spare_pages level x k ys p out.1 pages.1)

  module _ (hal : hhdm % 4096 ≡ 0) {level : ℕ → ℕ} {s : Pmm} {t o k : ℕ}
      (lt : level t ≡ suc (suc k)) (ol : o < 512) where
    found :
        {xs : List ℕ}
        → IsMapped hhdm level s xs
        → present (s.mem (slot t o)) ≡ true
        → Lowered level s xs t o k
    unfolding get_lower_table
    found {xs} is here = record {
      table = table_of hhdm (s.mem (slot t o));
      state = s;
      level' = level;
      rest = xs;
      returns = rw (get_lower_table, here);
      nonnull = λ e. omega (arith, ap level e, is.tables.null, is.tables.lower t o k lt ol here);
      on_level = is.tables.lower t o k lt ol here;
      mapped = is;
      is_present = here;
      points = refl;
      grows = λ u h. refl;
      frame = λ u j h jl ne. refl;
      keeps = λ u j h jl there. refl;
      spares = λ u h out. (h, out);
      translations = λ root va lr. refl;
      cost = omega arith;
      shrinks = omega arith;
    }

    made :
        {x : ℕ} {xs : List ℕ}
        → IsMapped hhdm level s (x ∷ xs)
        → present (s.mem (slot t o)) ≡ false
        → Lowered level s (x ∷ xs) t o k
    unfolding get_lower_table
    made {x} {xs} is absent =
        let (s1, e1, pool1, m1) = pmm_alloc-IsPool hhdm is.pool in
        let tables1 = subst (IsTables hhdm level) (sym m1) is.tables in
        let page : ℕ = virt hhdm x in
        let given : (x == 0) ≡ false = ground (arith, p.nonnull) in
        record {
          table = page;
          state = record s1 { mem = linked hhdm s1.mem page t o x };
          level' = with_table hhdm level page (suc k);
          rest = xs;
          returns = rw (get_lower_table, absent, e1, given);
          nonnull = omega (arith, p.nonnull, p.mapped);
          on_level = ground arith;
          mapped = record {
            pool =
                IsPool-mem hhdm _
                  (pool_linked hal level s1.mem t o x xs tables1 (omega (arith, lt)) ol p
                    is.pool.distinct.0 is.pages.1)
                  pool1;
            pages = spare_pages level x (suc k) xs p is.pool.distinct.0 is.pages.1;
            tables = linked-IsTables hhdm hal p is.pages.0.1 tables1 lt ol;
          };
          is_present = rw (linked_self hhdm hal p s1.mem t o) (new_entry-present hhdm p);
          points = rw (linked_self hhdm hal p s1.mem t o) (new_entry-table_of hhdm p);
          grows = λ u h. let f : (u == page) ≡ false = ground (arith, other u h) in rw f;
          frame = λ u j h jl ne.
              linked_other hhdm hal p s1.mem t o u j (tables1.aligned u h) (other u h) jl ne
              ∙ ap (λ m. m (slot u j)) m1;
          keeps = λ u j h jl there. elim (ℕ_discrete (slot u j) (slot t o)) [
            | yes same ↦ absurd (cc (same, there, absent))
            | no ne ↦
                linked_other hhdm hal p s1.mem t o u j (tables1.aligned u h) (other u h) jl ne
                ∙ ap (λ m. m (slot u j)) m1
          ];
          spares =
              λ u h out. let f : (u == page) ≡ false = ground (arith, out.0) in (rw f h, out.1);
          translations = λ root va lr.
              linked-translate hhdm hal p is.pages.0.1 tables1 lt ol
                (ap (λ m. present (m (slot t o))) m1 ∙ absent) root va lr
              ∙ ap (λ m. translate hhdm m root va) m1;
          cost = omega arith;
          shrinks = omega arith;
        }
      where
        p : IsPage hhdm x
        p = is.pages.0.0

        other : (u : ℕ) → level u ≢ 0 → u ≢ virt hhdm x
        other u h e = h (ap level e ∙ is.pages.0.1)

    -- With a page in the pool the call returns, and keeps the invariant.
    pub get_lower_table-Lowered :
        {xs : List ℕ} → IsMapped hhdm level s xs → 0 < length xs → Lowered level s xs t o k
    get_lower_table-Lowered {xs = []} is enough = absurd (omega arith)
    get_lower_table-Lowered {xs = x ∷ xs} is enough =
        elim (Bool-cases (present (s.mem (slot t o)))) [
          | inl here ↦ found is here
          | inr absent ↦ made is absent
        ]

  -- A store into a last-level table.
  module _ (hal : hhdm % 4096 ≡ 0) {level : ℕ → ℕ} (t o e : ℕ) (lt : level t ≡ 1)
      (ol : o < 512) where
    leaf-pool :
        (m : Words) (xs : List ℕ)
        → IsTables hhdm level m
        → All (λ y. IsPage hhdm y × (level (virt hhdm y) ≡ 0)) xs
        → All (λ y. put_word m (slot t o) e (virt hhdm y) ≡ m (virt hhdm y)) xs
    leaf-pool m [] tables pages = tt
    leaf-pool m (y ∷ ys) tables pages = (ground (arith, no_table), leaf-pool m ys tables pages.1)
      where
        no_table : virt hhdm y ≢ slot t o
        no_table h =
            let same : virt hhdm y ≡ t =
              omega
                (arith, h, virt-aligned hhdm hal pages.0.0, tables.aligned t (omega (arith, lt))) in
            omega (arith, ap level same, lt, pages.0.1)

    upper_spared :
        (m : Words)
        → IsTables hhdm level m
        → (u j k : ℕ) → level u ≡ suc (suc k)
        → j < 512
        → (slot u j == slot t o) ≡ false
    upper_spared m tables u j k h jl = ground (
      arith,
      apart hhdm u t j o tables (omega (arith, h, lt)) (omega (arith, h)) (omega (arith, lt)) jl ol,
    )

    leaf-IsTables :
        (m : Words) → IsTables hhdm level m → IsTables hhdm level (put_word m (slot t o) e)
    leaf-IsTables m tables = record {
      null = tables.null;
      aligned = tables.aligned;
      lower = λ u j k h jl here.
          let other : (slot u j == slot t o) ≡ false = upper_spared m tables u j k h jl in
          rw other (tables.lower u j k h jl (rw other at here));
      place = tables.place;
      placed = λ u j k h jl here.
          let other : (slot u j == slot t o) ≡ false = upper_spared m tables u j k h jl in
          rw other (tables.placed u j k h jl (rw other at here));
    }

    pub leaf-IsMapped :
        {s : Pmm} {xs : List ℕ}
        → IsMapped hhdm level s xs
        → IsMapped hhdm level (record s { mem = put_word s.mem (slot t o) e }) xs
    leaf-IsMapped {s} {xs} is = record {
      pool = IsPool-mem hhdm _ (leaf-pool s.mem xs is.tables is.pages) is.pool;
      pages = is.pages;
      tables = leaf-IsTables s.mem is.tables;
    }
