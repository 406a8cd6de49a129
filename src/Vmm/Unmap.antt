-- ===== src/Vmm/Unmap.antt =====
-- `vmm_free_page`, alone and behind `vmm_map_page`.
use lord.Prelude.{
  ℕ, suc, ◌+◌, ◌*◌, ◌/◌, ◌%◌, ◌^◌, ◌≤◌, ◌<◌, ◌≡◌, refl, sym, ap, subst, ◌∙◌, ◌≢◌, false, inl, inr,
  Bool-cases, Option, none, some, if◌then◌else◌, List, [], ◌∷◌, arith, bit_and, bit_or, ◌==◌,
  length, All,
}
use lord.Bits.{or_low}
use lord.Kernel.{done}
use lord.Pmm.{Words, put_word, Pmm, virt, pmm_free}
use lord.Pmm.Pool.{IsPool, pmm_free-IsPool}
use lord.Vmm.{
  Vmm, slot, address_mask, vmm_map_page, vmm_free_page, pml4_offset, pdp_offset, pd_offset,
  pt_offset,
}
use lord.Vmm.Tables.{apart, IsPage, IsTables, IsMapped, virt-aligned, address_lem}
use lord.Vmm.Lower.{leaf-IsMapped}
use lord.Vmm.Translate.{
  walk_slot, walk, step, step-some, step_kept, Path4, walk_slot-Path4, Path4-walk_slot,
}
use lord.Vmm.Space.{
  held, page_of, updated, translate, translate-kept, walk_slot-kept, translate-put_word, Levels,
  Path4-Levels, index-lt,
}
use lord.Vmm.Walk.{Mapped, vmm_map_page-Mapped}
use lord.Vmm.Frame.{descend_to_pt-Path4}

module _ (hhdm : ℕ) where
  -- The address space behind a call of `vmm_free_page` whose page was `page`.
  pub record Unmapped (level : ℕ → ℕ) (root va page : ℕ) (v : Vmm) (xs : List ℕ) : Type 0 where
    pub after : Vmm
    pub returns : vmm_free_page hhdm root va v ≡ done after
    pub mapped : IsMapped hhdm level after.pmm (page ∷ xs)
    pub gone : walk hhdm after.pmm.mem root va ≡ some 0
    pub unmaps :
        (other : ℕ)
        → translate hhdm after.pmm.mem root other
          ≡ updated va none (translate hhdm v.pmm.mem root) other
    pub lock : after.locked ≡ v.locked

  module _ (hal : hhdm % 4096 ≡ 0) {level : ℕ → ℕ} {x : ℕ} (page : IsPage hhdm x)
      (spare : level (virt hhdm x) ≡ 0) where
    -- A slot of a table is not the first word of a page that is no table.
    outside_page :
        {m : Words} (t j : ℕ)
        → IsTables hhdm level m
        → level t ≢ 0
        → j < 512
        → slot t j ≢ virt hhdm x
    outside_page t j tables lt jl e =
        let same : t ≡ virt hhdm x =
          omega (arith, e, virt-aligned hhdm hal page, tables.aligned t lt) in
        lt (ap level same ∙ spare)

    kept_slot :
        (m : Words) (w t j : ℕ)
        → IsTables hhdm level m
        → level t ≢ 0
        → j < 512
        → put_word m (virt hhdm x) w (slot t j) ≡ m (slot t j)
    kept_slot m w t j tables lt jl = ground (arith, outside_page t j tables lt jl)

    put-IsTables :
        (m : Words) (w : ℕ)
        → IsTables hhdm level m
        → IsTables hhdm level (put_word m (virt hhdm x) w)
    put-IsTables m w tables = record {
      null = tables.null;
      aligned = tables.aligned;
      lower = λ t o k lt ol here.
          let kept = kept_slot m w t o tables (omega (arith, lt)) ol in
          rw kept (tables.lower t o k lt ol (rw kept at here));
      place = tables.place;
      placed = λ t o k lt ol here.
          let kept = kept_slot m w t o tables (omega (arith, lt)) ol in
          rw kept (tables.placed t o k lt ol (rw kept at here));
    }

  module _ (hal : hhdm % 4096 ≡ 0) {level : ℕ → ℕ} (v : Vmm) {xs : List ℕ} (root va a x : ℕ)
      (is : IsMapped hhdm level v.pmm xs) (lr : level root ≡ 4)
      (at : walk_slot hhdm v.pmm.mem root va ≡ some a)
      (holds : bit_and (v.pmm.mem a) address_mask ≡ x) (page : IsPage hhdm x)
      (spare : level (virt hhdm x) ≡ 0) (out : All (λ y. y ≢ x) xs)
      (few : length xs + 1 < 2 ^ 64) where
    path : Path4 hhdm v.pmm.mem root va a
    path = walk_slot-Path4 hhdm v.pmm.mem root va a at

    levels : Levels hhdm level path
    levels = Path4-Levels hhdm path is.tables lr

    freed :
        (s1 : Pmm) × (pmm_free hhdm x v.pmm ≡ done s1)
        × IsPool hhdm s1 (x ∷ xs)
        × (s1.mem ≡ put_word v.pmm.mem (virt hhdm x) v.pmm.free_list)
        × (s1.page_count ≡ v.pmm.page_count)
    freed = pmm_free-IsPool hhdm x is.pool page.mapped out few

    abbrev leaf : ℕ
    leaf = slot path.t1 (pt_offset va)

    abbrev final : Words
    final = put_word freed.0.mem leaf 0

    -- Upper tables keep their entries.
    final_kept :
        (t j k : ℕ) → level t ≡ suc (suc k) → j < 512 → final (slot t j) ≡ v.pmm.mem (slot t j)
    final_kept t j k lt jl =
        let other : (slot t j == leaf) ≡ false = ground (
          arith,
          apart hhdm t path.t1 j (pt_offset va) is.tables (omega (arith, lt, levels.on1))
              (omega (arith, lt)) (omega (arith, levels.on1)) jl (index-lt _),
        ) in
        rw (other, freed.3)
          (kept_slot hal page spare v.pmm.mem v.pmm.free_list t j is.tables (omega (arith, lt)) jl)

    final-step :
        (t t' j k : ℕ)
        → level t ≡ suc (suc k)
        → j < 512
        → step hhdm v.pmm.mem t j ≡ some t'
        → step hhdm final t j ≡ some t'
    final-step t t' j k lt jl e =
        let (here, points) = step-some hhdm v.pmm.mem t j t' e in
        step_kept hhdm final v.pmm.mem t j (final_kept t j k lt jl) here points

    final_slot : walk_slot hhdm final root va ≡ some leaf
    final_slot = Path4-walk_slot hhdm final root va leaf (record {
      t3 = path.t3;
      t2 = path.t2;
      t1 = path.t1;
      at4 = final-step root path.t3 (pml4_offset va) 2 lr (index-lt _) path.at4;
      at3 = final-step path.t3 path.t2 (pdp_offset va) 1 levels.on3 (index-lt _) path.at3;
      at2 = final-step path.t2 path.t1 (pd_offset va) 0 levels.on2 (index-lt _) path.at2;
      last = refl;
    })

    final_zero : final leaf ≡ 0
    final_zero = ground arith

    freed_kept : (t j : ℕ) → level t ≢ 0 → j < 512 → freed.0.mem (slot t j) ≡ v.pmm.mem (slot t j)
    freed_kept t j lt jl =
        ap (λ m. m (slot t j)) freed.3
        ∙ kept_slot hal page spare v.pmm.mem v.pmm.free_list t j is.tables lt jl

    freed-IsTables : IsTables hhdm level freed.0.mem
    freed-IsTables =
        subst (IsTables hhdm level) (sym freed.3)
          (put-IsTables hal page spare v.pmm.mem v.pmm.free_list is.tables)

    freed_slot : walk_slot hhdm freed.0.mem root va ≡ some leaf
    freed_slot =
        walk_slot-kept hhdm is.tables root lr freed.0.mem va
          (λ u j h jl. freed_kept u j (omega arith) jl)
        ∙ at
        ∙ ap some (sym path.last)

    unmaps_lem :
        (other : ℕ)
        → translate hhdm final root other ≡ updated va none (translate hhdm v.pmm.mem root) other
    unmaps_lem other =
        translate-put_word hhdm freed-IsTables root lr va leaf 0 freed_slot other
        ∙ ap (λ e. if page_of other == page_of va then none else e)
            (translate-kept hhdm is.tables root lr freed.0.mem other freed_kept)

    -- `vmm_free_page` of a mapped address puts the page of its entry on top of the pool and clears the
    -- entry, if that page may be a table, is none, and is not in the pool already.
    pub vmm_free_page-Unmapped : Unmapped level root va x v xs
    unfolding vmm_free_page walk
    vmm_free_page-Unmapped =
        let leaf_holds : bit_and (v.pmm.mem leaf) address_mask ≡ x =
          ap (λ w. bit_and (v.pmm.mem w) address_mask) path.last ∙ holds in
        record {
          after = record v { pmm = record freed.0 { mem = final } };
          returns =
              rw
                (
                  vmm_free_page,
                  descend_to_pt-Path4 hhdm {s = v.pmm} path is.tables lr,
                  leaf_holds,
                  freed.1,
                )
                refl;
          mapped = leaf-IsMapped hhdm hal path.t1 (pt_offset va) 0 levels.on1 (index-lt _) (record {
            pool = freed.2;
            pages = ((page, spare), is.pages);
            tables = freed-IsTables;
          });
          gone = rw (walk, final_slot) (ap some final_zero);
          unmaps = unmaps_lem;
          lock = refl;
        }

  -- The physical address of an entry of a page with flags in the low bits.
  entry_page :
      (x flags : ℕ) → IsPage hhdm x → flags < 4096 → bit_and (bit_or x flags) address_mask ≡ x
  entry_page x flags page low =
      let split : x ≡ x / 4096 * 2 ^ 12 = omega (arith, page.aligned) in
      let sum : bit_or x flags ≡ x + flags =
        subst (λ t. bit_or t flags ≡ t + flags) (sym split) (or_low 12 (x / 4096) flags low) in
      omega (arith, address_lem (bit_or x flags), sum, page.aligned, page.physical)

  not_listed : (x : ℕ) (xs : List ℕ) → All (λ y. virt hhdm y ≢ virt hhdm x) xs → All (λ y. y ≢ x) xs
  not_listed x [] h = tt
  not_listed x (y ∷ ys) h = (λ e. h.0 (ap (virt hhdm) e), not_listed x ys h.1)

  listed_apart :
      (x : ℕ) (level : ℕ → ℕ) (xs : List ℕ)
      → IsPage hhdm x
      → All (λ y. IsPage hhdm y × (level (virt hhdm y) ≡ 0)) xs
      → All (λ y. y ≢ x) xs
      → All (λ y. virt hhdm y ≢ virt hhdm x) xs
  listed_apart x level [] page pages h = tt
  listed_apart x level (y ∷ ys) page pages h = (
    λ e. h.0 (omega (arith, e, page.mapped, pages.0.0.mapped)),
    listed_apart x level ys page pages.1 h.1,
  )

  updated_twice :
      (va other : ℕ) (e : Option ℕ) (f : ℕ → Option ℕ)
      → updated va none (updated va e f) other ≡ updated va none f other
  updated_twice va other e f = elim (Bool-cases (page_of other == page_of va)) [
    | inl same ↦ rw same refl
    | inr far ↦ rw far refl
  ]

  -- With three pages in the pool and the lock free, `vmm_free_page` undoes `vmm_map_page`: a page that is no table and not in the pool, mapped with
  -- flags in the low 12 bits, is put on top of the pool when its address is freed; the page of the
  -- address is not translated any more, every other page is translated as before the two calls, and
  -- the invariant of tables and pool holds.
  pub vmm_free_page-vmm_map_page :
      (hal : hhdm % 4096 ≡ 0) {level : ℕ → ℕ} {v : Vmm} {xs : List ℕ} (root va pa flags : ℕ)
      → IsMapped hhdm level v.pmm xs
      → level root ≡ 4
      → v.locked ≡ false
      → 3 ≤ length xs
      → length xs + 1 < 2 ^ 64
      → IsPage hhdm pa
      → level (virt hhdm pa) ≡ 0
      → All (λ y. y ≢ pa) xs
      → flags < 4096
      → (v1 v2 : Vmm) × (level' : ℕ → ℕ) × (rest : List ℕ) × (vmm_map_page hhdm root va pa flags v
          ≡ done v1)
        × (vmm_free_page hhdm root va v1 ≡ done v2)
        × IsMapped hhdm level' v2.pmm (pa ∷ rest)
        × (walk hhdm v2.pmm.mem root va ≡ some 0)
        × ((other : ℕ)
            → translate hhdm v2.pmm.mem root other
              ≡ updated va none (translate hhdm v.pmm.mem root) other)
        × (v2.locked ≡ false)
  unfolding walk
  vmm_free_page-vmm_map_page hal {level} {v} {xs} root va pa flags is lr free enough few page spare
        out low =
      (
        m.after,
        u.after,
        m.level',
        m.rest,
        m.returns,
        u.returns,
        u.mapped,
        u.gone,
        undone,
        u.lock ∙ m.unlocked,
      )
    where
      m : Mapped hhdm level root va pa flags v xs
      m = vmm_map_page-Mapped hhdm hal root va pa flags is lr free enough

      still : (m.level' (virt hhdm pa) ≡ 0) × All (λ y. virt hhdm y ≢ virt hhdm pa) m.rest
      still = m.spares (virt hhdm pa) spare (listed_apart pa level xs page is.pages out)

      entry : m.after.pmm.mem m.leaf ≡ bit_or pa flags
      entry = cc (rw (walk, m.leaf_slot) at m.translates)

      u : Unmapped m.level' root va pa m.after m.rest
      u =
          vmm_free_page-Unmapped hal m.after root va m.leaf pa m.mapped m.root_level m.leaf_slot
            (ap (λ w. bit_and w address_mask) entry ∙ entry_page pa flags page low) page still.0
            (not_listed pa m.rest still.1) (omega (arith, m.shrinks))

      undone :
          (other : ℕ)
          → translate hhdm u.after.pmm.mem root other
            ≡ updated va none (translate hhdm v.pmm.mem root) other
      undone other =
          u.unmaps other
          ∙ ap (λ e. updated va none (λ o. e) other) (m.maps other)
          ∙ updated_twice va other (held (bit_or pa flags)) (translate hhdm v.pmm.mem root)
