-- ===== src/Vmm/Tables.antt =====
-- An invariant of the page tables of src/mm/vmm.c: every table stands on one level, and for one
-- range of addresses.
use lord.Prelude.{
  ℕ, suc, ◌+◌, ◌*◌, ◌/◌, ◌%◌, ◌^◌, ◌<◌, ◌≡◌, refl, sym, ap, subst, ◌∙◌, ◌≢◌, true, false, List,
  arith, bit_and, ◌==◌, if◌then◌else◌, All, ℕ_discrete,
}
use lord.Bits.{and_mask, and_field, or_high}
use lord.Pmm.{Words, put_word, Pmm, virt}
use lord.Pmm.Pool.{IsPool}
use lord.Vmm.{address_mask, slot, present, zero_page, table_of, new_entry}

present_odd : (e : ℕ) → e % 2 ≡ 1 → present e ≡ true
present_odd e h = let b : bit_and e 1 ≡ 1 = and_mask 1 e ∙ h in rw b refl

-- The physical address in an entry: bits 12 to 51.
pub address_lem : (e : ℕ) → bit_and e address_mask ≡ e / 4096 % 2 ^ 40 * 4096
address_lem e = and_field 12 40 e

new_entry_sum : (x : ℕ) → x % 4096 ≡ 0 → new_entry x ≡ x + 7
new_entry_sum x h =
    let q : ℕ = x / 4096 in
    let e : x ≡ q * 2 ^ 12 + 0 = omega arith in
    rw
      (
        e,
        or_high 12 q 0 1 (omega arith) (omega arith),
        or_high 12 q 1 2 (omega arith) (omega arith),
        or_high 12 q 3 4 (omega arith) (omega arith),
      )
      (omega arith)

module _ (hhdm : ℕ) where
  -- A page that the allocator may hand out as a table.
  pub record IsPage (x : ℕ) : Type 0 where
    pub nonnull : 0 < x
    pub aligned : x % 4096 ≡ 0
    pub physical : x < 2 ^ 52
    pub mapped : x + hhdm < 2 ^ 64

  pub new_entry-present : {x : ℕ} → IsPage x → present (new_entry x) ≡ true
  new_entry-present {x} p =
      present_odd (new_entry x) (omega (arith, new_entry_sum x p.aligned, p.aligned))

  pub new_entry-table_of : {x : ℕ} → IsPage x → table_of hhdm (new_entry x) ≡ virt hhdm x
  new_entry-table_of {x} p =
      let e : bit_and (new_entry x) address_mask ≡ x =
        omega
          (arith, address_lem (new_entry x), new_entry_sum x p.aligned, p.aligned, p.physical) in
      ap (virt hhdm) e

  -- `level t` is 4 for a top-level table at the virtual address `t`, 1 for a last-level table, and 0
  -- for what is no table.
  pub record IsTables (level : ℕ → ℕ) (m : Words) : Type 0 where
    pub null : level 0 ≡ 0
    pub aligned : (t : ℕ) → level t ≢ 0 → t % 4096 ≡ 0
    pub lower :
        (t o k : ℕ)
        → level t ≡ suc (suc k)
        → o < 512
        → present (m (slot t o)) ≡ true
        → level (table_of hhdm (m (slot t o))) ≡ suc k
    -- The number of the range of addresses that a table stands for, among those of its level.
    pub place : ℕ → ℕ
    pub placed :
        (t o k : ℕ)
        → level t ≡ suc (suc k)
        → o < 512
        → present (m (slot t o)) ≡ true
        → place (table_of hhdm (m (slot t o))) ≡ place t * 512 + o

  -- The allocator beside the tables: no page of its pool is a table.
  pub record IsMapped (level : ℕ → ℕ) (s : Pmm) (xs : List ℕ) : Type 0 where
    pub pool : IsPool hhdm s xs
    pub pages : All (λ x. IsPage x × (level (virt hhdm x) ≡ 0)) xs
    pub tables : IsTables level s.mem

  -- Slots of tables on different levels are different.
  pub apart :
      {level : ℕ → ℕ} {m : Words} (u t j o : ℕ)
      → IsTables level m
      → level u ≢ level t
      → level u ≢ 0
      → level t ≢ 0
      → j < 512
      → o < 512
      → slot u j ≢ slot t o
  apart {level} u t j o tables ne hu ht jl ol e =
      let same : u ≡ t = omega (arith, tables.aligned u hu, tables.aligned t ht) in
      ne (ap level same)

  -- `level` with a new table.
  abbrev pub with_table : (ℕ → ℕ) → ℕ → ℕ → ℕ → ℕ
  with_table level t k u = if u == t then k else level u

  -- The memory in which a new table is linked.
  abbrev pub linked : Words → (page t o x : ℕ) → Words
  linked m page t o x = put_word (zero_page m page) (slot t o) (new_entry x)

  module _ (hal : hhdm % 4096 ≡ 0) {x : ℕ} (p : IsPage x) where
    pub virt-aligned : virt hhdm x % 4096 ≡ 0
    virt-aligned = omega (arith, p.aligned, p.mapped)

    -- Slots of other tables lie outside the new page.
    pub linked_other :
        (m : Words) (t o u j : ℕ)
        → u % 4096 ≡ 0
        → u ≢ virt hhdm x
        → j < 512
        → slot u j ≢ slot t o
        → linked m (virt hhdm x) t o x (slot u j) ≡ m (slot u j)
    unfolding zero_page
    linked_other m t o u j al ne jl sl = ground (arith, virt-aligned)

    pub linked_new :
        (m : Words) (t o j : ℕ)
        → t % 4096 ≡ 0
        → t ≢ virt hhdm x
        → o < 512
        → j < 512
        → linked m (virt hhdm x) t o x (slot (virt hhdm x) j) ≡ 0
    unfolding zero_page
    linked_new m t o j al ne ol jl = ground (arith, virt-aligned)

    pub linked_self : (m : Words) (t o : ℕ) → linked m (virt hhdm x) t o x (slot t o) ≡ new_entry x
    linked_self m t o = ground arith

  -- A new table is linked into a slot of a table one level up.
  module _ (hal : hhdm % 4096 ≡ 0) {level : ℕ → ℕ} {m : Words} {x t o k : ℕ} (p : IsPage x)
      (spare : level (virt hhdm x) ≡ 0) (tables : IsTables level m) (lt : level t ≡ suc (suc k))
      (ol : o < 512) where
    abbrev page : ℕ
    page = virt hhdm x

    abbrev level' : ℕ → ℕ
    level' = with_table level page (suc k)

    t-aligned : t % 4096 ≡ 0
    t-aligned = tables.aligned t (omega (arith, lt))

    t-ne-page : t ≢ page
    t-ne-page e = omega (arith, ap level e, lt, spare)

    table-ne-page : (u i : ℕ) → level u ≡ suc i → u ≢ page
    table-ne-page u i h e = omega (arith, ap level e, h, spare)

    level'_old : (u i : ℕ) → level u ≡ suc i → level' u ≡ suc i
    level'_old u i h = let ne : (u == page) ≡ false = ground (arith, table-ne-page u i h) in rw ne h

    abbrev place' : ℕ → ℕ
    place' = with_table tables.place page (tables.place t * 512 + o)

    place'_old : (u i : ℕ) → level u ≡ suc i → place' u ≡ tables.place u
    place'_old u i h = let ne : (u == page) ≡ false = ground (arith, table-ne-page u i h) in rw ne

    -- What `IsTables` asks of an entry, on level `i + 1`.
    abbrev IsBelow : (u j i : ℕ) → Type 0
    IsBelow u j i =
        (level' (table_of hhdm (linked m page t o x (slot u j))) ≡ suc i)
        × (place' (table_of hhdm (linked m page t o x (slot u j))) ≡ place' u * 512 + j)

    IsBelow-new :
        (j i : ℕ) → j < 512 → present (linked m page t o x (slot page j)) ≡ true → IsBelow page j i
    IsBelow-new j i jl here =
        let none_present : false ≡ true =
          rw (linked_new hal p m t o j t-aligned t-ne-page ol jl) at here in
        absurd (cc none_present)

    IsBelow-self :
        (u i j : ℕ) → level u ≡ suc (suc i) → j < 512 → slot u j ≡ slot t o → IsBelow u j i
    IsBelow-self u i j h jl e =
        let ual : u % 4096 ≡ 0 = tables.aligned u (omega (arith, h)) in
        let same : u ≡ t = omega (arith, ual, t-aligned, e) in
        let index : j ≡ o = omega (arith, same, e) in
        let depth : k ≡ i = omega (arith, ap level same, h, lt) in
        let itself : (page == page) ≡ true = ground arith in
        (
          rw (e, linked_self hal p m t o, new_entry-table_of p, itself) (ap suc depth),
          rw (e, linked_self hal p m t o, new_entry-table_of p, itself, place'_old u (suc i) h)
              (omega (arith, ap tables.place same, index)),
        )

    IsBelow-other :
        (u i j : ℕ)
        → level u ≡ suc (suc i)
        → j < 512
        → slot u j ≢ slot t o
        → present (linked m page t o x (slot u j)) ≡ true
        → IsBelow u j i
    IsBelow-other u i j h jl ne here =
        let ual : u % 4096 ≡ 0 = tables.aligned u (omega (arith, h)) in
        let kept = linked_other hal p m t o u j ual (table-ne-page u (suc i) h) jl ne in
        let there : present (m (slot u j)) ≡ true = rw kept at here in
        let on_level = tables.lower u j i h jl there in
        (
          rw kept (level'_old _ i on_level),
          rw (kept, place'_old u (suc i) h)
              (place'_old _ i on_level ∙ tables.placed u j i h jl there),
        )

    entry-IsBelow :
        (u j i : ℕ)
        → level' u ≡ suc (suc i)
        → j < 512
        → present (linked m page t o x (slot u j)) ≡ true
        → IsBelow u j i
    entry-IsBelow u j i h jl here = elim (ℕ_discrete u page) [
      | yes new ↦ subst (λ w. IsBelow w j i) (sym new) (IsBelow-new j i jl (rw new at here))
      | no old ↦
          let was : level u ≡ suc (suc i) = ground (arith, old) in
          elim (ℕ_discrete (slot u j) (slot t o)) [
            | yes self ↦ IsBelow-self u i j was jl self
            | no other ↦ IsBelow-other u i j was jl other here
          ]
    ]

    pub linked-IsTables : IsTables level' (linked m page t o x)
    linked-IsTables = record {
      null = ground (arith, p.nonnull, p.mapped, tables.null);
      aligned = λ u h. elim (ℕ_discrete u page) [
        | yes new ↦ rw new (virt-aligned hal p)
        | no old ↦ tables.aligned u (ground (arith, old, h))
      ];
      lower = λ u j i h jl here. (entry-IsBelow u j i h jl here).0;
      place = place';
      placed = λ u j i h jl here. (entry-IsBelow u j i h jl here).1;
    }
