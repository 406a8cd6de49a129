-- ===== src/Vmm/Walk/Tests.antt =====
-- A second mapping beside an address that is mapped already.
use lord.Prelude.{
  ℕ, suc, ◌+◌, ◌*◌, ◌⊎◌, inl, inr, ◌<◌, ◌≡◌, refl, true, false, none, some, arith, ◌==◌,
  if◌then◌else◌, ℕ_discrete,
}
use lord.Pmm.{Words, Pmm}
use lord.Pmm.Pool.{IsPool}
use lord.Vmm.{Vmm, slot, present, table_of}
use lord.Vmm.Tables.{IsTables, IsMapped}
use lord.Vmm.Translate.{walk_at, walk_slot, step}
use lord.Vmm.Space.{translate}
use lord.Vmm.Walk.{Mapped, vmm_map_page-Mapped}
use lord.Vmm.Tests.{
  upper, kernel_page_map, spare, links, three_pages, three_pages-IsPool, some-IsPage,
}

abbrev pub pdp : ℕ
pdp = 0x101_1000

abbrev pub pd : ℕ
pd = 0x101_2000

abbrev pub pt : ℕ
pt = 0x101_3000

-- The tables of the address 0x1001000, which is mapped to the page 0x7000.
abbrev pub occupied_words : Words
occupied_words a =
    if a == kernel_page_map
    then 0x1_1007
    else (if a == pdp
        then 0x1_2007
        else (if a == pd + 64 then 0x1_3007 else (if a == pt + 8 then 0x7003 else links a)))

abbrev pub levels : ℕ → ℕ
levels t =
    if t == kernel_page_map
    then 4
    else (if t == pdp then 3 else (if t == pd then 2 else (if t == pt then 1 else 0)))

upper_table :
    (t k : ℕ)
    → levels t ≡ suc (suc k)
    → ((t ≡ kernel_page_map) × (k ≡ 2)) ⊎ (((t ≡ pdp) × (k ≡ 1)) ⊎ ((t ≡ pd) × (k ≡ 0)))
upper_table t k h = elim (ℕ_discrete t kernel_page_map) [
  | yes e ↦ inl (e, ground arith)
  | no n4 ↦ elim (ℕ_discrete t pdp) [
    | yes e ↦ inr (inl (e, ground arith))
    | no n3 ↦ inr (inr (ground arith, ground arith))
  ]
]

-- The addresses behind a table, in units of what its level maps.
abbrev places : ℕ → ℕ
places t = if t == pt then 8 else 0

-- A table with one entry `w`, at the index `j`.
lower_row :
    (t j w k : ℕ)
    → ((o : ℕ) → o < 512 → occupied_words (slot t o) ≡ (if o == j then w else 0))
    → levels (table_of upper w) ≡ suc k
    → places (table_of upper w) ≡ places t * 512 + j
    → (o : ℕ) → o < 512
    → present (occupied_words (slot t o)) ≡ true
    → (levels (table_of upper (occupied_words (slot t o))) ≡ suc k)
      × (places (table_of upper (occupied_words (slot t o))) ≡ places t * 512 + o)
lower_row t j w k row below stands o ol here = elim (ℕ_discrete o j) [
  | yes e ↦
      let at : occupied_words (slot t o) ≡ w = ground (arith, row o ol) in
      (rw at below, rw (at, e) stands)
  | no n ↦
      let blank : occupied_words (slot t o) ≡ 0 = ground (arith, row o ol) in
      let e : false ≡ true = rw blank at here in absurd (cc e)
]

occupied_row :
    (t o k : ℕ)
    → levels t ≡ suc (suc k)
    → o < 512
    → present (occupied_words (slot t o)) ≡ true
    → (levels (table_of upper (occupied_words (slot t o))) ≡ suc k)
      × (places (table_of upper (occupied_words (slot t o))) ≡ places t * 512 + o)
occupied_row t o k h ol here = elim (upper_table t k h) [
  | inl (et, ek) ↦
      rw (et, ek)
        (lower_row kernel_page_map 0 0x1_1007 2 (λ i il. ground arith) refl refl o ol
          (rw et at here))
  | inr (inl (et, ek)) ↦
      rw (et, ek) (lower_row pdp 0 0x1_2007 1 (λ i il. ground arith) refl refl o ol (rw et at here))
  | inr (inr (et, ek)) ↦
      rw (et, ek) (lower_row pd 8 0x1_3007 0 (λ i il. ground arith) refl refl o ol (rw et at here))
]

occupied-IsTables : IsTables upper levels occupied_words
occupied-IsTables = record {
  null = refl;
  aligned = λ t h. ground arith;
  lower = λ t o k h ol here. (occupied_row t o k h ol here).0;
  place = places;
  placed = λ t o k h ol here. (occupied_row t o k h ol here).1;
}

abbrev pub occupied_pmm : Pmm
occupied_pmm = record three_pages { mem = occupied_words }

occupied-IsPool : IsPool upper occupied_pmm spare
occupied-IsPool = record {
  bottom = 0;
  chain = (refl, (refl, (refl, refl)));
  count = refl;
  distinct = three_pages-IsPool.distinct;
  in_range = three_pages-IsPool.in_range;
  few = three_pages-IsPool.few;
  unlocked = refl;
}

pub occupied-IsMapped : IsMapped upper levels occupied_pmm spare
occupied-IsMapped = record {
  pool = occupied-IsPool;
  pages = (
    (some-IsPage 0x4000 (omega arith) refl (omega arith), refl),
    (
      (some-IsPage 0x3000 (omega arith) refl (omega arith), refl),
      ((some-IsPage 0x2000 (omega arith) refl (omega arith), refl), tt),
    ),
  );
  tables = occupied-IsTables;
}

abbrev pub occupied : Vmm
occupied = record { pmm = occupied_pmm; locked = false }

at_0x1001000 : translate upper occupied_words kernel_page_map 0x100_1000 ≡ some 0x7003
unfolding translate walk_slot walk_at step
at_0x1001000 = refl

at_0x1002000 : translate upper occupied_words kernel_page_map 0x100_2000 ≡ none
unfolding translate walk_slot walk_at step
at_0x1002000 = refl

vmm_map_page-Mapped_example :
    Mapped upper levels kernel_page_map 0x80_0000_5000 0x8000 3 occupied spare
vmm_map_page-Mapped_example =
    vmm_map_page-Mapped upper refl kernel_page_map 0x80_0000_5000 0x8000 3 occupied-IsMapped refl
      refl (omega arith)
