-- ===== src/Pmm/Init.antt =====
-- The pages that `pmm_init` of src/mm/pmm.c frees.
use lord.Prelude.{
  ℕ, zero, suc, ◌+◌, ◌-◌, ◌*◌, ◌/◌, ◌%◌, ◌^◌, ◌<◌, ◌≡◌, refl, Bool, true, false, some, List, [],
  ◌∷◌, arith, ◌==◌, if◌then◌else◌, length, All, Distinct, Bool-cases, inl, inr,
}
use lord.Kernel.{done}
use lord.Pmm.{
  block_size, Words, Pmm, Entry, usable, virt, free_loop, free_entry, size_loop, entry_loop,
  pmm_init,
}
use lord.Pmm.Pool.{
  InRange, IsPool, IsPool-page_count, IsPool-mem_size, IsPool-start, pmm_free-IsPool,
}

-- The globals as the program starts.
abbrev pub boot : Words → Pmm
boot m = record {
  free_list = 0;
  free_page_count = 0;
  page_count = 0;
  mem_size = 0;
  locked = false;
  mem = m;
}

-- The pages from the `j`-th of a range on, pushed one by one.
unfoldable pub pushed : (left j base : ℕ) → List ℕ → List ℕ
pushed zero j base xs = xs
pushed (suc left) j base xs = pushed left (j + 1) base ((base + j * block_size) % 2 ^ 64 ∷ xs)

-- The pages of one usable entry; the first such entry keeps its first page back.
unfoldable pub entry_pages : (first : Bool) → Entry → List ℕ → List ℕ
unfolding pushed
entry_pages true e xs = pushed (e.len / block_size - 1) 1 e.base xs
entry_pages false e xs = pushed (e.len / block_size) 0 e.base xs

-- The pages that `pmm_init` frees, the last one first: those of the usable entries, less the first
-- page of the first of them.
unfoldable pub freed_pages : (first : Bool) → List Entry → List ℕ → List ℕ
freed_pages first [] xs = xs
freed_pages first (e ∷ es) xs =
    let rest = freed_pages first es xs in
    if e.kind == usable then freed_pages false es (entry_pages first e xs) else rest

-- What the hypotheses say of the pages behind a push hold before it.
module _ (hhdm : ℕ) where
  pub record IsFresh (xs : List ℕ) : Type 0 where
    pub distinct : Distinct xs
    pub in_range : All (InRange hhdm) xs
    pub few : length xs < 2 ^ 64

  pushed-IsFresh : (left j base : ℕ) (xs : List ℕ) → IsFresh (pushed left j base xs) → IsFresh xs
  unfolding pushed
  pushed-IsFresh zero j base xs f = f
  pushed-IsFresh (suc left) j base xs f =
      let g = pushed-IsFresh left (j + 1) base _ f in
      record { distinct = g.distinct.1; in_range = g.in_range.1; few = omega (arith, g.few) }

  entry_pages-IsFresh :
      (first : Bool) (e : Entry) (xs : List ℕ) → IsFresh (entry_pages first e xs) → IsFresh xs
  unfolding entry_pages
  entry_pages-IsFresh true e xs f = pushed-IsFresh (e.len / block_size - 1) 1 e.base xs f
  entry_pages-IsFresh false e xs f = pushed-IsFresh (e.len / block_size) 0 e.base xs f

  freed_pages-IsFresh :
      (first : Bool) (es : List Entry) (xs : List ℕ)
      → IsFresh (freed_pages first es xs)
      → IsFresh xs
  unfolding freed_pages
  freed_pages-IsFresh first [] xs f = f
  freed_pages-IsFresh first (e ∷ es) xs f = elim (Bool-cases (e.kind == usable)) [
    | inr other ↦ freed_pages-IsFresh first es xs (rw (freed_pages, other) at f)
    | inl here ↦
        entry_pages-IsFresh first e xs
          (freed_pages-IsFresh false es _ (rw (freed_pages, here) at f))
  ]

  -- A pool whose size is the number of pages counted.
  abbrev pub Counted : Pmm → List ℕ → Type 0
  Counted s xs = IsPool hhdm s xs × (s.page_count ≡ length xs)

  boot-Counted : (m : Words) → Counted (boot m) []
  boot-Counted m = (
    record {
      bottom = 0;
      chain = refl;
      count = refl;
      distinct = tt;
      in_range = tt;
      few = omega arith;
      unlocked = refl;
    },
    refl,
  )

  free_loop-Counted :
      (left j base : ℕ) {s : Pmm} (xs : List ℕ)
      → Counted s xs
      → IsFresh (pushed left j base xs)
      → (s' : Pmm) × (free_loop hhdm left j base s ≡ done s') × Counted s' (pushed left j base xs)
  unfolding free_loop pushed
  free_loop-Counted zero j base {s} xs c f = (s, refl, c)
  free_loop-Counted (suc left) j base {s} xs c f =
      let page : ℕ = (base + j * block_size) % 2 ^ 64 in
      let g = pushed-IsFresh left (j + 1) base (page ∷ xs) f in
      let (s1, e1, p1, m1, c1) =
        pmm_free-IsPool hhdm page c.0 g.in_range.0 g.distinct.0 (omega (arith, g.few)) in
      let counted : (s1.page_count + 1) % 2 ^ 64 ≡ length (page ∷ xs) =
        omega (arith, c1, c.1, g.few) in
      let p2 : IsPool hhdm (record s1 { page_count = (s1.page_count + 1) % 2 ^ 64 }) (page ∷ xs) =
        IsPool-page_count hhdm _ p1 in
      let (s', e', c') = free_loop-Counted left (j + 1) base (page ∷ xs) (p2, counted) f in
      (s', rw (e1, e'), c')

  free_entry-Counted :
      (first : Bool) (e : Entry) {s : Pmm} (xs : List ℕ)
      → Counted s xs
      → (first ≡ true → xs ≡ [])
      → IsFresh (entry_pages first e xs)
      → (s' : Pmm) × (free_entry hhdm first e s ≡ done s') × Counted s' (entry_pages first e xs)
  unfolding free_entry entry_pages
  free_entry-Counted true e [] c h f =
      free_loop-Counted (e.len / block_size - 1) 1 e.base []
        (IsPool-start hhdm (virt hhdm e.base) c.0, c.1) f
  free_entry-Counted true e (x ∷ xs) c h f = absurd (cc (h refl))
  free_entry-Counted false e xs c h f = free_loop-Counted (e.len / block_size) 0 e.base xs c f

  entry_loop-Counted :
      (first : Bool) (es : List Entry) {s : Pmm} (xs : List ℕ)
      → Counted s xs
      → (first ≡ true → xs ≡ [])
      → IsFresh (freed_pages first es xs)
      → (s' : Pmm) × (entry_loop hhdm first es s ≡ done s') × Counted s' (freed_pages first es xs)
  unfolding entry_loop freed_pages
  entry_loop-Counted first [] {s} xs c h f = (s, refl, c)
  entry_loop-Counted first (e ∷ es) {s} xs c h f = elim (Bool-cases (e.kind == usable)) [
    | inr other ↦
        rw (entry_loop, freed_pages, other)
          (entry_loop-Counted first es xs c h (rw (freed_pages, other) at f))
    | inl here ↦
        let g : IsFresh (freed_pages false es (entry_pages first e xs)) =
          rw (freed_pages, here) at f in
        let (s1, e1, c1) =
          free_entry-Counted first e xs c h
            (freed_pages-IsFresh false es (entry_pages first e xs) g) in
        let (s2, e2, c2) =
          entry_loop-Counted false es (entry_pages first e xs) c1 (λ q. absurd (cc)) g in
        (s2, rw (entry_loop, here, e1) e2, rw (freed_pages, here) c2)
  ]

  size_loop-Counted :
      (es : List Entry) {s : Pmm} (xs : List ℕ) → Counted s xs → Counted (size_loop es s) xs
  unfolding size_loop
  size_loop-Counted [] xs c = c
  size_loop-Counted (e ∷ es) xs c = elim (Bool-cases (e.kind == usable)) [
    | inr other ↦ rw (size_loop, other) (size_loop-Counted es xs c)
    | inl here ↦ rw (size_loop, here) (size_loop-Counted es xs (IsPool-mem_size hhdm _ c.0, c.1))
  ]

  -- From the state at boot, `pmm_init` returns with the usable pages, less the first page of the first
  -- usable entry, as the pool, if no page stands twice in the memory map and all are mapped without
  -- wrapping; both counters are the size of the pool.
  pub pmm_init-IsPool :
      (es : List Entry) (m : Words)
      → IsFresh (freed_pages true es [])
      → (s : Pmm) × (pmm_init hhdm (some es) (boot m) ≡ done s)
        × IsPool hhdm s (freed_pages true es [])
        × (s.free_page_count ≡ length (freed_pages true es []))
        × (s.page_count ≡ length (freed_pages true es []))
  unfolding pmm_init
  pmm_init-IsPool es m f =
      let (s, e, c) =
        entry_loop-Counted true es [] (size_loop-Counted es [] (boot-Counted m)) (λ _. refl) f in
      (s, e, c.0, c.0.count, c.1)
