-- ===== src/Pmm/Pool.antt =====
-- The free list as a stack of pages.
use lord.Prelude.{
  ℕ, ◌+◌, ◌-◌, ◌%◌, ◌^◌, ◌<◌, ◌≡◌, refl, ◌≢◌, false, List, [], ◌∷◌, arith, ◌==◌, length, All,
  Distinct,
}
use lord.Kernel.{done}
use lord.Pmm.{Words, put_word, Pmm, virt, phys, pmm_free, pmm_alloc}

module _ (hhdm : ℕ) where
  -- From the virtual address `p` the first words of the pages `xs` lead to `bottom`.
  abbrev pub Chain : Words → ℕ → List ℕ → ℕ → Type 0
  Chain m p [] bottom = p ≡ bottom
  Chain m p (x ∷ xs) bottom = (p ≡ virt hhdm x) × Chain m (m p) xs bottom

  -- The page is mapped in the upper half without wrapping.
  abbrev pub InRange : ℕ → Type 0
  InRange x = x + hhdm < 2 ^ 64

  -- The pages `xs` are free, in the order in which they will be handed out.
  pub record IsPool (s : Pmm) (xs : List ℕ) : Type 0 where
    pub bottom : ℕ
    pub chain : Chain s.mem s.free_list xs bottom
    pub count : s.free_page_count ≡ length xs
    pub distinct : Distinct xs
    pub in_range : All InRange xs
    pub few : length xs < 2 ^ 64
    pub unlocked : s.locked ≡ false

  -- The statistics are no part of the pool.
  pub IsPool-page_count :
      {s : Pmm} {xs : List ℕ} (n : ℕ) → IsPool s xs → IsPool (record s { page_count = n }) xs
  IsPool-page_count n pool = record {
    bottom = pool.bottom;
    chain = pool.chain;
    count = pool.count;
    distinct = pool.distinct;
    in_range = pool.in_range;
    few = pool.few;
    unlocked = pool.unlocked;
  }

  pub IsPool-mem_size :
      {s : Pmm} {xs : List ℕ} (n : ℕ) → IsPool s xs → IsPool (record s { mem_size = n }) xs
  IsPool-mem_size n pool = record {
    bottom = pool.bottom;
    chain = pool.chain;
    count = pool.count;
    distinct = pool.distinct;
    in_range = pool.in_range;
    few = pool.few;
    unlocked = pool.unlocked;
  }

  -- An empty pool may have its list start anywhere.
  pub IsPool-start : {s : Pmm} (p : ℕ) → IsPool s [] → IsPool (record s { free_list = p }) []
  IsPool-start p pool = record {
    bottom = p;
    chain = refl;
    count = pool.count;
    distinct = tt;
    in_range = tt;
    few = pool.few;
    unlocked = pool.unlocked;
  }

  -- A chain survives any change that spares the first words of its pages.
  pub Chain-frame :
      (m m' : Words) (p : ℕ) (xs : List ℕ) (bottom : ℕ)
      → All (λ x. m' (virt hhdm x) ≡ m (virt hhdm x)) xs
      → Chain m p xs bottom
      → Chain m' p xs bottom
  Chain-frame m m' p [] bottom same c = c
  Chain-frame m m' p (x ∷ xs) bottom same c =
      let e : m' p ≡ m p = rw c.0 same.0 in
      (c.0, rw e (Chain-frame m m' (m p) xs bottom same.1 c.1))

  -- A pool survives any change of memory that spares the first words of its pages.
  pub IsPool-mem :
      {s : Pmm} {xs : List ℕ} (m : Words)
      → All (λ x. m (virt hhdm x) ≡ s.mem (virt hhdm x)) xs
      → IsPool s xs
      → IsPool (record s { mem = m }) xs
  IsPool-mem {s} {xs} m same pool = record {
    bottom = pool.bottom;
    chain = Chain-frame s.mem m s.free_list xs pool.bottom same pool.chain;
    count = pool.count;
    distinct = pool.distinct;
    in_range = pool.in_range;
    few = pool.few;
    unlocked = pool.unlocked;
  }

  virt-ne : (x y : ℕ) → InRange x → InRange y → x ≢ y → virt hhdm x ≢ virt hhdm y
  virt-ne x y hx hy ne = omega arith

  spared :
      (m : Words) (v addr : ℕ) (xs : List ℕ)
      → InRange addr
      → All InRange xs
      → All (λ y. y ≢ addr) xs
      → All (λ x. put_word m (virt hhdm addr) v (virt hhdm x) ≡ m (virt hhdm x)) xs
  spared m v addr [] h r out = tt
  spared m v addr (x ∷ xs) h r out =
      (ground (arith, virt-ne x addr r.0 h out.0), spared m v addr xs h r.1 out.1)

  -- `pmm_free` of a page that is not in the pool puts it on top, and writes only its first word.
  pub pmm_free-IsPool :
      {s : Pmm} {xs : List ℕ} (addr : ℕ)
      → IsPool s xs
      → InRange addr
      → All (λ y. y ≢ addr) xs
      → length xs + 1 < 2 ^ 64
      → (s' : Pmm) × (pmm_free hhdm addr s ≡ done s')
        × IsPool s' (addr ∷ xs)
        × (s'.mem ≡ put_word s.mem (virt hhdm addr) s.free_list)
        × (s'.page_count ≡ s.page_count)
  unfolding pmm_free
  pmm_free-IsPool {s} {xs} addr pool r out few = (
    record s {
      mem = put_word s.mem (virt hhdm addr) s.free_list;
      free_list = virt hhdm addr;
      free_page_count = (s.free_page_count + 1) % 2 ^ 64;
      locked = false;
    },
    rw pool.unlocked,
    record {
      bottom = pool.bottom;
      chain = (
        refl,
        Chain-frame s.mem _ _ xs pool.bottom (spared s.mem s.free_list addr xs r pool.in_range out)
            (rw top pool.chain),
      );
      count = omega (arith, pool.count);
      distinct = (out, pool.distinct);
      in_range = (r, pool.in_range);
      few = omega arith;
      unlocked = refl;
    },
    refl,
    refl,
  )
    where
      top : put_word s.mem (virt hhdm addr) s.free_list (virt hhdm addr) ≡ s.free_list
      top = ground arith

  -- `pmm_alloc` hands out the page on top of a pool that is not empty, and writes nothing.
  pub pmm_alloc-IsPool :
      {s : Pmm} {x : ℕ} {xs : List ℕ}
      → IsPool s (x ∷ xs)
      → (s' : Pmm) × (pmm_alloc hhdm s ≡ done (x, s')) × IsPool s' xs × (s'.mem ≡ s.mem)
  unfolding pmm_alloc
  pmm_alloc-IsPool {s} {x} {xs} pool = (
    record s {
      free_list = s.mem s.free_list;
      free_page_count = s.free_page_count - 1;
      locked = false;
    },
    rw (pool.unlocked, some_free, page),
    record {
      bottom = pool.bottom;
      chain = pool.chain.1;
      count = omega (arith, pool.count);
      distinct = pool.distinct.1;
      in_range = pool.in_range.1;
      few = omega (arith, pool.few);
      unlocked = refl;
    },
    refl,
  )
    where
      some_free : (s.free_page_count == 0) ≡ false
      some_free = ground (arith, pool.count)

      page : phys hhdm s.free_list ≡ x
      page = omega (arith, pool.chain.0, pool.in_range.0)

  -- Freeing the page that was just handed out restores the pool.
  pub pmm_free-pmm_alloc :
      {s : Pmm} {x : ℕ} {xs : List ℕ}
      → IsPool s (x ∷ xs)
      → (s1 s2 : Pmm) × (pmm_alloc hhdm s ≡ done (x, s1))
        × (pmm_free hhdm x s1 ≡ done s2)
        × IsPool s1 xs
        × IsPool s2 (x ∷ xs)
  pmm_free-pmm_alloc {x} pool =
      let (s1, e1, p1, m1) = pmm_alloc-IsPool pool in
      let (s2, e2, p2, m2, c2) =
        pmm_free-IsPool x p1 pool.in_range.0 pool.distinct.0 (omega (arith, pool.few)) in
      (s1, s2, e1, e2, p1, p2)
