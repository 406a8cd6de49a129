-- ===== src/Pmm/Tests.antt =====
-- Runs of the page allocator, and instances of its theorems.
use lord.Prelude.{ℕ, ◌≡◌, refl, true, some, List, [], ◌∷◌, arith, length}
use lord.Kernel.{done}
use lord.Pmm.{Words, Pmm, Entry, pmm_init}
use lord.Pmm.Pool.{IsPool}
use lord.Pmm.Init.{boot, freed_pages, pushed, entry_pages, IsFresh, pmm_init-IsPool}

abbrev upper : ℕ
upper = 0x100_0000

abbrev blank : Words
blank a = 0

abbrev emptied : Pmm
emptied = boot blank

-- The page 0x2000 is free.
abbrev one_page : Pmm
one_page = record emptied { free_list = 0x100_2000; free_page_count = 1 }

one_page-IsPool : IsPool upper one_page (0x2000 ∷ [])
one_page-IsPool = record {
  bottom = 0;
  chain = (refl, refl);
  count = refl;
  distinct = (tt, tt);
  in_range = (omega arith, tt);
  few = omega arith;
  unlocked = refl;
}

-- Two usable ranges around a reserved one.
abbrev memory_map : List Entry
memory_map =
    record { base = 0x1000; len = 0x3000; kind = 0 }
    ∷ record { base = 0x1_0000; len = 0x1000; kind = 1 }
    ∷ record { base = 0x2_0000; len = 0x2000; kind = 0 }
    ∷ []

abbrev free_at_boot : List ℕ
free_at_boot = 0x2_1000 ∷ 0x2_0000 ∷ 0x3000 ∷ 0x2000 ∷ []

pages_run : freed_pages true memory_map [] ≡ free_at_boot
unfolding freed_pages entry_pages pushed
pages_run = refl

fresh : IsFresh upper (freed_pages true memory_map [])
unfolding freed_pages entry_pages pushed
fresh = record {
  distinct = (
    (ground arith, (ground arith, (ground arith, tt))),
    ((ground arith, (ground arith, tt)), ((ground arith, tt), (tt, tt))),
  );
  in_range = (omega arith, (omega arith, (omega arith, (omega arith, tt))));
  few = omega arith;
}

pmm_init-IsPool_example :
    (s : Pmm) × (pmm_init upper (some memory_map) (boot blank) ≡ done s)
    × IsPool upper s (freed_pages true memory_map [])
    × (s.free_page_count ≡ length (freed_pages true memory_map []))
    × (s.page_count ≡ length (freed_pages true memory_map []))
pmm_init-IsPool_example = pmm_init-IsPool upper memory_map blank fresh
