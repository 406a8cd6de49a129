-- ===== src/Vmm/Allocate/Tests.antt =====
-- 5000 bytes, which take the pages 0x4000 and 0x3000.
use lord.Prelude.{ℕ, zero, suc, ◌+◌, ◌*◌, ◌<◌, ◌≡◌, refl, false, [], ◌∷◌, arith, bit_or}
use lord.Kernel.{done}
use lord.Pmm.{virt}
use lord.Vmm.{Vmm, slot, pte_bit_present, page_size, kernel_allocate_memory}
use lord.Vmm.Tables.{IsMapped}
use lord.Vmm.Translate.{walk_at, walk_slot, step}
use lord.Vmm.Space.{translate}
use lord.Vmm.Ranges.{range_updated}
use lord.Vmm.Allocate.{HasTable, kernel_allocate_memory-updates}
use lord.Vmm.Tests.{upper, kernel_page_map}
use lord.Vmm.Walk.Tests.{pt, occupied_words, occupied-IsMapped, occupied}

pages-HasTable :
    (i : ℕ)
    → i < 2
    → HasTable upper occupied_words kernel_page_map (virt upper (0x3000 + i * page_size))
unfolding walk_slot walk_at step
pages-HasTable zero h = (slot pt 3, refl)
pages-HasTable (suc zero) h = (slot pt 4, refl)
pages-HasTable (suc (suc i)) h = absurd (omega arith)

kernel_allocate_memory-updates_example :
    (after : Vmm) × (level' : ℕ → ℕ) × (kernel_allocate_memory upper kernel_page_map 5000 2 occupied
      ≡ done (0x100_3000, after))
    × IsMapped upper level' after.pmm (0x2000 ∷ [])
    × (level' kernel_page_map ≡ 4)
    × (after.locked ≡ false)
    × ((va : ℕ)
        → HasTable upper occupied_words kernel_page_map va
        → HasTable upper after.pmm.mem kernel_page_map va)
    × ((other : ℕ)
        → translate upper after.pmm.mem kernel_page_map other
          ≡ range_updated 2 0
              (0x3000 + upper)
              0x3000
              (bit_or pte_bit_present 2)
              (translate upper occupied_words kernel_page_map)
              other)
kernel_allocate_memory-updates_example =
    kernel_allocate_memory-updates upper refl occupied (0x2000 ∷ []) kernel_page_map 0x3000 5000 2
      (omega arith) (omega arith) (omega arith) occupied-IsMapped refl refl pages-HasTable
