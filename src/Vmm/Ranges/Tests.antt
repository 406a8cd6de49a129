-- ===== src/Vmm/Ranges/Tests.antt =====
-- Two pages of a device, in an empty address space with three pages left.
use lord.Prelude.{ℕ, ◌+◌, ◌*◌, ◌^◌, ◌≤◌, ◌≡◌, refl, false, List, arith, bit_or, length}
use lord.Kernel.{done}
use lord.Vmm.{Vmm, pte_bit_present, kernel_map_pages}
use lord.Vmm.Tables.{IsMapped}
use lord.Vmm.Space.{translate}
use lord.Vmm.Ranges.{range_updated, kernel_map_pages-updates}
use lord.Vmm.Boot.Requests.{range_requests}
use lord.Vmm.Boot.Reached.{regions}
use lord.Vmm.Tests.{upper, kernel_page_map, spare, links, empty_space, space}

enough :
    3 * regions (2 ^ 27) (range_requests 2 0 (0x7000 + upper) 0x7000 (bit_or pte_bit_present 2))
    ≤ length spare
unfolding regions range_requests
enough = omega arith

kernel_map_pages-updates_example :
    (after : Vmm) × (level' : ℕ → ℕ) × (rest : List ℕ) × (kernel_map_pages upper kernel_page_map
        0x7000 2 2 space
      ≡ done after)
    × IsMapped upper level' after.pmm rest
    × (level' kernel_page_map ≡ 4)
    × (after.locked ≡ false)
    × ((other : ℕ)
        → translate upper after.pmm.mem kernel_page_map other
          ≡ range_updated 2 0
              (0x7000 + upper)
              0x7000
              (bit_or pte_bit_present 2)
              (translate upper links kernel_page_map)
              other)
kernel_map_pages-updates_example =
    kernel_map_pages-updates upper refl space kernel_page_map 0x7000 2 2 empty_space refl refl
      (omega arith) enough
