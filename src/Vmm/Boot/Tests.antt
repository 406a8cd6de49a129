-- ===== src/Vmm/Boot/Tests.antt =====
-- A machine with 16 usable pages and a kernel of one page: `pmm_init`, and then `vmm_init`.
use lord.Prelude.{
  ℕ, suc, ◌*◌, ◌^◌, ◌≤◌, ◌<◌, ◌≡◌, refl, true, false, some, List, [], ◌∷◌, arith, length, All,
}
use lord.Kernel.{done}
use lord.Str.{Bytes}
use lord.Pmm.{Pmm, Entry, pmm_init}
use lord.Pmm.Pool.{IsPool}
use lord.Pmm.Init.{boot, freed_pages, pushed, entry_pages, IsFresh, pmm_init-IsPool}
use lord.Vmm.{Vmm}
use lord.Vmm.Tables.{IsPage}
use lord.Vmm.Tests.{upper, some-IsPage}
use lord.Vmm.Boot.{KernelAddress, BootInfo, Space, vmm_init}
use lord.Vmm.Boot.Reached.{regions}
use lord.Vmm.Boot.Requests.{
  boot_requests, memmap_requests, entry_requests, section_requests, range_requests,
}
use lord.Vmm.Boot.Root.{IsSpace, vmm_init-IsSpace}

abbrev memory_map : List Entry
memory_map = record { base = 0x1000; len = 0x1_0000; kind = 0 } ∷ []

abbrev behind_first : List ℕ
behind_first =
    0xf000 ∷ 0xe000 ∷ 0xd000 ∷ 0xc000 ∷ 0xb000 ∷ 0xa000 ∷ 0x9000 ∷ 0x8000 ∷ 0x7000 ∷ 0x6000 ∷ 0x5000
    ∷ 0x4000 ∷ 0x3000 ∷ 0x2000 ∷ []

fresh : IsFresh upper (freed_pages true memory_map [])
unfolding freed_pages entry_pages pushed
fresh = record { distinct = omega arith; in_range = omega arith; few = omega arith }

started :
    (s : Pmm) × (pmm_init upper (some memory_map) (boot (λ a. 0)) ≡ done s)
    × IsPool upper s (0x1_0000 ∷ behind_first)
unfolding freed_pages entry_pages pushed
started = let r = pmm_init-IsPool upper memory_map (λ a. 0) fresh in (r.0, r.1, r.2)

low_page : (i : ℕ) → i < 32 → IsPage upper (suc i * 4096)
low_page i h = some-IsPage (suc i * 4096) (omega arith) (omega arith) (omega arith)

behind_first-IsPage : All (IsPage upper) behind_first
behind_first-IsPage = (
  low_page 14 (omega arith),
  (
    low_page 13 (omega arith),
    (
      low_page 12 (omega arith),
      (
        low_page 11 (omega arith),
        (
          low_page 10 (omega arith),
          (
            low_page 9 (omega arith),
            (
              low_page 8 (omega arith),
              (
                low_page 7 (omega arith),
                (
                  low_page 6 (omega arith),
                  (
                    low_page 5 (omega arith),
                    (
                      low_page 4 (omega arith),
                      (
                        low_page 3 (omega arith),
                        (low_page 2 (omega arith), (low_page 1 (omega arith), tt)),
                      ),
                    ),
                  ),
                ),
              ),
            ),
          ),
        ),
      ),
    ),
  ),
)

abbrev kernel : KernelAddress
kernel = record { virtual_base = 0xffff_ffff_8000_0000; physical_base = 0x20_0000 }

abbrev boot_info : BootInfo
boot_info = record {
  memmap = memory_map;
  kernel_address = some kernel;
  symbols = record {
    text_start_addr = 0xffff_ffff_8000_0000;
    text_end_addr = 0xffff_ffff_8000_0100;
    rodata_start_addr = 0xffff_ffff_8000_1000;
    rodata_end_addr = 0xffff_ffff_8000_1000;
    data_start_addr = 0xffff_ffff_8000_1000;
    data_end_addr = 0xffff_ffff_8000_1000;
  };
  lapic_address = 0xffe0_0000;
  tables = record { xsdt = 0x110_0000; rsdt = 0; madt = 0x110_1000 };
}

abbrev no_bytes : Bytes
no_bytes a = 0

abbrev before : Vmm
before = record { pmm = started.0; locked = false }

enough : 3 * regions (2 ^ 27) (boot_requests upper no_bytes boot_info kernel) ≤ length behind_first
unfolding regions boot_requests memmap_requests entry_requests section_requests range_requests
enough = omega arith

vmm_init-IsSpace_example :
    (s : Space) × (vmm_init upper no_bytes boot_info before ≡ done s)
    × IsSpace upper refl
        (low_page 15 (omega arith))
        (boot_requests upper no_bytes boot_info kernel)
        behind_first
        s
vmm_init-IsSpace_example =
    vmm_init-IsSpace upper refl (low_page 15 (omega arith)) no_bytes boot_info kernel before
      started.2 behind_first-IsPage refl refl (omega arith) enough
