-- ===== src/Vmm/Tests.antt =====
-- A mapping in an empty address space, and instances of the theorems.
use lord.Prelude.{
  ℕ, none, some, suc, ◌%◌, ◌^◌, ◌<◌, ◌≡◌, refl, true, false, List, [], ◌∷◌, arith, ◌==◌,
  if◌then◌else◌, ◌≢◌,
}
use lord.Pmm.{Words, Pmm}
use lord.Pmm.Pool.{IsPool}
use lord.Pmm.Init.{boot}
use lord.Vmm.{Vmm, slot, present, vmm_map_page, vmm_free_page}
use lord.Vmm.Tables.{IsPage, IsTables, IsMapped}
use lord.Vmm.Lower.{Lowered, get_lower_table-Lowered}
use lord.Vmm.Translate.{walk}
use lord.Vmm.Unmap.{vmm_free_page-vmm_map_page}
use lord.Vmm.Space.{updated, translate}
use lord.Kernel.{done}

abbrev pub upper : ℕ
upper = 0x100_0000

-- The top-level table of the address space.
abbrev pub kernel_page_map : ℕ
kernel_page_map = 0x101_0000

abbrev pub spare : List ℕ
spare = 0x4000 ∷ 0x3000 ∷ 0x2000 ∷ []

-- The links between the spare pages.
abbrev pub links : Words
links a = if a == 0x100_4000 then 0x100_3000 else if a == 0x100_3000 then 0x100_2000 else 0

abbrev pub three_pages : Pmm
three_pages = record (boot links) { free_list = 0x100_4000; free_page_count = 3 }

abbrev pub only_root : ℕ → ℕ
only_root t = if t == kernel_page_map then 4 else 0

pub three_pages-IsPool : IsPool upper three_pages spare
three_pages-IsPool = record {
  bottom = 0;
  chain = (refl, (refl, (refl, refl)));
  count = refl;
  distinct = ((ground arith, (ground arith, tt)), ((ground arith, tt), (tt, tt)));
  in_range = (omega arith, (omega arith, (omega arith, tt)));
  few = omega arith;
  unlocked = refl;
}

pub some-IsPage : (x : ℕ) → 0 < x → x % 4096 ≡ 0 → x < 2 ^ 32 → IsPage upper x
some-IsPage x h al lt = record {
  nonnull = h;
  aligned = al;
  physical = omega arith;
  mapped = omega arith;
}

root_blank : (o : ℕ) → o < 512 → links (slot kernel_page_map o) ≡ 0
root_blank o h = ground arith

is_root : (t k : ℕ) → only_root t ≡ suc k → t ≡ kernel_page_map
is_root t k h = ground arith

none_lower : (o : ℕ) → o < 512 → present (links (slot kernel_page_map o)) ≢ true
none_lower o h here = let e : false ≡ true = rw (root_blank o h) at here in cc e

only_root-IsTables : IsTables upper only_root links
only_root-IsTables = record {
  null = refl;
  aligned = λ t h. ground arith;
  lower = λ t o k h ol here. absurd (none_lower o ol (rw (is_root t _ h) at here));
  place = λ t. 0;
  placed = λ t o k h ol here. absurd (none_lower o ol (rw (is_root t _ h) at here));
}

pub empty_space : IsMapped upper only_root three_pages spare
empty_space = record {
  pool = three_pages-IsPool;
  pages = (
    (some-IsPage 0x4000 (omega arith) refl (omega arith), refl),
    (
      (some-IsPage 0x3000 (omega arith) refl (omega arith), refl),
      ((some-IsPage 0x2000 (omega arith) refl (omega arith), refl), tt),
    ),
  );
  tables = only_root-IsTables;
}

abbrev pub space : Vmm
space = record { pmm = three_pages; locked = false }

get_lower_table-Lowered_example : Lowered upper only_root three_pages spare kernel_page_map 5 2
get_lower_table-Lowered_example =
    get_lower_table-Lowered upper refl refl (omega arith) empty_space (omega arith)

vmm_free_page-vmm_map_page_example :
    (v1 v2 : Vmm) × (level' : ℕ → ℕ) × (rest : List ℕ) × (vmm_map_page upper kernel_page_map
        0x40_1000 0x7000 3 space
      ≡ done v1)
    × (vmm_free_page upper kernel_page_map 0x40_1000 v1 ≡ done v2)
    × IsMapped upper level' v2.pmm (0x7000 ∷ rest)
    × (walk upper v2.pmm.mem kernel_page_map 0x40_1000 ≡ some 0)
    × ((other : ℕ)
        → translate upper v2.pmm.mem kernel_page_map other
          ≡ updated 0x40_1000 none (translate upper links kernel_page_map) other)
    × (v2.locked ≡ false)
vmm_free_page-vmm_map_page_example =
    vmm_free_page-vmm_map_page upper refl kernel_page_map 0x40_1000 0x7000 3 empty_space refl refl
      (omega arith) (omega arith) (some-IsPage 0x7000 (omega arith) refl (omega arith)) refl
      (omega arith, (omega arith, (omega arith, tt))) (omega arith)
