-- ===== src/Vmm/Ranges.antt =====
-- `kernel_map_pages` as an update of the address space by a whole range.
mod Tests
use lord.Prelude.{
  ℕ, zero, suc, ◌+◌, ◌-◌, ◌*◌, ◌/◌, ◌%◌, ◌^◌, ◌≤◌, ◌<◌, ◌≡◌, refl, ap, ◌∙◌, fun_ext, false, Option,
  List, arith, bit_or, ◌==◌, ltb, leb, ◌&&◌, if◌then◌else◌, length, ℕ_discrete,
}
use lord.Kernel.{Outcome, done, ◌>>=◌}
use lord.Vmm.{Vmm, pte_bit_present, page_size, vmm_map_page, kernel_map_pages, map_pages_loop}
use lord.Vmm.Tables.{IsMapped}
use lord.Vmm.Space.{page_of, held, updated, translate}
use lord.Vmm.Boot.Requests.{range_requests, requested, map_requests}
use lord.Vmm.Boot.Reached.{regions, map_requests-Reached}

-- How many pages an address is behind another, around the addresses that four levels translate.
abbrev pub pages_behind : (va other : ℕ) → ℕ
pages_behind va other = (page_of other + (2 ^ 36 - page_of va)) % 2 ^ 36

-- The partial map with the pages `i` to `i + left` of a range of addresses on those of a range of
-- memory.
abbrev pub range_updated : (left i va pa flags : ℕ) → (ℕ → Option ℕ) → ℕ → Option ℕ
range_updated left i va pa flags f other =
    if leb i (pages_behind va other) && ltb (pages_behind va other) (i + left)
    then held (bit_or ((pa + pages_behind va other * page_size) % 2 ^ 64) flags)
    else f other

pub pages_behind_iff :
    (i va other : ℕ)
    → i < 2 ^ 36
    → (page_of other == page_of ((va + i * page_size) % 2 ^ 64)) ≡ (pages_behind va other == i)
pages_behind_iff i va other h = ground arith

choose_first :
    (g : ℕ → Option ℕ) (left i d : ℕ) (x : Option ℕ)
    → (if leb (i + 1) d && ltb d (i + 1 + left) then g d else if d == i then g i else x)
      ≡ (if leb i d && ltb d (i + suc left) then g d else x)
choose_first g left i d x = elim (ℕ_discrete d i) [
  | yes e ↦ rw e (ground arith)
  | no ne ↦ ground (arith, ne)
]

-- In a range of at most 2^36 pages no page is mapped twice.
requested-range_requests :
    (left i va pa flags : ℕ) (f : ℕ → Option ℕ) (other : ℕ)
    → i + left ≤ 2 ^ 36
    → requested (range_requests left i va pa flags) f other
      ≡ range_updated left i va pa flags f other
unfolding requested range_requests
requested-range_requests zero i va pa flags f other h = ground arith
requested-range_requests (suc left) i va pa flags f other h =
    requested-range_requests left (i + 1) va pa flags _ other (omega arith)
    ∙ (rw (pages_behind_iff i va other (omega arith)) (
        choose_first (λ d. held (bit_or ((pa + d * page_size) % 2 ^ 64) flags)) left i
          (pages_behind va other) (f other)))

map_pages_loop-map_requests :
    (hhdm left i root pa flags : ℕ) (v : Vmm)
    → map_pages_loop hhdm left i root pa flags v
      ≡ map_requests hhdm root
          (range_requests left i (pa + hhdm) pa (bit_or pte_bit_present flags))
          v
unfolding map_pages_loop map_requests range_requests
map_pages_loop-map_requests hhdm zero i root pa flags v = refl
map_pages_loop-map_requests hhdm (suc left) i root pa flags v =
    ap
      (λ f.
        vmm_map_page hhdm root ((pa + hhdm + i * page_size) % 2 ^ 64)
          ((pa + i * page_size) % 2 ^ 64) (bit_or pte_bit_present flags) v
        >>= f)
      (fun_ext (λ w. map_pages_loop-map_requests hhdm left (i + 1) root pa flags w))

module _ (hhdm : ℕ) (hal : hhdm % 4096 ≡ 0) where
  kernel_map_pages-map_requests :
      (root pa size flags : ℕ) (v : Vmm)
      → kernel_map_pages hhdm root pa size flags v
        ≡ map_requests hhdm root
            (range_requests size 0 (pa + hhdm) pa (bit_or pte_bit_present flags))
            v
  unfolding kernel_map_pages
  kernel_map_pages-map_requests root pa size flags v =
      map_pages_loop-map_requests hhdm size 0 root pa flags v

  -- `kernel_map_pages` of at most 2^36 pages, with a free lock, a top-level table, and three pages in
  -- the pool for each time that the pages go on to another 2 MiB region, returns with the lock free; it
  -- is an update of the partial map by which the processor translates: page `d` of the range at the
  -- direct-map address of `phys_addr` is translated by an entry of page `d` of the memory at
  -- `phys_addr`, present and with the given flags, and every other page as before. The invariant of
  -- tables and pool holds.
  pub kernel_map_pages-updates :
      {level : ℕ → ℕ} (v : Vmm) {xs : List ℕ} (root phys_addr size flags : ℕ)
      → IsMapped hhdm level v.pmm xs
      → level root ≡ 4
      → v.locked ≡ false
      → size ≤ 2 ^ 36
      → 3
          * regions
              (2 ^ 27)
              (range_requests size 0 (phys_addr + hhdm) phys_addr (bit_or pte_bit_present flags))
        ≤ length xs
      → (after : Vmm) × (level' : ℕ → ℕ) × (rest : List ℕ) × (kernel_map_pages hhdm root phys_addr
            size flags v
          ≡ done after)
        × IsMapped hhdm level' after.pmm rest
        × (level' root ≡ 4)
        × (after.locked ≡ false)
        × ((other : ℕ)
            → translate hhdm after.pmm.mem root other
              ≡ range_updated size 0
                  (phys_addr + hhdm)
                  phys_addr
                  (bit_or pte_bit_present flags)
                  (translate hhdm v.pmm.mem root)
                  other)
  kernel_map_pages-updates v root phys_addr size flags is lr free few enough =
      let r =
        map_requests-Reached hhdm hal root
          (range_requests size 0 (phys_addr + hhdm) phys_addr (bit_or pte_bit_present flags)) v
          (2 ^ 27) is lr free (λ h. absurd (omega (arith, h))) enough in
      (
        r.after,
        r.level',
        r.rest,
        kernel_map_pages-map_requests root phys_addr size flags v ∙ r.returns,
        r.mapped,
        r.root_level,
        r.unlocked,
        λ other.
            r.maps other
            ∙ requested-range_requests size 0 (phys_addr + hhdm) phys_addr _ _ other (omega arith),
      )
