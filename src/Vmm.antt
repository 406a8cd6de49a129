-- ===== src/Vmm.antt =====
-- src/mm/vmm.c: four levels of page tables in the memory of the page allocator.
pub mod Allocate
pub mod Boot
pub mod Frame
pub mod Linked
pub mod Lower
pub mod Ranges
pub mod Space
pub mod Tables
pub mod Translate
pub mod Unmap
pub mod Walk
pub mod Tests
use lord.Prelude.{
  ℕ, zero, suc, ◌+◌, ◌-◌, ◌*◌, ◌/◌, ◌%◌, ◌^◌, ◌≡◌, Bool, true, false, not, Option, none, some,
  bit_and, bit_or, ◌==◌, leb, ltb, if◌then◌else◌, ◌&&◌,
}
use lord.Bits.{shr}
use lord.Kernel.{Outcome, done, killed, hangs, fault, ◌>>=◌}
use lord.Pmm.{Words, put_word, Pmm, virt, pmm_free, pmm_alloc}

abbrev pub pte_bit_present : ℕ
pte_bit_present = 0x1

abbrev pub pte_bit_rw : ℕ
pte_bit_rw = 0x2

abbrev pub pte_bit_us : ℕ
pte_bit_us = 0x4

abbrev pub pte_bit_nx : ℕ
pte_bit_nx = 0x4000_0000_0000_0000

abbrev pub page_size : ℕ
page_size = 4096

-- The bits of an entry that hold a physical address.
abbrev pub address_mask : ℕ
address_mask = 0x000f_ffff_ffff_f000

-- The address of `page_map[offset]`.
abbrev pub slot : ℕ → ℕ → ℕ
slot page_map offset = page_map + 8 * offset

abbrev pub present : ℕ → Bool
present entry = not (bit_and entry pte_bit_present == 0)

-- `memset(page, 0, PAGE_SIZE)`, word by word.
pub zero_page : Words → ℕ → Words
zero_page m page a = if leb page a && ltb a (page + page_size) then 0 else m a

abbrev pub pml4_offset : ℕ → ℕ
pml4_offset va = bit_and (shr va 39) 0x1ff

abbrev pub pdp_offset : ℕ → ℕ
pdp_offset va = bit_and (shr va 30) 0x1ff

abbrev pub pd_offset : ℕ → ℕ
pd_offset va = bit_and (shr va 21) 0x1ff

abbrev pub pt_offset : ℕ → ℕ
pt_offset va = bit_and (shr va 12) 0x1ff

-- The allocator, and `page_table_lock`.
pub record Vmm : Type 0 where
  pub pmm : Pmm
  pub locked : Bool

-- The entry that `get_lower_table` writes for a new table.
abbrev pub new_entry : ℕ → ℕ
new_entry ret = bit_or (bit_or (bit_or ret pte_bit_present) pte_bit_rw) pte_bit_us

module _ (hhdm : ℕ) where
  -- The table that an entry points to.
  abbrev pub table_of : ℕ → ℕ
  table_of entry = virt hhdm (bit_and entry address_mask)

  unfoldable pub get_lower_table : (page_map offset : ℕ) → Pmm → Outcome (ℕ × Pmm)
  unfolding zero_page
  get_lower_table page_map offset s =
      if present (s.mem (slot page_map offset))
      then done (table_of (s.mem (slot page_map offset)), s)
      else pmm_alloc hhdm s >>= λ r.
          if r.0 == 0
          then done (0, r.1)
          else done (
            virt hhdm r.0,
            record r.1 {
              mem =
                  put_word (zero_page r.1.mem (virt hhdm r.0)) (slot page_map offset)
                    (new_entry r.0);
            },
          )

  -- `get_lower_table`, and `kkill` on a null pointer.
  pub descend : (page_map offset : ℕ) → Pmm → Outcome (ℕ × Pmm)
  descend page_map offset s =
      get_lower_table page_map offset s >>= λ r. if r.0 == 0 then killed else done r

  -- The walk of `vmm_map_page` and `vmm_free_page` to the last table.
  unfoldable pub descend_to_pt : (page_map virt_addr : ℕ) → Pmm → Outcome (ℕ × Pmm)
  unfolding descend
  descend_to_pt page_map virt_addr s = descend page_map (pml4_offset virt_addr) s >>= λ r3.
      (descend r3.0 (pdp_offset virt_addr) r3.1 >>= λ r2. descend r2.0 (pd_offset virt_addr) r2.1)

  -- Reloading CR3 is not modelled.
  unfoldable pub vmm_map_page : (page_map virt_addr phys_addr flags : ℕ) → Vmm → Outcome Vmm
  vmm_map_page page_map virt_addr phys_addr flags v =
      if v.locked
      then hangs
      else descend_to_pt page_map virt_addr v.pmm >>= λ r. done (record {
        pmm = record r.1 {
          mem = put_word r.1.mem (slot r.0 (pt_offset virt_addr)) (bit_or phys_addr flags);
        };
        locked = false;
      })

  -- `vmm_free_page` does not take the lock.
  pub vmm_free_page : (page_map virt_addr : ℕ) → Vmm → Outcome Vmm
  vmm_free_page page_map virt_addr v = descend_to_pt page_map virt_addr v.pmm >>= λ r.
      let entry = slot r.0 (pt_offset virt_addr) in
      (pmm_free hhdm (bit_and (r.1.mem entry) address_mask) r.1 >>= λ s.
      done (record v { pmm = record s { mem = put_word s.mem entry 0 } }))

  -- `for(i = 0; i < size; i++)` of `vmm_map_continous_pages`: every page gets the same `phys_addr`.
  pub map_continous_loop : (left i page_map virt_addr phys_addr flags : ℕ) → Vmm → Outcome Vmm
  unfolding vmm_map_page
  map_continous_loop zero i page_map virt_addr phys_addr flags v = done v
  map_continous_loop (suc left) i page_map virt_addr phys_addr flags v =
      vmm_map_page page_map ((virt_addr + i * page_size) % 2 ^ 64) phys_addr flags v
      >>= map_continous_loop left (i + 1) page_map virt_addr phys_addr flags

  pub vmm_map_continous_pages :
      (page_map virt_addr phys_addr size flags : ℕ) → Vmm → Outcome (ℕ × Vmm)
  vmm_map_continous_pages page_map virt_addr phys_addr size flags v =
      map_continous_loop size 0 page_map virt_addr phys_addr flags v >>= λ v. done (0, v)

  -- The loop of `kernel_allocate_memory`; `ret` is the page of the last round, 0 for a null pointer.
  pub allocate_loop : (left kernel_page_map ret flags : ℕ) → Vmm → Outcome (ℕ × Vmm)
  unfolding vmm_map_page
  allocate_loop zero kernel_page_map ret flags v = done (virt hhdm ret, v)
  allocate_loop (suc left) kernel_page_map ret flags v = pmm_alloc hhdm v.pmm >>= λ r.
      if r.0 == 0
      then done (0, record v { pmm = r.1 })
      else (vmm_map_page kernel_page_map (virt hhdm r.0) r.0 (bit_or pte_bit_present flags)
            (record v { pmm = r.1 })
          >>= allocate_loop left kernel_page_map r.0 flags)

  -- A loop `i += PAGE_SIZE` below `size` has `(size + 4095) / 4096` rounds, for a `size` of at most
  -- `2^64 - 4096`.
  pub kernel_allocate_memory : (kernel_page_map size flags : ℕ) → Vmm → Outcome (ℕ × Vmm)
  kernel_allocate_memory kernel_page_map size flags v =
      if size == 0
      then done (0, v)
      else allocate_loop ((size + (page_size - 1)) / page_size) kernel_page_map 0 flags v

  unfoldable pub map_pages_loop : (left i kernel_page_map phys_addr flags : ℕ) → Vmm → Outcome Vmm
  unfolding vmm_map_page
  map_pages_loop zero i kernel_page_map phys_addr flags v = done v
  map_pages_loop (suc left) i kernel_page_map phys_addr flags v =
      vmm_map_page kernel_page_map ((phys_addr + hhdm + i * page_size) % 2 ^ 64)
        ((phys_addr + i * page_size) % 2 ^ 64) (bit_or pte_bit_present flags) v
      >>= map_pages_loop left (i + 1) kernel_page_map phys_addr flags

  unfoldable pub kernel_map_pages : (kernel_page_map phys_addr size flags : ℕ) → Vmm → Outcome Vmm
  kernel_map_pages kernel_page_map phys_addr size flags v =
      map_pages_loop size 0 kernel_page_map phys_addr flags v

  pub unmap_pages_loop : (left i kernel_page_map addr : ℕ) → Vmm → Outcome Vmm
  unfolding vmm_free_page
  unmap_pages_loop zero i kernel_page_map addr v = done v
  unmap_pages_loop (suc left) i kernel_page_map addr v =
      vmm_free_page kernel_page_map ((addr + i * page_size) % 2 ^ 64) v
      >>= unmap_pages_loop left (i + 1) kernel_page_map addr

  pub kernel_unmap_pages : (kernel_page_map addr size : ℕ) → Vmm → Outcome Vmm
  kernel_unmap_pages kernel_page_map addr size v = unmap_pages_loop size 0 kernel_page_map addr v
