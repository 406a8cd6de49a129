-- ===== src/Vmm/Boot.antt =====
-- src/mm/vmm.c: `vmm_init`, which builds the address space of the kernel.
pub mod Again
pub mod Reached
pub mod Requests
pub mod Root
mod Tests
use lord.Prelude.{
  ℕ, zero, suc, ◌+◌, ◌-◌, ◌*◌, ◌/◌, ◌%◌, ◌^◌, Option, none, some, List, [], ◌∷◌, bit_or, ◌==◌, ltb,
  if◌then◌else◌,
}
use lord.Kernel.{Outcome, done, fault, ◌>>=◌}
use lord.Str.{Bytes}
use lord.Acpi.{Tables, header_length}
use lord.Pmm.{Entry, usable, virt, phys, pmm_alloc}
use lord.Vmm.{Vmm, pte_bit_present, pte_bit_rw, pte_bit_nx, page_size, zero_page, vmm_map_page}

-- The other kinds of memory that `vmm_init` maps.
abbrev pub acpi_reclaimable : ℕ
acpi_reclaimable = 2

abbrev pub bootloader_reclaimable : ℕ
bootloader_reclaimable = 5

abbrev pub memmap_framebuffer : ℕ
memmap_framebuffer = 7

-- `ALIGN_DOWN(x, PAGE_SIZE)` and `ALIGN_UP(x, PAGE_SIZE)`
abbrev pub align_down : ℕ → ℕ
align_down x = x / page_size * page_size

abbrev pub align_up : ℕ → ℕ
align_up x = align_down ((x + (page_size - 1)) % 2 ^ 64)

-- Where the bootloader has put the kernel.
pub record KernelAddress : Type 0 where
  pub virtual_base : ℕ
  pub physical_base : ℕ

-- The addresses of the linker's symbols.
pub record Symbols : Type 0 where
  pub text_start_addr : ℕ
  pub text_end_addr : ℕ
  pub rodata_start_addr : ℕ
  pub rodata_end_addr : ℕ
  pub data_start_addr : ℕ
  pub data_end_addr : ℕ

-- What `vmm_init` reads; `kernel_address` is `none` for a null response.
pub record BootInfo : Type 0 where
  pub memmap : List Entry
  pub kernel_address : Option KernelAddress
  pub symbols : Symbols
  pub lapic_address : ℕ
  pub tables : Tables

-- The state behind `vmm_init`: its globals, and the address in CR3.
pub record Space : Type 0 where
  pub vmm : Vmm
  pub kernel_page_map : ℕ
  pub kernel_start : ℕ
  pub kernel_end : ℕ
  pub cr3 : ℕ

-- The rounds of a loop `j += PAGE_SIZE` below `length`, for a length of at most `2^64 - 4096`.
abbrev pub rounds : ℕ → ℕ
rounds length = (length + (page_size - 1)) / page_size

abbrev pub rw_flags : ℕ
rw_flags = bit_or pte_bit_present pte_bit_rw

abbrev pub rw_nx_flags : ℕ
rw_nx_flags = bit_or rw_flags pte_bit_nx

-- The flags of the pages of an entry of the memory map; `none` if it is not mapped.
abbrev pub entry_flags : (kind : ℕ) → Option ℕ
entry_flags kind =
    if kind == usable
    then some rw_flags
    else if kind == memmap_framebuffer
    then some rw_nx_flags
    else if kind == bootloader_reclaimable
    then some rw_flags
    else if kind == acpi_reclaimable
    then some rw_flags
    else none

module _ (hhdm : ℕ) where
  -- A loop of `vmm_init` that maps page `i` of a range of addresses to page `i` of a range of memory.
  pub map_range : (left i page_map va pa flags : ℕ) → Vmm → Outcome Vmm
  map_range zero i page_map va pa flags v = done v
  map_range (suc left) i page_map va pa flags v =
      vmm_map_page hhdm page_map ((va + i * page_size) % 2 ^ 64) ((pa + i * page_size) % 2 ^ 64)
        flags v
      >>= map_range left (i + 1) page_map va pa flags

  pub map_entry : (page_map : ℕ) → Entry → Vmm → Outcome Vmm
  unfolding map_range
  map_entry page_map e v = elim (entry_flags e.kind) [
    | none ↦ done v
    | some flags ↦ map_range (rounds e.len) 0 page_map (e.base + hhdm) e.base flags v
  ]

  pub map_memmap : (page_map : ℕ) → List Entry → Vmm → Outcome Vmm
  unfolding map_entry
  map_memmap page_map [] v = done v
  map_memmap page_map (e ∷ es) v = map_entry page_map e v >>= map_memmap page_map es

  -- The loop over a section of the kernel; it reads `kernel_address` in each round.
  pub map_section :
      (page_map : ℕ) → Option KernelAddress → (start end flags : ℕ) → Vmm → Outcome Vmm
  unfolding map_range
  map_section page_map none start end flags v = if ltb start end then fault else done v
  map_section page_map (some k) start end flags v =
      map_range (rounds (end - start)) 0 page_map start
        ((start + 2 ^ 64 - k.virtual_base + k.physical_base) % 2 ^ 64) flags v

  -- The pages of the RSDT or the XSDT at the address `table`.
  pub map_table : (m : Bytes) → (page_map table : ℕ) → Vmm → Outcome Vmm
  unfolding map_range
  map_table m page_map table v =
      map_range (header_length m table / page_size + 1) 0 page_map table (phys hhdm table)
        rw_nx_flags v

  pub map_tables : (m : Bytes) → (page_map : ℕ) → Tables → Vmm → Outcome Vmm
  unfolding map_table
  map_tables m page_map t v =
      if t.xsdt == 0
      then (if t.rsdt == 0 then fault else map_table m page_map t.rsdt v)
      else map_table m page_map t.xsdt v

  pub vmm_init : (m : Bytes) → BootInfo → Vmm → Outcome Space
  unfolding map_memmap map_section map_tables
  vmm_init m b v = pmm_alloc hhdm v.pmm >>= λ r.
      let kernel_page_map = virt hhdm r.0 in
      let text_start = align_down b.symbols.text_start_addr in
      let rodata_start = align_down b.symbols.rodata_start_addr in
      let data_start = align_down b.symbols.data_start_addr in
      let text_end = align_up b.symbols.text_end_addr in
      let rodata_end = align_up b.symbols.rodata_end_addr in
      let data_end = align_up b.symbols.data_end_addr in
      (map_memmap kernel_page_map b.memmap
          (record v { pmm = record r.1 { mem = zero_page r.1.mem kernel_page_map } })
        >>= map_section kernel_page_map b.kernel_address text_start text_end pte_bit_present
        >>= map_section kernel_page_map b.kernel_address rodata_start rodata_end
            (bit_or pte_bit_present pte_bit_nx)
        >>= map_section kernel_page_map b.kernel_address data_start data_end rw_nx_flags
        >>= vmm_map_page hhdm kernel_page_map b.lapic_address (phys hhdm b.lapic_address)
            rw_nx_flags
        >>= map_tables m kernel_page_map b.tables
        >>= λ v. done (record {
          vmm = v;
          kernel_page_map = kernel_page_map;
          kernel_start = text_start;
          kernel_end = data_end;
          cr3 = phys hhdm kernel_page_map;
        }))
