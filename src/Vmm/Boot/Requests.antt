-- ===== src/Vmm/Boot/Requests.antt =====
-- The pages that `vmm_init` maps, in one list.
use lord.Prelude.{
  ℕ, zero, suc, ◌+◌, ◌-◌, ◌*◌, ◌/◌, ◌%◌, ◌^◌, ◌≡◌, ◌≢◌, refl, sym, ap, ◌∙◌, fun_ext, inl, inr,
  Bool-cases, false, Option, none, some, List, [], ◌∷◌, ◌++◌, arith, bit_or, ◌==◌, if◌then◌else◌,
}
use lord.Kernel.{Outcome, done, killed, hangs, fault, ◌>>=◌}
use lord.Str.{Bytes}
use lord.Acpi.{Tables, header_length}
use lord.Pmm.{Entry, virt, phys, pmm_alloc}
use lord.Vmm.{Vmm, pte_bit_present, pte_bit_nx, page_size, zero_page, vmm_map_page}
use lord.Vmm.Space.{held, updated}
use lord.Vmm.Boot.{
  KernelAddress, BootInfo, align_down, align_up, rounds, rw_nx_flags, entry_flags, map_range,
  map_entry, map_memmap, map_section, map_table, map_tables, vmm_init,
}

-- A page to be mapped.
pub record Request : Type 0 where
  pub va : ℕ
  pub pa : ℕ
  pub flags : ℕ

abbrev pub entry : Request → ℕ
entry r = bit_or r.pa r.flags

-- The partial map of pages to entries behind some requests in a row, given the map before them.
unfoldable pub requested : List Request → (ℕ → Option ℕ) → ℕ → Option ℕ
requested [] f = f
requested (r ∷ rs) f = requested rs (updated r.va (held (entry r)) f)

-- Page `i` of a range of addresses to page `i` of a range of memory.
unfoldable pub range_requests : (left i va pa flags : ℕ) → List Request
range_requests zero i va pa flags = []
range_requests (suc left) i va pa flags =
    record { va = (va + i * page_size) % 2 ^ 64; pa = (pa + i * page_size) % 2 ^ 64; flags = flags }
    ∷ range_requests left (i + 1) va pa flags

unfoldable pub entry_requests : (hhdm : ℕ) → Entry → List Request
entry_requests hhdm e = elim (entry_flags e.kind) [
  | none ↦ []
  | some flags ↦ range_requests (rounds e.len) 0 (e.base + hhdm) e.base flags
]

unfoldable pub memmap_requests : (hhdm : ℕ) → List Entry → List Request
memmap_requests hhdm [] = []
memmap_requests hhdm (e ∷ es) = entry_requests hhdm e ++ memmap_requests hhdm es

unfoldable pub section_requests : KernelAddress → (start end flags : ℕ) → List Request
section_requests k start end flags =
    range_requests (rounds (end - start)) 0 start
      ((start + 2 ^ 64 - k.virtual_base + k.physical_base) % 2 ^ 64) flags

-- The root table: the XSDT, or the RSDT where there is none.
abbrev pub root_table : Tables → ℕ
root_table t = if t.xsdt == 0 then t.rsdt else t.xsdt

unfoldable pub boot_requests : (hhdm : ℕ) → Bytes → BootInfo → KernelAddress → List Request
boot_requests hhdm m b k =
    memmap_requests hhdm b.memmap
    ++ (section_requests k (align_down b.symbols.text_start_addr) (align_up b.symbols.text_end_addr)
          pte_bit_present
        ++ (section_requests k (align_down b.symbols.rodata_start_addr)
              (align_up b.symbols.rodata_end_addr) (bit_or pte_bit_present pte_bit_nx)
            ++ (section_requests k (align_down b.symbols.data_start_addr)
                  (align_up b.symbols.data_end_addr) rw_nx_flags
                ++ (record {
                  va = b.lapic_address;
                  pa = phys hhdm b.lapic_address;
                  flags = rw_nx_flags;
                }
                    ∷ range_requests (header_length m (root_table b.tables) / page_size + 1) 0
                        (root_table b.tables) (phys hhdm (root_table b.tables)) rw_nx_flags))))

>>=_assoc :
    {A B C : Type 0} (x : Outcome A) (f : A → Outcome B) (g : B → Outcome C)
    → (x >>= f >>= g) ≡ (x >>= λ a. f a >>= g)
>>=_assoc (done a) f g = refl
>>=_assoc killed f g = refl
>>=_assoc hangs f g = refl
>>=_assoc fault f g = refl

>>=_done : {A : Type 0} (x : Outcome A) → (x >>= λ a. done a) ≡ x
>>=_done (done a) = refl
>>=_done killed = refl
>>=_done hangs = refl
>>=_done fault = refl

module _ (hhdm page_map : ℕ) where
  unfoldable pub map_requests : List Request → Vmm → Outcome Vmm
  map_requests [] v = done v
  map_requests (r ∷ rs) v = vmm_map_page hhdm page_map r.va r.pa r.flags v >>= map_requests rs

  map_requests-append :
      (rs ss : List Request) (v : Vmm)
      → map_requests (rs ++ ss) v ≡ (map_requests rs v >>= map_requests ss)
  unfolding map_requests
  map_requests-append [] ss v = refl
  map_requests-append (r ∷ rs) ss v =
      ap (λ f. vmm_map_page hhdm page_map r.va r.pa r.flags v >>= f)
        (fun_ext (λ w. map_requests-append rs ss w))
      ∙ sym (
          >>=_assoc (vmm_map_page hhdm page_map r.va r.pa r.flags v) (map_requests rs)
            (map_requests ss))

  map_range-map_requests :
      (left i va pa flags : ℕ) (v : Vmm)
      → map_range hhdm left i page_map va pa flags v
        ≡ map_requests (range_requests left i va pa flags) v
  unfolding map_range map_requests range_requests
  map_range-map_requests zero i va pa flags v = refl
  map_range-map_requests (suc left) i va pa flags v =
      ap
        (λ f.
          vmm_map_page hhdm page_map ((va + i * page_size) % 2 ^ 64) ((pa + i * page_size) % 2 ^ 64)
            flags v
          >>= f)
        (fun_ext (λ w. map_range-map_requests left (i + 1) va pa flags w))

  map_entry-map_requests :
      (e : Entry) (v : Vmm) → map_entry hhdm page_map e v ≡ map_requests (entry_requests hhdm e) v
  unfolding map_entry entry_requests map_requests
  map_entry-map_requests e v =
      elim (entry_flags e.kind)
        as (λ f.
          elim f as (λ x. Outcome Vmm) [
            | none ↦ done v
            | some flags ↦ map_range hhdm (rounds e.len) 0 page_map (e.base + hhdm) e.base flags v
          ]
          ≡ map_requests
              (elim f as (λ x. List Request) [
                | none ↦ []
                | some flags ↦ range_requests (rounds e.len) 0 (e.base + hhdm) e.base flags
              ])
              v) [
                | none ↦ refl
                | some flags ↦
                    map_range-map_requests (rounds e.len) 0 (e.base + hhdm) e.base flags v
              ]

  map_memmap-map_requests :
      (es : List Entry) (v : Vmm)
      → map_memmap hhdm page_map es v ≡ map_requests (memmap_requests hhdm es) v
  unfolding map_memmap memmap_requests map_requests
  map_memmap-map_requests [] v = refl
  map_memmap-map_requests (e ∷ es) v =
      ap (λ f. map_entry hhdm page_map e v >>= f) (fun_ext (λ w. map_memmap-map_requests es w))
      ∙ ap (λ x. x >>= map_requests (memmap_requests hhdm es)) (map_entry-map_requests e v)
      ∙ sym (map_requests-append (entry_requests hhdm e) (memmap_requests hhdm es) v)

  map_section-map_requests :
      (k : KernelAddress) (start end flags : ℕ) (v : Vmm)
      → map_section hhdm page_map (some k) start end flags v
        ≡ map_requests (section_requests k start end flags) v
  unfolding map_section section_requests
  map_section-map_requests k start end flags v =
      map_range-map_requests (rounds (end - start)) 0 start _ flags v

  map_tables-map_requests :
      (m : Bytes) (t : Tables) (v : Vmm)
      → root_table t ≢ 0
      → map_tables hhdm m page_map t v
        ≡ map_requests
            (range_requests
              (header_length m (root_table t) / page_size + 1)
              0
              (root_table t)
              (phys hhdm (root_table t))
              rw_nx_flags)
            v
  unfolding map_tables map_table
  map_tables-map_requests m t v h = elim (Bool-cases (t.xsdt == 0)) [
    | inl no_xsdt ↦
        let rsdt : (t.rsdt == 0) ≡ false = ground (arith, h) in
        rw (no_xsdt, rsdt)
          (map_range-map_requests (header_length m t.rsdt / page_size + 1) 0 t.rsdt _ rw_nx_flags v)
    | inr xsdt ↦
        rw xsdt
          (map_range-map_requests (header_length m t.xsdt / page_size + 1) 0 t.xsdt _ rw_nx_flags v)
  ]

  map_one :
      (r : Request) (v : Vmm)
      → vmm_map_page hhdm page_map r.va r.pa r.flags v ≡ map_requests (r ∷ []) v
  unfolding map_requests
  map_one r v = sym (>>=_done (vmm_map_page hhdm page_map r.va r.pa r.flags v))

  map_requests_join :
      (x : Outcome Vmm) (rs ss : List Request)
      → (x >>= map_requests rs >>= map_requests ss) ≡ (x >>= map_requests (rs ++ ss))
  map_requests_join x rs ss =
      >>=_assoc x (map_requests rs) (map_requests ss)
      ∙ ap (λ f. x >>= f) (fun_ext (λ v. sym (map_requests-append rs ss v)))

  chained :
      (x : Outcome Vmm) (f1 f2 f3 f4 f5 : Vmm → Outcome Vmm) (v : Vmm) (rs r1 r2 r3 : List Request)
      (r4 : Request) (r5 : List Request)
      → x ≡ map_requests rs v
      → ((w : Vmm) → f1 w ≡ map_requests r1 w)
      → ((w : Vmm) → f2 w ≡ map_requests r2 w)
      → ((w : Vmm) → f3 w ≡ map_requests r3 w)
      → ((w : Vmm) → f4 w ≡ map_requests (r4 ∷ []) w)
      → ((w : Vmm) → f5 w ≡ map_requests r5 w)
      → (x >>= f1 >>= f2 >>= f3 >>= f4 >>= f5)
        ≡ map_requests (rs ++ (r1 ++ (r2 ++ (r3 ++ r4 ∷ r5)))) v
  chained x f1 f2 f3 f4 f5 v rs r1 r2 r3 r4 r5 e e1 e2 e3 e4 e5 =
      rw (e, fun_ext e1, fun_ext e2, fun_ext e3, fun_ext e4, fun_ext e5)
        (map_requests_join
            (map_requests rs v >>= map_requests r1 >>= map_requests r2 >>= map_requests r3)
            (r4 ∷ []) r5
          ∙ map_requests_join (map_requests rs v >>= map_requests r1 >>= map_requests r2) r3
              (r4 ∷ r5)
          ∙ map_requests_join (map_requests rs v >>= map_requests r1) r2 (r3 ++ r4 ∷ r5)
          ∙ map_requests_join (map_requests rs v) r1 (r2 ++ (r3 ++ r4 ∷ r5))
          ∙ sym (map_requests-append rs (r1 ++ (r2 ++ (r3 ++ r4 ∷ r5))) v))

-- `vmm_init` maps the pages of `boot_requests`, in their order, in a new top-level table.
pub vmm_init-map_requests :
    (hhdm : ℕ) (m : Bytes) (b : BootInfo) (k : KernelAddress) (v : Vmm)
    → b.kernel_address ≡ some k
    → root_table b.tables ≢ 0
    → vmm_init hhdm m b v ≡ (
        pmm_alloc hhdm v.pmm >>= λ r.
        (map_requests hhdm
            (virt hhdm r.0)
            (boot_requests hhdm m b k)
            (record v { pmm = record r.1 { mem = zero_page r.1.mem (virt hhdm r.0) } })
          >>= λ w. done (record {
            vmm = w;
            kernel_page_map = virt hhdm r.0;
            kernel_start = align_down b.symbols.text_start_addr;
            kernel_end = align_up b.symbols.data_end_addr;
            cr3 = phys hhdm (virt hhdm r.0);
          })))
unfolding vmm_init boot_requests
vmm_init-map_requests hhdm m b k v known table =
    ap (λ f. pmm_alloc hhdm v.pmm >>= f)
      (fun_ext (λ r.
        let root = virt hhdm r.0 in
        let section = λ (start end flags : ℕ) (w : Vmm).
          ap (λ o. map_section hhdm root o start end flags w) known
          ∙ map_section-map_requests hhdm root k start end flags w in
        ap
          (λ x. x >>= λ w. done (record {
            vmm = w;
            kernel_page_map = root;
            kernel_start = align_down b.symbols.text_start_addr;
            kernel_end = align_up b.symbols.data_end_addr;
            cr3 = phys hhdm root;
          }))
          (chained hhdm root _ _ _ _ _ _ _ _ _ _ _ _ _
            (map_memmap-map_requests hhdm root b.memmap _) (section _ _ _) (section _ _ _)
            (section _ _ _)
            (map_one hhdm root (record {
              va = b.lapic_address;
              pa = phys hhdm b.lapic_address;
              flags = rw_nx_flags;
            }))
            (λ w. map_tables-map_requests hhdm root m b.tables w table))))
