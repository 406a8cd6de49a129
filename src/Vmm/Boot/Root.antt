-- ===== src/Vmm/Boot/Root.antt =====
-- `vmm_init`: the new top-level table, and all that is mapped in it.
use lord.Prelude.{
  ℕ, suc, ◌+◌, ◌*◌, ◌/◌, ◌%◌, ◌^◌, ◌≤◌, ◌<◌, ◌≡◌, ◌≢◌, refl, ap, fun_ext, ◌∙◌, true, false, none,
  some, List, [], ◌∷◌, arith, ◌==◌, length, All, ℕ_discrete,
}
use lord.Kernel.{done}
use lord.Str.{Bytes}
use lord.Pmm.{Words, Pmm, virt, phys, pmm_alloc}
use lord.Pmm.Pool.{IsPool, IsPool-mem, pmm_alloc-IsPool}
use lord.Vmm.{Vmm, slot, present, zero_page}
use lord.Vmm.Tables.{IsPage, IsTables, IsMapped, virt-aligned, with_table}
use lord.Vmm.Translate.{walk_at, walk_slot, step}
use lord.Vmm.Space.{translate, translate-none}
use lord.Vmm.Boot.{align_down, align_up, KernelAddress, BootInfo, Space, vmm_init}
use lord.Vmm.Boot.Requests.{Request, requested, boot_requests, root_table, vmm_init-map_requests}
use lord.Vmm.Boot.Reached.{regions, map_requests-Reached}

module _ (hhdm : ℕ) (hal : hhdm % 4096 ≡ 0) {x : ℕ} (p : IsPage hhdm x) where
  abbrev root : ℕ
  root = virt hhdm x

  abbrev pub new_root : ℕ → ℕ
  new_root = with_table hhdm (λ t. 0) root 4

  zero_outside :
      (m : Words) (y : ℕ) → IsPage hhdm y → y ≢ x → zero_page m root (virt hhdm y) ≡ m (virt hhdm y)
  unfolding zero_page
  zero_outside m y q ne =
      let far : virt hhdm y ≢ root = omega (arith, ne, p.mapped, q.mapped) in
      ground (arith, virt-aligned hhdm hal p, virt-aligned hhdm hal q, far)

  zero_inside : (m : Words) (o : ℕ) → o < 512 → zero_page m root (slot root o) ≡ 0
  unfolding zero_page
  zero_inside m o h = ground (arith, h)

  spare_words :
      (m : Words) (xs : List ℕ)
      → All (IsPage hhdm) xs
      → All (λ y. y ≢ x) xs
      → All (λ y. zero_page m root (virt hhdm y) ≡ m (virt hhdm y)) xs
  spare_words m [] pages out = tt
  spare_words m (y ∷ ys) pages out =
      (zero_outside m y pages.0 out.0, spare_words m ys pages.1 out.1)

  spare_levels :
      (xs : List ℕ)
      → All (IsPage hhdm) xs
      → All (λ y. y ≢ x) xs
      → All (λ y. IsPage hhdm y × (new_root (virt hhdm y) ≡ 0)) xs
  spare_levels [] pages out = tt
  spare_levels (y ∷ ys) pages out =
      let q : IsPage hhdm y = pages.0 in
      let other : (virt hhdm y == root) ≡ false = ground (arith, out.0, p.mapped, q.mapped) in
      ((q, rw other refl), spare_levels ys pages.1 out.1)

  only_root : (t k : ℕ) → new_root t ≡ suc k → t ≡ root
  only_root t k h = ground arith

  zero-IsTables : (m : Words) → IsTables hhdm new_root (zero_page m root)
  zero-IsTables m = record {
    null = ground (arith, p.nonnull, p.mapped);
    aligned = λ t h. elim (ℕ_discrete t root) [
      | yes e ↦ rw e (virt-aligned hhdm hal p)
      | no n ↦ absurd (h (ground (arith, n)))
    ];
    lower = λ t o k h ol here. absurd (none_there t o (only_root t _ h) ol here);
    place = λ t. 0;
    placed = λ t o k h ol here. absurd (none_there t o (only_root t _ h) ol here);
  }
    where
      none_there : (t o : ℕ) → t ≡ root → o < 512 → present (zero_page m root (slot t o)) ≡ true → ⊥
      none_there t o e ol here = let f : false ≡ true = rw (e, zero_inside m o ol) at here in cc f

  -- The allocator behind the allocation of the top-level table.
  pub root-IsMapped :
      {s : Pmm} {xs : List ℕ}
      → IsPool hhdm s (x ∷ xs)
      → All (IsPage hhdm) xs
      → (s1 : Pmm) × (pmm_alloc hhdm s ≡ done (x, s1))
        × IsMapped hhdm new_root (record s1 { mem = zero_page s1.mem root }) xs
  root-IsMapped {s} {xs} pool pages =
      let (s1, returns, pool1, same) = pmm_alloc-IsPool hhdm pool in
      (
        s1,
        returns,
        record {
          pool = IsPool-mem hhdm _ (spare_words s1.mem xs pages pool.distinct.0) pool1;
          pages = spare_levels xs pages pool.distinct.0;
          tables = zero-IsTables s1.mem;
        },
      )

  -- The address space of the kernel: what `vmm_init` leaves behind.
  pub record IsSpace (rs : List Request) (xs : List ℕ) (s : Space) : Type 0 where
    pub level : ℕ → ℕ
    pub rest : List ℕ
    pub top : s.kernel_page_map ≡ root
    pub loaded : s.cr3 ≡ x
    pub mapped : IsMapped hhdm level s.vmm.pmm rest
    pub top_level : level s.kernel_page_map ≡ 4
    pub unlocked : s.vmm.locked ≡ false
    pub maps :
        (va : ℕ)
        → translate hhdm s.vmm.pmm.mem s.kernel_page_map va ≡ requested rs (λ other. none) va
    pub cost : length xs ≤ length rest + 3 * regions (2 ^ 27) rs

  -- The empty top-level table translates nothing.
  zero-translate : (m : Words) (va : ℕ) → translate hhdm (zero_page m root) root va ≡ none
  unfolding walk_slot walk_at step
  zero-translate m va =
      let j : va / 2 ^ 39 % 512 < 512 = omega arith in
      let absent : present (zero_page m root (slot root (va / 2 ^ 39 % 512))) ≡ false =
        ap present (zero_inside m (va / 2 ^ 39 % 512) j) in
      translate-none hhdm _ root va (rw (walk_at, absent) refl)

  -- `vmm_init` returns, if the bootloader gives the address of the kernel, there is a root table, the
  -- lock is free, and the pool has one page and three more for each time that the pages to be mapped go
  -- on to another 2 MiB region; the pages of the pool are aligned, below 2^52 and not 0, and the direct
  -- map of memory is aligned and does not wrap. Then CR3 holds the page that was on top of the pool, in
  -- which is the top-level table; the invariant of tables and pool holds; and the processor translates
  -- exactly the pages that were to be mapped (usable memory, the framebuffer and reclaimable memory at
  -- their direct-map addresses, the sections of the kernel, the local APIC, the root table), each by
  -- the entry of the last request for it, and no other page.
  pub vmm_init-IsSpace :
      (m : Bytes) (b : BootInfo) (k : KernelAddress) (v : Vmm) {xs : List ℕ}
      → IsPool hhdm v.pmm (x ∷ xs)
      → All (IsPage hhdm) xs
      → v.locked ≡ false
      → b.kernel_address ≡ some k
      → root_table b.tables ≢ 0
      → 3 * regions (2 ^ 27) (boot_requests hhdm m b k) ≤ length xs
      → (s : Space) × (vmm_init hhdm m b v ≡ done s) × IsSpace (boot_requests hhdm m b k) xs s
  vmm_init-IsSpace m b k v {xs} pool pages free known table enough =
      let (s1, allocates, start) = root-IsMapped pool pages in
      let rs = boot_requests hhdm m b k in
      let top : new_root root ≡ 4 = ground arith in
      let r =
        map_requests-Reached hhdm hal root rs
          (record v { pmm = record s1 { mem = zero_page s1.mem root } }) (2 ^ 27) start top free
          (λ h. absurd (omega (arith, h))) enough in
      (
        record {
          vmm = r.after;
          kernel_page_map = root;
          kernel_start = align_down b.symbols.text_start_addr;
          kernel_end = align_up b.symbols.data_end_addr;
          cr3 = phys hhdm root;
        },
        vmm_init-map_requests hhdm m b k v known table ∙ rw (allocates, r.returns) refl,
        record {
          level = r.level';
          rest = r.rest;
          top = refl;
          loaded = omega (arith, p.physical, p.mapped);
          mapped = r.mapped;
          top_level = r.root_level;
          unlocked = r.unlocked;
          maps = λ va.
              r.maps va
              ∙ ap (λ f. requested rs f va) (fun_ext (λ other. zero-translate s1.mem other));
          cost = r.cost;
        },
      )
