-- ===== src/Vmm/Allocate.antt =====
-- `kernel_allocate_memory` where the next pages of the pool stand one below the other.
mod Tests
use lord.Prelude.{
  ℕ, zero, suc, ◌+◌, ◌-◌, ◌*◌, ◌/◌, ◌%◌, ◌^◌, ◌≤◌, ◌<◌, ◌≡◌, refl, sym, ap, subst, ◌∙◌, fun_ext,
  false, Option, some, List, [], ◌∷◌, ◌++◌, arith, bit_or, ◌==◌, ltb, leb, ◌&&◌, if◌then◌else◌,
  ℕ_discrete,
}
use lord.Kernel.{done}
use lord.Pmm.{Words, Pmm, virt, pmm_alloc}
use lord.Pmm.Pool.{IsPool, pmm_alloc-IsPool}
use lord.Vmm.{Vmm, pte_bit_present, page_size, allocate_loop, kernel_allocate_memory}
use lord.Vmm.Tables.{IsTables, IsMapped}
use lord.Vmm.Translate.{walk_slot, walk_slot-Path4}
use lord.Vmm.Space.{held, updated, translate}
use lord.Vmm.Frame.{slot_stays}
use lord.Vmm.Walk.{Mapped}
use lord.Vmm.Ranges.{pages_behind, pages_behind_iff, range_updated}
use lord.Vmm.Boot.Again.{mapped_again}
use lord.Vmm.Boot.Requests.{Request, requested}

-- `n` pages down to the page `p`.
abbrev pub run_down : (n p : ℕ) → List ℕ
run_down zero p = []
run_down (suc n) p = (p + n * page_size) ∷ run_down n p

-- The page of the last round, `ret` if there is none.
abbrev last_of : (n ret p : ℕ) → ℕ
last_of zero ret p = ret
last_of (suc n) ret p = p

last_of_some : (n ret p : ℕ) → 0 < n → last_of n ret p ≡ p
last_of_some zero ret p h = absurd (omega arith)
last_of_some (suc n) ret p h = refl

choose_last :
    (g : ℕ → Option ℕ) (n d : ℕ) (x : Option ℕ)
    → (if leb 0 d && ltb d (0 + n) then g d else if d == n then g n else x)
      ≡ (if leb 0 d && ltb d (0 + suc n) then g d else x)
choose_last g n d x = elim (ℕ_discrete d n) [
  | yes e ↦ rw e (ground arith)
  | no ne ↦ ground (arith, ne)
]

-- A range grows by its next page.
range_updated-updated :
    (n va pa flags va' e : ℕ) (f : ℕ → Option ℕ) (other : ℕ)
    → n < 2 ^ 36
    → va' ≡ (va + n * page_size) % 2 ^ 64
    → e ≡ bit_or ((pa + n * page_size) % 2 ^ 64) flags
    → range_updated n 0 va pa flags (updated va' (held e) f) other
      ≡ range_updated (suc n) 0 va pa flags f other
range_updated-updated n va pa flags va' e f other h ea ee =
    rw (ea, ee, pages_behind_iff n va other h)
      (choose_last (λ d. held (bit_or ((pa + d * page_size) % 2 ^ 64) flags)) n
        (pages_behind va other) (f other))

module _ (hhdm : ℕ) where
  -- The last-level table of an address is there.
  abbrev pub HasTable : Words → (root va : ℕ) → Type 0
  HasTable m root va = (a : ℕ) × (walk_slot hhdm m root va ≡ some a)

  page_requests : (n p flags : ℕ) → List Request
  page_requests zero p flags = []
  page_requests (suc n) p flags =
      record {
        va = virt hhdm (p + n * page_size);
        pa = p + n * page_size;
        flags = bit_or pte_bit_present flags;
      }
      ∷ page_requests n p flags

  module _ (hal : hhdm % 4096 ≡ 0) (root p flags : ℕ) (rest : List ℕ) where
    record Allocated (n ret : ℕ) (v : Vmm) : Type 0 where
      after : Vmm
      level' : ℕ → ℕ
      returns : allocate_loop hhdm n root ret flags v ≡ done (virt hhdm (last_of n ret p), after)
      mapped : IsMapped hhdm level' after.pmm rest
      root_level : level' root ≡ 4
      unlocked : after.locked ≡ false
      maps :
          (other : ℕ)
          → translate hhdm after.pmm.mem root other
            ≡ requested (page_requests n p flags) (translate hhdm v.pmm.mem root) other
      stays : (va : ℕ) → HasTable v.pmm.mem root va → HasTable after.pmm.mem root va

    last_page : (n : ℕ) → last_of n (p + n * page_size) p ≡ p
    last_page zero = omega arith
    last_page (suc n) = refl

    -- The first page is taken off the pool and mapped, and `next` does the others.
    cons-Allocated :
        (n ret : ℕ) {level : ℕ → ℕ} (v : Vmm)
        → IsMapped hhdm level v.pmm (run_down (suc n) p ++ rest)
        → level root ≡ 4
        → v.locked ≡ false
        → ((i : ℕ) → i < suc n → HasTable v.pmm.mem root (virt hhdm (p + i * page_size)))
        → ((level' : ℕ → ℕ) (w : Vmm)
            → IsMapped hhdm level' w.pmm (run_down n p ++ rest)
            → level' root ≡ 4
            → w.locked ≡ false
            → ((i : ℕ) → i < n → HasTable w.pmm.mem root (virt hhdm (p + i * page_size)))
            → Allocated n (p + n * page_size) w)
        → Allocated (suc n) ret v
    unfolding allocate_loop requested page_requests
    cons-Allocated n ret {level} v is lr free tables next = record {
      after = t.after;
      level' = t.level';
      returns =
          rw (taken.1, given, again.0.returns)
            (t.returns ∙ ap (λ q. done (virt hhdm q, t.after)) (last_page n));
      mapped = t.mapped;
      root_level = t.root_level;
      unlocked = t.unlocked;
      maps = λ other.
          t.maps other ∙ ap (λ f. requested (page_requests n p flags) f other) (fun_ext before);
      stays = λ va h. t.stays va (again-HasTable va h);
    }
      where
        x : ℕ
        x = p + n * page_size

        given : (x == 0) ≡ false
        given = ground (arith, is.pages.0.0.nonnull)

        taken :
            (s1 : Pmm) × (pmm_alloc hhdm v.pmm ≡ done (x, s1))
            × IsPool hhdm s1 (run_down n p ++ rest)
            × (s1.mem ≡ v.pmm.mem)
        taken = pmm_alloc-IsPool hhdm is.pool

        v1 : Vmm
        v1 = record v { pmm = taken.0 }

        is1 : IsMapped hhdm level v1.pmm (run_down n p ++ rest)
        is1 = record {
          pool = taken.2;
          pages = is.pages.1;
          tables = subst (IsTables hhdm level) (sym taken.3) is.tables;
        }

        there : (va : ℕ) → HasTable v.pmm.mem root va → HasTable v1.pmm.mem root va
        there va (a, at) = (a, ap (λ m. walk_slot hhdm m root va) taken.3 ∙ at)

        again :
            (m : Mapped hhdm level root
              (virt hhdm x)
              x
              (bit_or pte_bit_present flags)
              v1
              (run_down n p ++ rest))
            × (m.rest ≡ run_down n p ++ rest)
        again =
            let (a, at) = there (virt hhdm x) (tables n (omega arith)) in
            mapped_again hhdm hal root (virt hhdm x) x _ is1 lr free
              (walk_slot-Path4 hhdm v1.pmm.mem root (virt hhdm x) a at)

        again-HasTable :
            (va : ℕ) → HasTable v.pmm.mem root va → HasTable again.0.after.pmm.mem root va
        again-HasTable va h =
            let (a, at) = there va h in (a, slot_stays hhdm again.0 va a is1 lr at)

        t : Allocated n x again.0.after
        t =
            next again.0.level' again.0.after
              (subst (IsMapped hhdm again.0.level' again.0.after.pmm) again.1 again.0.mapped)
              again.0.root_level again.0.unlocked (λ i h. again-HasTable _ (tables i (omega arith)))

        before :
            (other : ℕ)
            → translate hhdm again.0.after.pmm.mem root other
              ≡ updated
                  (virt hhdm x)
                  (held (bit_or x (bit_or pte_bit_present flags)))
                  (translate hhdm v.pmm.mem root)
                  other
        before other =
            again.0.maps other
            ∙ ap
                (λ m.
                  updated (virt hhdm x) (held (bit_or x (bit_or pte_bit_present flags)))
                    (translate hhdm m root) other)
                taken.3

    allocate_loop-Allocated :
        (n ret : ℕ) {level : ℕ → ℕ} (v : Vmm)
        → IsMapped hhdm level v.pmm (run_down n p ++ rest)
        → level root ≡ 4
        → v.locked ≡ false
        → ((i : ℕ) → i < n → HasTable v.pmm.mem root (virt hhdm (p + i * page_size)))
        → Allocated n ret v
    unfolding allocate_loop requested page_requests
    allocate_loop-Allocated zero ret {level} v is lr free tables = record {
      after = v;
      level' = level;
      returns = refl;
      mapped = is;
      root_level = lr;
      unlocked = free;
      maps = λ other. refl;
      stays = λ va h. h;
    }
    allocate_loop-Allocated (suc n) ret v is lr free tables =
        cons-Allocated n ret v is lr free tables (λ level' w is' lr' free' tables'.
          allocate_loop-Allocated n (p + n * page_size) {level = level'} w is' lr' free' tables')

  -- The pages of a run are those of a range.
  requested-page_requests :
      (n p flags : ℕ) (f : ℕ → Option ℕ) (other : ℕ)
      → n ≤ 2 ^ 36
      → p + n * page_size < 2 ^ 64
      → requested (page_requests n p flags) f other
        ≡ range_updated n 0 (p + hhdm) p (bit_or pte_bit_present flags) f other
  unfolding requested page_requests
  requested-page_requests zero p flags f other h l = ground arith
  requested-page_requests (suc n) p flags f other h l =
      requested-page_requests n p flags _ other (omega arith) (omega arith)
      ∙ range_updated-updated n (p + hhdm) p _ _ _ f other (omega arith) (omega arith)
          (ap (λ w. bit_or w (bit_or pte_bit_present flags)) (omega arith))

  -- `kernel_allocate_memory` of some bytes, at most 2^36 pages of them, with the lock free and a
  -- top-level table, where the pages on top of the pool stand one below the other down to the page `p`,
  -- and the last-level tables of their direct-map addresses are there: it returns the direct-map
  -- address of the lowest page, with the lock free; the pages from there on are translated to the
  -- pages taken, in the same order, with the given flags, and every other page as before; exactly
  -- these pages are off the pool, the last-level tables that there were stay, and the invariant of
  -- tables and pool holds.
  pub kernel_allocate_memory-updates :
      (hal : hhdm % 4096 ≡ 0) {level : ℕ → ℕ} (v : Vmm) (rest : List ℕ) (root p size flags : ℕ)
      → 0 < size
      → (size + (page_size - 1)) / page_size ≤ 2 ^ 36
      → p + (size + (page_size - 1)) / page_size * page_size < 2 ^ 64
      → IsMapped hhdm level v.pmm (run_down ((size + (page_size - 1)) / page_size) p ++ rest)
      → level root ≡ 4
      → v.locked ≡ false
      → ((i : ℕ)
          → i < (size + (page_size - 1)) / page_size
          → HasTable v.pmm.mem root (virt hhdm (p + i * page_size)))
      → (after : Vmm) × (level' : ℕ → ℕ) × (kernel_allocate_memory hhdm root size flags v
          ≡ done (virt hhdm p, after))
        × IsMapped hhdm level' after.pmm rest
        × (level' root ≡ 4)
        × (after.locked ≡ false)
        × ((va : ℕ) → HasTable v.pmm.mem root va → HasTable after.pmm.mem root va)
        × ((other : ℕ)
            → translate hhdm after.pmm.mem root other
              ≡ range_updated
                  ((size + (page_size - 1)) / page_size)
                  0
                  (p + hhdm)
                  p
                  (bit_or pte_bit_present flags)
                  (translate hhdm v.pmm.mem root)
                  other)
  unfolding kernel_allocate_memory
  kernel_allocate_memory-updates hal v rest root p size flags some_bytes few fits is lr free
        tables =
      let n : ℕ = (size + (page_size - 1)) / page_size in
      let t = allocate_loop-Allocated hal root p flags rest n 0 v is lr free tables in
      let given : (size == 0) ≡ false = ground (arith, some_bytes) in
      (
        t.after,
        t.level',
        rw given
            (t.returns ∙ ap (λ q. done (virt hhdm q, t.after)) (last_of_some n 0 p (omega arith))),
        t.mapped,
        t.root_level,
        t.unlocked,
        t.stays,
        λ other. t.maps other ∙ requested-page_requests n p flags _ other few fits,
      )
