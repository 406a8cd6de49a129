-- ===== src/Vmm/Boot/Reached.antt =====
-- The address space behind `vmm_init`.
use lord.Prelude.{
  ℕ, ◌+◌, ◌*◌, ◌%◌, ◌^◌, ◌≤◌, ◌<◌, ◌≡◌, refl, sym, ap, fun_ext, ◌∙◌, false, some, List, [], ◌∷◌,
  arith, ◌==◌, if◌then◌else◌, length, ℕ_discrete,
}
use lord.Kernel.{done}
use lord.Pmm.{Words}
use lord.Vmm.{Vmm}
use lord.Vmm.Tables.{IsMapped}
use lord.Vmm.Translate.{walk_slot, walk_slot-Path4}
use lord.Vmm.Walk.{Mapped, vmm_map_page-Mapped}
use lord.Vmm.Space.{translate}
use lord.Vmm.Boot.Again.{region, region-Path4, mapped_again}
use lord.Vmm.Boot.Requests.{Request, map_requests, requested}

-- How often the requests go on to another region: `prev` is the region before the first.
unfoldable pub regions : (prev : ℕ) → List Request → ℕ
regions prev [] = 0
regions prev (r ∷ rs) = (if region r.va == prev then 0 else 1) + regions (region r.va) rs

module _ (hhdm : ℕ) (hal : hhdm % 4096 ≡ 0) (root : ℕ) where
  -- The address space behind mappings in a row.
  pub record Reached (level : ℕ → ℕ) (prev : ℕ) (rs : List Request) (v : Vmm) (xs : List ℕ)
      : Type 0 where
    pub after : Vmm
    pub level' : ℕ → ℕ
    pub rest : List ℕ
    pub returns : map_requests hhdm root rs v ≡ done after
    pub mapped : IsMapped hhdm level' after.pmm rest
    pub root_level : level' root ≡ 4
    pub unlocked : after.locked ≡ false
    pub maps :
        (other : ℕ)
        → translate hhdm after.pmm.mem root other
          ≡ requested rs (translate hhdm v.pmm.mem root) other
    pub cost : length xs ≤ length rest + 3 * regions prev rs

  -- There is a last-level table of a region.
  abbrev IsOpen : (prev : ℕ) → Words → Type 0
  IsOpen prev m =
      (other : ℕ) × (a : ℕ) × (region other ≡ prev) × (walk_slot hhdm m root other ≡ some a)

  -- A mapping in the region before it takes no page of the pool, and any other at most three.
  one_more :
      (r : Request) {level : ℕ → ℕ} (v : Vmm) {xs : List ℕ} (prev : ℕ)
      → IsMapped hhdm level v.pmm xs
      → level root ≡ 4
      → v.locked ≡ false
      → (prev < 2 ^ 27 → IsOpen prev v.pmm.mem)
      → 3 * (if region r.va == prev then 0 else 1) ≤ length xs
      → (m : Mapped hhdm level root r.va r.pa r.flags v xs) × (length xs
          ≤ length m.rest + 3 * (if region r.va == prev then 0 else 1))
  one_more r v prev is lr free open_table enough = elim (ℕ_discrete (region r.va) prev) [
    | yes same ↦
        let (other, a, e, at) = open_table (omega (arith, same)) in
        let (m, rest) = mapped_again hhdm hal root r.va r.pa r.flags is lr free (
          region-Path4 hhdm r.va (same ∙ sym e) (walk_slot-Path4 hhdm v.pmm.mem root other a at)) in
        (m, omega (arith, ap (λ ys. length ys) rest))
    | no new ↦
        let f : (region r.va == prev) ≡ false = ground (arith, new) in
        let m : Mapped hhdm _ root r.va r.pa r.flags v _ =
          vmm_map_page-Mapped hhdm hal root r.va r.pa r.flags is lr free (rw f at enough) in
        (m, rw f m.cost)
  ]

  -- One mapping, and those behind it.
  cons-Reached :
      (r : Request) {rs : List Request} {level : ℕ → ℕ} {v : Vmm} {xs : List ℕ} (prev : ℕ)
      (m : Mapped hhdm level root r.va r.pa r.flags v xs)
      → length xs ≤ length m.rest + 3 * (if region r.va == prev then 0 else 1)
      → Reached m.level' (region r.va) rs m.after m.rest
      → Reached level prev (r ∷ rs) v xs
  unfolding map_requests regions requested
  cons-Reached r {rs} {level} {v} {xs} prev m price t = record {
    after = t.after;
    level' = t.level';
    rest = t.rest;
    returns = rw m.returns t.returns;
    mapped = t.mapped;
    root_level = t.root_level;
    unlocked = t.unlocked;
    maps = λ other. t.maps other ∙ ap (λ f. requested rs f other) (fun_ext m.maps);
    cost = omega (arith, price, t.cost);
  }

  pub map_requests-Reached :
      (rs : List Request) {level : ℕ → ℕ} (v : Vmm) {xs : List ℕ} (prev : ℕ)
      → IsMapped hhdm level v.pmm xs
      → level root ≡ 4
      → v.locked ≡ false
      → (prev < 2 ^ 27 → IsOpen prev v.pmm.mem)
      → 3 * regions prev rs ≤ length xs
      → Reached level prev rs v xs
  unfolding map_requests regions requested
  map_requests-Reached [] {level} v {xs} prev is lr free open_table enough = record {
    after = v;
    level' = level;
    rest = xs;
    returns = refl;
    mapped = is;
    root_level = lr;
    unlocked = free;
    maps = λ other. refl;
    cost = omega arith;
  }
  map_requests-Reached (r ∷ rs) {level} v {xs} prev is lr free open_table enough =
      let (m, price) = one_more r v prev is lr free open_table (omega (arith, enough)) in
      cons-Reached r prev m price (
        map_requests-Reached rs m.after (region r.va) m.mapped m.root_level m.unlocked
          (λ h. (r.va, m.leaf, refl, m.leaf_slot)) (omega (arith, enough, price)))
