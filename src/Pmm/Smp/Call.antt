-- ===== src/Pmm/Smp/Call.antt =====
-- The calls of `pmm_alloc` and `pmm_free` one after another, and what one step of an interleaving does to
-- them.
use lord.Prelude.{
  ℕ, ◌+◌, ◌-◌, ◌%◌, ◌^◌, ◌≡◌, refl, sym, ap, ◌∙◌, ◌≢◌, true, false, arith, ◌==◌, if◌then◌else◌,
}
use lord.Kernel.{done}
use lord.Pmm.{put_word, Pmm, virt, phys, pmm_free, pmm_alloc}
use lord.Pmm.Smp.{
  Pc, idle, free_spin, alloc_spin, free_link, free_head, free_count, free_release, alloc_test,
  alloc_load, alloc_next, alloc_count, alloc_release, critical, Move,
}

module _ (hhdm : ℕ) where
  -- The states behind calls of `pmm_alloc` and `pmm_free` that return, one after another.
  pub data Sequential (start : Pmm) : Pmm → Type 0 where
    none_yet : Sequential start start
    freed :
        {b b' : Pmm} (addr : ℕ)
        → Sequential start b
        → pmm_free hhdm addr b ≡ done b'
        → Sequential start b'
    allocated :
        {b b' : Pmm} (addr : ℕ)
        → Sequential start b
        → pmm_alloc hhdm b ≡ done (addr, b')
        → Sequential start b'

  -- How far a processor at `p` has come from the state `b` in which it took the lock.
  abbrev pub Partial : (b s : Pmm) → Pc → Type 0
  Partial b s idle = ⊥
  Partial b s (free_spin addr) = ⊥
  Partial b s alloc_spin = ⊥
  Partial b s (free_link addr) = s ≡ record b { locked = true }
  Partial b s (free_head addr) =
      s ≡ record b { locked = true; mem = put_word b.mem (virt hhdm addr) b.free_list }
  Partial b s free_count =
      (addr : ℕ) × (s ≡ record b {
        locked = true;
        mem = put_word b.mem (virt hhdm addr) b.free_list;
        free_list = virt hhdm addr;
      })
  Partial b s free_release =
      (addr : ℕ) × (s ≡ record b {
        locked = true;
        mem = put_word b.mem (virt hhdm addr) b.free_list;
        free_list = virt hhdm addr;
        free_page_count = (b.free_page_count + 1) % 2 ^ 64;
      })
  Partial b s alloc_test = s ≡ record b { locked = true }
  Partial b s alloc_load = (s ≡ record b { locked = true }) × (b.free_page_count ≢ 0)
  Partial b s (alloc_next addr) =
      (s ≡ record b { locked = true }) × (b.free_page_count ≢ 0) × (addr ≡ phys hhdm b.free_list)
  Partial b s (alloc_count addr) =
      (s ≡ record b { locked = true; free_list = b.mem b.free_list })
      × (b.free_page_count ≢ 0)
      × (addr ≡ phys hhdm b.free_list)
  Partial b s (alloc_release addr) =
      (s ≡ record b {
        locked = true;
        free_list = b.mem b.free_list;
        free_page_count = b.free_page_count - 1;
      })
      × (b.free_page_count ≢ 0)
      × (addr ≡ phys hhdm b.free_list)

  -- What a step of a processor outside does.
  pub data Outer (s s' : Pmm) (p : Pc) : Type 0 where
    stays : s' ≡ s → critical p ≡ false → Outer s s' p
    enters_free :
        (addr : ℕ)
        → s.locked ≡ false
        → s' ≡ record s { locked = true }
        → p ≡ free_link addr
        → Outer s s' p
    enters_alloc :
        s.locked ≡ false → s' ≡ record s { locked = true } → p ≡ alloc_test → Outer s s' p

  pub Move-Outer : {s s' : Pmm} {p q : Pc} → Move hhdm s p s' q → critical p ≡ false → Outer s s' q
  Move-Outer (Move.call_free addr) h = stays refl refl
  Move-Outer Move.call_alloc h = stays refl refl
  Move-Outer (Move.free_wait l) h = stays refl refl
  Move-Outer (Move.free_enter {addr} l) h = enters_free addr l refl refl
  Move-Outer (Move.alloc_wait l) h = stays refl refl
  Move-Outer (Move.alloc_enter l) h = enters_alloc l refl refl
  Move-Outer Move.link h = absurd (cc h)
  Move-Outer Move.head h = absurd (cc h)
  Move-Outer Move.count_up h = absurd (cc h)
  Move-Outer Move.free_leave h = absurd (cc h)
  Move-Outer (Move.none_free e) h = absurd (cc h)
  Move-Outer (Move.some_free e) h = absurd (cc h)
  Move-Outer Move.load h = absurd (cc h)
  Move-Outer Move.next h = absurd (cc h)
  Move-Outer Move.count_down h = absurd (cc h)
  Move-Outer Move.alloc_leave h = absurd (cc h)

  -- What a step of the processor inside does: it goes on, or its call is done.
  pub data Inner (start b s' : Pmm) (p : Pc) : Type 0 where
    goes_on : critical p ≡ true → s'.locked ≡ true → Partial b s' p → Inner start b s' p
    leaves : critical p ≡ false → Sequential start s' → Inner start b s' p

  along : (f : Pmm → Pmm) {s t : Pmm} → s ≡ t → f s ≡ f t
  along f e = ap f e

  module _ {start b : Pmm} (seq : Sequential start b) (free : b.locked ≡ false) where
    freed_at :
        (addr : ℕ) {s : Pmm}
        → s ≡ record b {
          locked = false;
          mem = put_word b.mem (virt hhdm addr) b.free_list;
          free_list = virt hhdm addr;
          free_page_count = (b.free_page_count + 1) % 2 ^ 64;
        }
        → Sequential start s
    unfolding pmm_free
    freed_at addr e = freed addr seq (rw (pmm_free, free, e) refl)

    allocated_at :
        {s : Pmm}
        → s ≡ record b {
          locked = false;
          free_list = b.mem b.free_list;
          free_page_count = b.free_page_count - 1;
        }
        → b.free_page_count ≢ 0
        → Sequential start s
    unfolding pmm_alloc
    allocated_at e ne =
        let some_free : (b.free_page_count == 0) ≡ false = ground arith in
        allocated (phys hhdm b.free_list) seq (rw (pmm_alloc, free, some_free, e) refl)

    none_at :
        {s : Pmm} → s ≡ record b { locked = true } → b.free_page_count ≡ 0 → Sequential start s
    unfolding pmm_alloc
    none_at e h =
        let empty : (b.free_page_count == 0) ≡ true = ground (arith, h) in
        allocated 0 seq (rw (pmm_alloc, free, empty, e) refl)

    pub Move-Inner :
        {s s' : Pmm} {p q : Pc}
        → Move hhdm s p s' q
        → s.locked ≡ true
        → Partial b s p
        → Inner start b s' q
    Move-Inner (Move.call_free addr) l h = absurd h
    Move-Inner Move.call_alloc l h = absurd h
    Move-Inner (Move.free_wait k) l h = absurd h
    Move-Inner (Move.free_enter k) l h = absurd h
    Move-Inner (Move.alloc_wait k) l h = absurd h
    Move-Inner (Move.alloc_enter k) l h = absurd h
    Move-Inner (Move.link {addr}) l h =
        goes_on refl l
          (along (λ t. record t { mem = put_word t.mem (virt hhdm addr) t.free_list }) h)
    Move-Inner (Move.head {addr}) l h =
        goes_on refl l (addr, along (λ t. record t { free_list = virt hhdm addr }) h)
    Move-Inner Move.count_up l (addr, h) =
        goes_on refl l
          (addr, along (λ t. record t { free_page_count = (t.free_page_count + 1) % 2 ^ 64 }) h)
    Move-Inner Move.free_leave l (addr, h) =
        leaves refl (freed_at addr (along (λ t. record t { locked = false }) h))
    Move-Inner (Move.none_free e) l h =
        leaves refl (none_at h (sym (ap (λ t. t.free_page_count) h) ∙ e))
    Move-Inner (Move.some_free e) l h =
        goes_on refl l (h, λ z. e (ap (λ t. t.free_page_count) h ∙ z))
    Move-Inner Move.load l (h, ne) = goes_on refl l (h, ne, ap (λ t. phys hhdm t.free_list) h)
    Move-Inner Move.next l (h, ne, a) =
        goes_on refl l (along (λ t. record t { free_list = t.mem t.free_list }) h, ne, a)
    Move-Inner Move.count_down l (h, ne, a) = goes_on refl l (
      along
            (λ t. record t {
              free_page_count =
                  if t.free_page_count == 0 then 2 ^ 64 - 1 else t.free_page_count - 1;
            })
            h
          ∙ (let nonzero : (b.free_page_count == 0) ≡ false = ground (arith, ne) in
              rw nonzero refl),
      ne,
      a,
    )
    Move-Inner Move.alloc_leave l (h, ne, a) =
        leaves refl (allocated_at (along (λ t. record t { locked = false }) h) ne)
