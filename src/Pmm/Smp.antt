-- ===== src/Pmm/Smp.antt =====
-- src/mm/pmm.c and src/lib/spinlock.c on several processors: the calls of `pmm_alloc` and `pmm_free`,
-- one shared access at a time.
pub mod Atomic
pub mod Call
pub mod Stuck
mod Tests
use lord.Prelude.{ℕ, ◌+◌, ◌-◌, ◌%◌, ◌^◌, ◌≡◌, ◌≢◌, Bool, true, false, ◌==◌, if◌then◌else◌}
use lord.Pmm.{put_word, Pmm, virt, phys}

-- Where a processor stands, with the locals that are live there.
pub data Pc : Type 0 where
  -- Outside both functions.
  idle : Pc
  -- In the loop of `acquire_lock`.
  free_spin : (addr : ℕ) → Pc
  alloc_spin : Pc
  -- In `pmm_free`: before the store into the page, of the head, of the count, and `free_lock`.
  free_link : (addr : ℕ) → Pc
  free_head : (addr : ℕ) → Pc
  free_count : Pc
  free_release : Pc
  -- In `pmm_alloc`: before the test of the count, the load of the head, the store of the new head, of
  -- the count, and `free_lock`.
  alloc_test : Pc
  alloc_load : Pc
  alloc_next : (addr : ℕ) → Pc
  alloc_count : (addr : ℕ) → Pc
  alloc_release : (addr : ℕ) → Pc

-- Behind `acquire_lock`, and before `free_lock` or `return`.
abbrev pub critical : Pc → Bool
critical idle = false
critical (free_spin addr) = false
critical alloc_spin = false
critical _ = true

module _ (hhdm : ℕ) where
  -- One step of one processor. `atomic_flag_test_and_set_explicit` sets the flag and tells whether
  -- it was set before.
  pub data Move (s : Pmm) : Pc → Pmm → Pc → Type 0 where
    call_free : (addr : ℕ) → Move s idle s (free_spin addr)
    call_alloc : Move s idle s alloc_spin
    free_wait : {addr : ℕ} → s.locked ≡ true → Move s (free_spin addr) s (free_spin addr)
    free_enter :
        {addr : ℕ}
        → s.locked ≡ false
        → Move s (free_spin addr) (record s { locked = true }) (free_link addr)
    link :
        {addr : ℕ}
        → Move s
            (free_link addr)
            (record s { mem = put_word s.mem (virt hhdm addr) s.free_list })
            (free_head addr)
    head : {addr : ℕ} → Move s (free_head addr) (record s { free_list = virt hhdm addr }) free_count
    count_up :
        Move s free_count
          (record s { free_page_count = (s.free_page_count + 1) % 2 ^ 64 })
          free_release
    free_leave : Move s free_release (record s { locked = false }) idle
    alloc_wait : s.locked ≡ true → Move s alloc_spin s alloc_spin
    alloc_enter : s.locked ≡ false → Move s alloc_spin (record s { locked = true }) alloc_test
    -- `return NULL`
    none_free : s.free_page_count ≡ 0 → Move s alloc_test s idle
    some_free : s.free_page_count ≢ 0 → Move s alloc_test s alloc_load
    load : Move s alloc_load s (alloc_next (phys hhdm s.free_list))
    next :
        {addr : ℕ}
        → Move s (alloc_next addr) (record s { free_list = s.mem s.free_list }) (alloc_count addr)
    count_down :
        {addr : ℕ}
        → Move s
            (alloc_count addr)
            (record s {
              free_page_count =
                  if s.free_page_count == 0 then 2 ^ 64 - 1 else s.free_page_count - 1;
            })
            (alloc_release addr)
    alloc_leave : {addr : ℕ} → Move s (alloc_release addr) (record s { locked = false }) idle

  -- The shared state, and where each processor stands.
  pub record System : Type 0 where
    pub shared : Pmm
    pub pc : ℕ → Pc

  abbrev pub update : (ℕ → Pc) → ℕ → Pc → ℕ → Pc
  update pc i p j = if j == i then p else pc j

  -- A step of any processor, in any order.
  pub data Step (y : System) : System → Type 0 where
    pick :
        (i : ℕ) {s : Pmm} {p : Pc}
        → Move y.shared (y.pc i) s p
        → Step y (record { shared = s; pc = update y.pc i p })

  pub data Steps (y : System) : System → Type 0 where
    here : Steps y y
    later : {x z : System} → Steps y x → Step x z → Steps y z

  -- All processors outside, over a given state.
  abbrev pub outside : Pmm → System
  outside s = record { shared = s; pc = λ i. idle }
