-- ===== src/Pmm.antt =====
-- src/mm/pmm.c: the free list of physical pages, threaded through the pages themselves.
pub mod Pool
pub mod Smp
pub mod Init
mod Tests
use lord.Prelude.{
  ℕ, zero, suc, ◌+◌, ◌-◌, ◌*◌, ◌/◌, ◌%◌, ◌^◌, ◌≡◌, Bool, true, false, Option, none, some, List, [],
  ◌∷◌, ◌==◌, ltb, if◌then◌else◌,
}
use lord.Kernel.{Outcome, done, killed, hangs, fault, ◌>>=◌}

abbrev pub block_size : ℕ
block_size = 4096

-- The 64-bit word at each address; all accesses here are of aligned words.
abbrev pub Words : Type 0
Words = ℕ → ℕ

abbrev pub put_word : Words → ℕ → ℕ → Words
put_word m a v b = if b == a then v else m b

-- The globals of src/mm/pmm.c, with the memory that the free list runs through. `locked` is
-- `pmm_lock`.
pub record Pmm : Type 0 where
  pub free_list : ℕ
  pub free_page_count : ℕ
  pub page_count : ℕ
  pub mem_size : ℕ
  pub locked : Bool
  pub mem : Words

-- `acquire_lock(&pmm_lock)` where no other processor runs: a lock that is held is never freed.
abbrev pub acquire : Pmm → Outcome Pmm
acquire s = if s.locked then hangs else done (record s { locked = true })

-- `struct limine_memmap_entry`.
pub record Entry : Type 0 where
  pub base : ℕ
  pub len : ℕ
  pub kind : ℕ

-- LIMINE_MEMMAP_USABLE
abbrev pub usable : ℕ
usable = 0

-- The first loop of `pmm_init`.
pub size_loop : List Entry → Pmm → Pmm
size_loop [] s = s
size_loop (e ∷ es) s =
    size_loop es
      (if e.kind == usable then record s { mem_size = (s.mem_size + e.len) % 2 ^ 64 } else s)

module _ (hhdm : ℕ) where
  -- The virtual address of a physical one, and back.
  abbrev pub virt : ℕ → ℕ
  virt p = (p + hhdm) % 2 ^ 64

  abbrev pub phys : ℕ → ℕ
  phys v = (v + 2 ^ 64 - hhdm) % 2 ^ 64

  pub pmm_free : ℕ → Pmm → Outcome Pmm
  pmm_free addr s = acquire s >>= λ s. done (record s {
    mem = put_word s.mem (virt addr) s.free_list;
    free_list = virt addr;
    free_page_count = (s.free_page_count + 1) % 2 ^ 64;
    locked = false;
  })

  -- The page, 0 for `NULL`. The early return leaves the lock held.
  pub pmm_alloc : Pmm → Outcome (ℕ × Pmm)
  pmm_alloc s = acquire s >>= λ s.
      if s.free_page_count == 0
      then done (0, s)
      else done (
        phys s.free_list,
        record s {
          free_list = s.mem s.free_list;
          free_page_count = s.free_page_count - 1;
          locked = false;
        },
      )

  -- `for(; j < length / BLOCK_SIZE; j++)`, with the rounds that are left.
  pub free_loop : (left j base : ℕ) → Pmm → Outcome Pmm
  unfolding pmm_free
  free_loop zero j base s = done s
  free_loop (suc left) j base s = pmm_free ((base + j * block_size) % 2 ^ 64) s >>= λ s.
      free_loop left (j + 1) base (record s { page_count = (s.page_count + 1) % 2 ^ 64 })

  -- The body of the second loop of `pmm_init` at a usable entry: the first page of the first such
  -- entry becomes the bottom of the list and is not freed.
  pub free_entry : (first_entry : Bool) → Entry → Pmm → Outcome Pmm
  unfolding free_loop
  free_entry true e s =
      free_loop (e.len / block_size - 1) 1 e.base (record s { free_list = virt e.base })
  free_entry false e s = free_loop (e.len / block_size) 0 e.base s

  pub entry_loop : (first_entry : Bool) → List Entry → Pmm → Outcome Pmm
  entry_loop first_entry [] s = done s
  entry_loop first_entry (e ∷ es) s =
      let rest = entry_loop first_entry es s in
      if e.kind == usable then (free_entry first_entry e s >>= entry_loop false es) else rest

  -- `none` is a null response of the bootloader.
  unfoldable pub pmm_init : Option (List Entry) → Pmm → Outcome Pmm
  unfolding size_loop entry_loop
  pmm_init none s = killed
  pmm_init (some es) s = entry_loop true es (size_loop es s)
