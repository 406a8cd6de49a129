-- ===== src/Kmalloc.antt =====
-- src/mm/kmalloc.c: the block table of the kernel heap.
pub mod Alias
pub mod Inv
pub mod Resize
pub mod Tests
use lord.Prelude.{
  ℕ, zero, suc, ◌+◌, ◌-◌, ◌%◌, ◌^◌, ◌≡◌, Bool, true, false, not, ◌&&◌, ◌||◌, Option, none, some,
  List, [], ◌∷◌, ◌==◌, ltb, leb, if◌then◌else◌, get_elem?, get_or, set, replicate,
}
use lord.Kernel.{Outcome, done, killed, hangs, fault, ◌>>=◌}
use lord.Str.{Bytes, memset, memcpy}

abbrev pub kernel_max_block : ℕ
kernel_max_block = 512

abbrev pub kernel_heap_size : ℕ
kernel_heap_size = 0x10000000

-- `block_t`: `addr` has 64 bits, `size` has 32.
pub record Block : Type 0 where
  pub addr : ℕ
  pub size : ℕ
  pub free : Bool

abbrev pub unused : Block
unused = record { addr = 0; size = 0; free = false }

-- `base`, `heap_addr`, and the bytes of memory. The block table lies outside the heap.
pub record Heap : Type 0 where
  pub blocks : List Block
  pub heap_addr : ℕ
  pub mem : Bytes

-- The entries behind the first, after the `memset`.
pub empty_rest : List Block
empty_rest = replicate (kernel_max_block - 1) unused

-- The table and the heap pointer that `kernel_heap_init` leaves, with the address that
-- `kernel_allocate_memory` returned for the heap; a null pointer from either call kills the kernel.
pub kernel_heap_init : (base heap_addr : ℕ) → Bytes → Outcome Heap
kernel_heap_init base heap_addr m =
    if base == 0
    then killed
    else if heap_addr == 0
    then killed
    else done (record {
      blocks = record unused { free = true } ∷ empty_rest;
      heap_addr = heap_addr;
      mem = m;
    })

-- The first block that is in the table, free, and large enough.
pub find_fit : (size i : ℕ) → List Block → Option ℕ
find_fit size i [] = none
find_fit size i (b ∷ bs) =
    if not (b.addr == 0) && b.free && leb size b.size then some i else find_fit size (i + 1) bs

-- How the `while` loop of `kmalloc` ends: at an index, or by `return NULL`.
pub data Next : Type 0 where
  at : ℕ → Next
  over_limit : Next

-- `while (!base[i].free && !base[i].addr)`. A read behind the table is a fault; the fuel bounds `i`.
pub next_block : (fuel i : ℕ) → List Block → Outcome Next
next_block zero i bs = hangs
next_block (suc fuel) i bs =
    let rest = next_block fuel (i + 1) bs in
    elim (get_elem? bs i) [
      | none ↦ fault
      | some b ↦
          if not b.free && b.addr == 0
          then (if ltb kernel_max_block i then done over_limit else rest)
          else done (at i)
    ]

-- `for (int j = 0; j < i; j++)`: the sum of the sizes of the `i` blocks before; `none` is the
-- `return NULL` on a full heap.
pub offset_loop : (i heap_addr addr : ℕ) → List Block → Option ℕ
offset_loop zero heap_addr addr bs = some addr
offset_loop (suc i) heap_addr addr [] = none
offset_loop (suc i) heap_addr addr (b ∷ bs) =
    let rest = offset_loop i heap_addr ((addr + b.size) % 2 ^ 64) bs in
    if ltb ((heap_addr + kernel_heap_size) % 2 ^ 64) addr then none else rest

-- `base[i].free = v`
abbrev pub set_free : List Block → ℕ → Bool → List Block
set_free [] i v = []
set_free (b ∷ bs) zero v = record b { free = v } ∷ bs
set_free (b ∷ bs) (suc i) v = b ∷ set_free bs i v

-- `base[i]`, where `i` lies inside the table.
abbrev pub block_at : List Block → ℕ → Block
block_at bs i = get_or bs i unused

-- `memset` of bytes to 0 on the heap. A store behind the end of the heap is a fault; no byte at all is
-- stored anywhere.
pub clear : (addr size : ℕ) → Heap → Outcome Bytes
clear addr size h =
    if size == 0 || leb (addr + size) (h.heap_addr + kernel_heap_size)
    then done (memset addr 0 size h.mem)
    else fault

-- `kmalloc` behind its two searches: the block `i` is filled in.
pub fill_block : (size i : ℕ) → Heap → Outcome (ℕ × Heap)
unfolding offset_loop clear
fill_block size i h = elim (offset_loop i h.heap_addr h.heap_addr h.blocks) [
  | none ↦ done (0, h)
  | some addr ↦ clear addr size h >>= λ m. done (
    addr,
    record h {
      blocks = set h.blocks i (record { addr = addr; size = size % 2 ^ 32; free = false });
      mem = m;
    },
  )
]

-- The pointer that `kmalloc` returns, 0 for `NULL`, and the new heap.
unfoldable pub kmalloc : ℕ → Heap → Outcome (ℕ × Heap)
unfolding find_fit next_block fill_block
kmalloc size h = elim (find_fit size 0 h.blocks) [
  | some i ↦ done ((block_at h.blocks i).addr, record h { blocks = set_free h.blocks i false })
  | none ↦
      next_block (kernel_max_block + 2) 0 h.blocks
      >>= elim [ at i ↦ fill_block size i h | over_limit ↦ done (0, h) ]
]

-- The first block with this address.
pub find_addr : (addr i : ℕ) → List Block → Option ℕ
find_addr addr i [] = none
find_addr addr i (b ∷ bs) = if b.addr == addr then some i else find_addr addr (i + 1) bs

pub kfree : ℕ → Heap → Outcome Heap
unfolding find_addr clear
kfree addr h = elim (find_addr addr 0 h.blocks) [
  | none ↦ killed
  | some i ↦
      let b = block_at h.blocks i in
      (clear b.addr b.size h >>= λ m.
      done (record h { blocks = set_free h.blocks i true; mem = m }))
]

-- No block from index `j` on has an address.
pub none_behind : ℕ → List Block → Bool
none_behind j [] = true
none_behind zero (b ∷ bs) = b.addr == 0 && none_behind zero bs
none_behind (suc j) (b ∷ bs) = none_behind j bs

-- The end of `krealloc`: a new block, a copy, and the old block freed.
pub move_block : (addr old_size size : ℕ) → Heap → Outcome (ℕ × Heap)
unfolding kmalloc kfree
move_block addr old_size size h = kmalloc size h >>= λ r.
    if r.0 == 0
    then done (0, r.1)
    else (kfree addr (record r.1 { mem = memcpy r.0 addr old_size r.1.mem }) >>= λ h'.
        done (r.0, h'))

-- The bytes between the end of a block and the end of the heap, in 64-bit arithmetic.
pub available : (heap_addr : ℕ) → Block → ℕ
available heap_addr b =
    let current_end = (b.addr + b.size) % 2 ^ 64 in
    let heap_end = (heap_addr + kernel_heap_size) % 2 ^ 64 in
    (heap_end + 2 ^ 64 - current_end) % 2 ^ 64

-- `krealloc` behind its search for the entry of `addr`.
pub resize : (addr size : ℕ) → Option ℕ → Heap → Outcome (ℕ × Heap)
unfolding none_behind
resize addr size none h = killed
resize addr size (some i) h =
    let b = block_at h.blocks i in
    if leb size b.size
    then done (addr, h)
    else if none_behind (i + 1) h.blocks && leb (size - b.size) (available h.heap_addr b)
    then done (addr, record h { blocks = set h.blocks i (record b { size = size % 2 ^ 32 }) })
    else move_block addr b.size size h

pub krealloc : (addr size : ℕ) → Heap → Outcome (ℕ × Heap)
krealloc addr size h =
    if addr == 0
    then kmalloc size h
    else if size == 0
    then (kfree addr h >>= λ h'. done (0, h'))
    else resize addr size (find_addr addr 0 h.blocks) h
