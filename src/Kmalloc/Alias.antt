-- ===== src/Kmalloc/Alias.antt =====
-- What the invariant of the block table means for the callers of the allocator.
use lord.Prelude.{
  ℕ, zero, suc, ◌+◌, ◌-◌, ◌%◌, ◌^◌, ◌≤◌, ◌<◌, ◌≡◌, refl, ◌≢◌, true, false, arith, leb, ltb, inl,
  inr, ap, ◌∙◌, subst, ◌==◌, if◌then◌else◌, ◌&&◌, replicate, Bool-cases, List,
}
use mathlib.Core.Bool.{and-false}
use lord.Kernel.{Outcome, done, fault}
use lord.Str.{Bytes, memset}
use lord.Str.Blocks.{memset_lem}
use lord.Kmalloc.{
  Heap, Block, unused, empty_rest, kernel_max_block, kernel_heap_size, block_at, available,
  kernel_heap_init, kmalloc, kfree, krealloc, resize, move_block, find_addr, none_behind,
}
use lord.Kmalloc.Inv.{
  IsHeap, IsFirst, Returns, AfterHeap, AllEmpty, reuses, kmalloc_result, kmalloc_lem,
  kmalloc-IsHeap, kfree-IsHeap, heap_of, kmalloc-heap_of, eq-heap_of, none_behind-AllEmpty,
}
use lord.Kmalloc.Resize.{IsHeap-mem, available-first, krealloc-IsHeap}

-- The calls of the allocator that return, from the heap that `kernel_heap_init` leaves.
pub data Reach (base a : ℕ) (m : Bytes) : Heap → Type 0 where
  init : {h : Heap} → kernel_heap_init base a m ≡ done h → Reach base a m h
  alloc :
      {h g : Heap} {p : ℕ} (size : ℕ)
      → Reach base a m h
      → kmalloc size h ≡ done (p, g)
      → Reach base a m g
  free : {h g : Heap} (p : ℕ) → Reach base a m h → kfree p h ≡ done g → Reach base a m g
  realloc :
      {h g : Heap} {q : ℕ} (p size : ℕ)
      → Reach base a m h
      → krealloc p size h ≡ done (q, g)
      → Reach base a m g
  -- Stores by the users of the heap.
  store : {h : Heap} (m' : Bytes) → Reach base a m h → Reach base a m (record h { mem = m' })

replicate-AllEmpty : (n : ℕ) → AllEmpty (replicate n unused)
replicate-AllEmpty zero = tt
replicate-AllEmpty (suc n) = (refl, refl, replicate-AllEmpty n)

empty_rest-AllEmpty : AllEmpty empty_rest
unfolding empty_rest
empty_rest-AllEmpty = replicate-AllEmpty (kernel_max_block - 1)

init-IsHeap : (base a : ℕ) (m : Bytes) → Returns (IsHeap a) (kernel_heap_init base a m)
unfolding kernel_heap_init
init-IsHeap base a m = elim (Bool-cases (base == 0)) [
  | inl no_table ↦ rw (kernel_heap_init, no_table) tt
  | inr table ↦ elim (Bool-cases (a == 0)) [
    | inl no_heap ↦ rw (kernel_heap_init, table, no_heap) tt
    | inr heap ↦
        rw (kernel_heap_init, table, heap)
          (record {
            first = record unused { free = true };
            rest = empty_rest;
            table = refl;
            is_first = inr (refl, refl, refl);
            empty = empty_rest-AllEmpty;
            nonnull = ground arith;
            start = refl;
          })
  ]
]

of_done {ℓ} : {A : Type ℓ} (P : A → Type 0) {r : Outcome A} {x : A} → r ≡ done x → Returns P r → P x
of_done P e p = subst (Returns P) e p

pub Reach-IsHeap : {base a : ℕ} {m : Bytes} {h : Heap} → Reach base a m h → IsHeap a h
Reach-IsHeap {base} {a} {m} (init e) = of_done (IsHeap a) e (init-IsHeap base a m)
Reach-IsHeap {a} (alloc size r e) = of_done (AfterHeap a) e (kmalloc-IsHeap size (Reach-IsHeap r))
Reach-IsHeap {a} (free p r e) = of_done (IsHeap a) e (kfree-IsHeap p (Reach-IsHeap r))
Reach-IsHeap {a} (realloc p size r e) =
    of_done (AfterHeap a) e (krealloc-IsHeap p size (Reach-IsHeap r))
Reach-IsHeap (store m' r) = IsHeap-mem m' (Reach-IsHeap r)

-- After any calls of the allocator that returned, and any stores, `kmalloc` returns for every size
-- that the heap has room for, and returns the start of the heap; so no two calls return different
-- blocks, and it never returns `NULL`. For every larger size it stores behind the end of the heap.
pub kmalloc-same_address :
    {base a : ℕ} {m : Bytes} {h : Heap} (size : ℕ)
    → Reach base a m h
    → (g : Heap) × (kmalloc size h ≡ (if leb size kernel_heap_size then done (a, g) else fault))
      × (a ≢ 0)
kmalloc-same_address size r = let is = Reach-IsHeap r in (_, kmalloc_lem size is, is.nonnull)

-- The first entry of the table.
abbrev pub head_block : Heap → Block
head_block h = block_at h.blocks 0

first_lem : {a : ℕ} {h : Heap} (is : IsHeap a h) → head_block h ≡ is.first
first_lem is = ap (λ bs. block_at bs 0) is.table

-- A call that does not take a freed block again wipes the first `size` bytes of the heap, whoever
-- holds them, records the size modulo 2^32, and keeps all other bytes.
pub kmalloc-wipes :
    {base a : ℕ} {m : Bytes} {h : Heap} (size : ℕ)
    → Reach base a m h
    → size ≤ kernel_heap_size
    → reuses size (head_block h) ≡ false
    → (g : Heap) × (kmalloc size h ≡ done (a, g))
      × ((x : ℕ) → g.mem x ≡ (if leb a x && ltb x (a + size) then 0 else h.mem x))
      × (block_at g.blocks 0 ≡ record { addr = a; size = size % 2 ^ 32; free = false })
unfolding kmalloc_result
kmalloc-wipes {a} {h} size r fits anew =
    let is = Reach-IsHeap r in
    let small : leb size kernel_heap_size ≡ true = ground arith in
    (
      heap_of (record { addr = a; size = size % 2 ^ 32; free = false }) is.rest a
          (memset a 0 size h.mem),
      kmalloc_lem size is ∙ rw (small, kmalloc_result, ← first_lem is, anew) refl,
      memset_lem a 0 size h.mem,
      refl,
    )

-- The size of the block behind a call of `krealloc` that keeps it in place.
abbrev pub new_size : ℕ → Block → ℕ
new_size size b = if leb size b.size then b.size else size % 2 ^ 32

grow_in_place :
    (size : ℕ) (b : Block) (rest : List Block) (a : ℕ) (m : Bytes)
    → b.addr ≡ a
    → a ≢ 0
    → AllEmpty rest
    → 0 < size
    → size ≤ b.size + available a b
    → krealloc a size (heap_of b rest a m)
      ≡ done (a, heap_of (record b { size = new_size size b }) rest a m)
unfolding krealloc resize find_addr none_behind
grow_in_place size b rest a m here ne empty pos room = elim (Bool-cases (leb size b.size)) [
  | inl fits ↦ ground arith
  | inr grows ↦
      let enough : leb (size - b.size) (available a b) ≡ true = ground arith in
      ground (arith, none_behind-AllEmpty rest empty)
]

-- `krealloc` of the block to a size for which the heap has room returns the same pointer and keeps
-- every byte; it records the new size, modulo 2^32, if that is larger than the old.
pub krealloc_grows :
    {base a : ℕ} {m : Bytes} {h : Heap} (size : ℕ)
    → Reach base a m h
    → (head_block h).addr ≡ a
    → 0 < size
    → size ≤ (head_block h).size + available a (head_block h)
    → (g : Heap) × (krealloc a size h ≡ done (a, g))
      × (g.mem ≡ h.mem)
      × ((block_at g.blocks 0).size ≡ new_size size (head_block h))
krealloc_grows {a} {h} size r here pos room =
    let is = Reach-IsHeap r in
    (
      _,
      ap (krealloc a size) (eq-heap_of is)
          ∙ grow_in_place size is.first is.rest a h.mem
              (subst (λ b. b.addr ≡ a) (first_lem is) here) is.nonnull is.empty pos
              (subst (λ b. size ≤ b.size + available a b) (first_lem is) room),
      refl,
      rw (first_lem is),
    )

first_small : {a : ℕ} (b : Block) → b.addr ≡ a → a ≢ 0 → IsFirst a b → b.size ≤ kernel_heap_size
first_small b here ne f = ground arith

over_heap : {n : ℕ} (size : ℕ) → n ≡ kernel_heap_size → n < size → leb size kernel_heap_size ≡ false
over_heap size e over = ground arith

krealloc-moves :
    (size : ℕ) (b : Block) (rest : List Block) (a : ℕ) (m : Bytes)
    → b.addr ≡ a
    → a ≢ 0
    → b.size + available a b < size
    → krealloc a size (heap_of b rest a m) ≡ move_block a b.size size (heap_of b rest a m)
unfolding krealloc resize find_addr
krealloc-moves size b rest a m here ne over =
    let nonnull : (a == 0) ≡ false = ground arith in
    let nonzero : (size == 0) ≡ false = ground arith in
    let hit : (b.addr == a) ≡ true = ground arith in
    let grows : leb size b.size ≡ false = ground arith in
    let full : leb (size - b.size) (available a b) ≡ false = ground arith in
    rw (krealloc, nonnull, nonzero, hit, grows, full, and-false)

-- After any calls of the allocator that returned, and any stores, where the first entry of the table
-- is a block at the start of the heap: `krealloc` of that block to a size for which the heap has no
-- room neither grows the block nor returns `NULL`; it calls `kmalloc`, which stores behind the end of
-- the heap.
pub krealloc-overruns :
    {base a : ℕ} {m : Bytes} {h : Heap} (size : ℕ)
    → Reach base a m h
    → (head_block h).addr ≡ a
    → (head_block h).size + available a (head_block h) < size
    → krealloc a size h ≡ fault
unfolding move_block
krealloc-overruns {a} {h} size r here over =
    let is = Reach-IsHeap r in
    let here' = subst (λ b. b.addr ≡ a) (first_lem is) here in
    let over' = subst (λ b. b.size + available a b < size) (first_lem is) over in
    let room =
      available-first a is.first here' (first_small is.first here' is.nonnull is.is_first) in
    let large : leb size kernel_heap_size ≡ false = over_heap size room over' in
    ap (krealloc a size) (eq-heap_of is)
    ∙ krealloc-moves size is.first is.rest a h.mem here' is.nonnull over'
    ∙ rw
        (
          move_block,
          kmalloc-heap_of size is.first is.rest a h.mem is.is_first is.nonnull is.empty,
          large,
        )
        refl
