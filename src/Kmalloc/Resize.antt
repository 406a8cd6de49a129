-- ===== src/Kmalloc/Resize.antt =====
-- The invariant of the block table under `krealloc`.
use lord.Prelude.{
  ℕ, ◌%◌, ◌^◌, ◌+◌, ◌≤◌, ◌≡◌, refl, ◌≢◌, inl, inr, ◌&&◌, List, ◌∷◌, arith, ◌==◌, leb, Bool-cases,
  sym, subst, ◌-◌,
}
use lord.Str.{Bytes}
use lord.Kmalloc.{
  Block, Heap, kernel_heap_size, kmalloc, find_addr, kfree, none_behind, available, move_block,
  resize, krealloc,
}
use lord.Kmalloc.Inv.{
  AllEmpty, IsFirst, IsHeap, find_addr-AllEmpty, heap_of, eq-heap_of, Returns, AfterHeap,
  Returns-bind, kmalloc-IsHeap, kfree-IsHeap,
}

pub IsHeap-mem : {a : ℕ} {h : Heap} (m : Bytes) → IsHeap a h → IsHeap a (record h { mem = m })
IsHeap-mem m is = record {
  first = is.first;
  rest = is.rest;
  table = is.table;
  is_first = is.is_first;
  empty = is.empty;
  nonnull = is.nonnull;
  start = is.start;
}

move_block-IsHeap :
    (addr old_size size : ℕ) {a : ℕ} {h : Heap}
    → IsHeap a h
    → Returns (AfterHeap a) (move_block addr old_size size h)
unfolding move_block
move_block-IsHeap addr old_size size {h} is =
    Returns-bind (AfterHeap _) (kmalloc size h) _ (kmalloc-IsHeap size is) λ r is'.
      elim (Bool-cases (r.0 == 0)) [
        | inl null ↦ rw null is'
        | inr new ↦ rw new (
            Returns-bind (AfterHeap _) (kfree addr _) _ (kfree-IsHeap addr (IsHeap-mem _ is'))
              λ h' is''. is'')
      ]

IsHeap-heap_of : {a : ℕ} {h : Heap} (is : IsHeap a h) → IsHeap a (heap_of is.first is.rest a h.mem)
IsHeap-heap_of {a} is = subst (IsHeap a) (eq-heap_of is) is

pub available-first :
    (a : ℕ) (b : Block)
    → b.addr ≡ a
    → b.size ≤ kernel_heap_size
    → b.size + available a b ≡ kernel_heap_size
unfolding available
available-first a b here small = omega (arith, here, small)

-- The last branch of `krealloc`, on the entry that it found.
resize-IsHeap :
    (addr size : ℕ) (b : Block) (rest : List Block) (a : ℕ) (m : Bytes)
    → IsHeap a (heap_of b rest a m)
    → IsFirst a b
    → a ≢ 0
    → AllEmpty rest
    → addr ≢ 0
    → Returns (AfterHeap a) (resize addr size (find_addr addr 0 (b ∷ rest)) (heap_of b rest a m))
unfolding resize find_addr
resize-IsHeap addr size b rest a m is f ne empty given = elim (Bool-cases (b.addr == addr)) [
  | inr miss ↦ rw (miss, find_addr-AllEmpty addr 1 rest empty given) tt
  | inl hit ↦ elim (Bool-cases (leb size b.size)) [
    | inl fits ↦ rw (hit, fits) is
    | inr grows ↦
        let at : b.addr ≡ a = ground arith in
        elim (Bool-cases (none_behind 0 rest && leb (size - b.size) (available a b))) [
          | inl room ↦
              rw (hit, grows, room)
                (record {
                  first = record b { size = size % 2 ^ 32 };
                  rest = rest;
                  table = refl;
                  is_first = inl (at, ground (arith, available-first a b at (ground (arith, f))));
                  empty = empty;
                  nonnull = ne;
                  start = refl;
                })
          | inr full ↦ rw (hit, grows, full) (move_block-IsHeap addr b.size size is)
        ]
  ]
]

pub krealloc-IsHeap :
    (addr size : ℕ) {a : ℕ} {h : Heap} → IsHeap a h → Returns (AfterHeap a) (krealloc addr size h)
unfolding krealloc
krealloc-IsHeap addr size {a} {h} is = elim (Bool-cases (addr == 0)) [
  | inl null ↦ rw (krealloc, null) (kmalloc-IsHeap size is)
  | inr given ↦ elim (Bool-cases (size == 0)) [
    | inl drop ↦
        rw (krealloc, given, drop)
          (Returns-bind (AfterHeap _) (kfree addr h) _ (kfree-IsHeap addr is) λ h' is'. is')
    | inr keep ↦
        rw (krealloc, given, keep)
          (subst (λ g. Returns (AfterHeap a) (resize addr size (find_addr addr 0 g.blocks) g))
            (sym (eq-heap_of is))
            (resize-IsHeap addr size is.first is.rest a h.mem (IsHeap-heap_of is) is.is_first
              is.nonnull is.empty (ground arith)))
  ]
]
