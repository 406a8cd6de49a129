-- ===== src/Kmalloc/Inv.antt =====
-- An invariant of the block table of src/mm/kmalloc.c, under `kmalloc` and `kfree`.
use lord.Prelude.{
  ℕ, zero, suc, ◌+◌, ◌%◌, ◌^◌, ◌≡◌, refl, ap, ◌∙◌, ◌≢◌, ◌⊎◌, inl, inr, Bool, true, false, not, ◌&&◌,
  none, some, List, [], ◌∷◌, arith, ◌==◌, leb, if◌then◌else◌, Bool-cases, Option-cases, sym, subst,
  ◌-◌, ◌≤◌,
}
use lord.Kernel.{Outcome, done, killed, hangs, fault, ◌>>=◌}
use lord.Str.{memset, Bytes}
use lord.Kmalloc.{
  Block, Heap, kernel_max_block, kernel_heap_size, block_at, clear, find_fit, next_block, Next,
  fill_block, offset_loop, kmalloc, find_addr, kfree, none_behind, set_free,
}

-- Entries that hold no block.
abbrev pub AllEmpty : List Block → Type 0
AllEmpty [] = Unit {0}
AllEmpty (b ∷ bs) = (b.addr ≡ 0) × (b.size ≡ 0) × AllEmpty bs

-- The first entry: at the start of the heap and no larger, or still as `kernel_heap_init` left it.
abbrev pub IsFirst : ℕ → Block → Type 0
IsFirst a b =
    ((b.addr ≡ a) × (b.size ≤ kernel_heap_size)) ⊎ ((b.addr ≡ 0) × (b.free ≡ true) × (b.size ≡ 0))

-- A heap that starts at `a`.
pub record IsHeap (a : ℕ) (h : Heap) : Type 0 where
  pub first : Block
  pub rest : List Block
  pub table : h.blocks ≡ first ∷ rest
  pub is_first : IsFirst a first
  pub empty : AllEmpty rest
  pub nonnull : a ≢ 0
  pub start : h.heap_addr ≡ a

find_fit-AllEmpty : (size i : ℕ) (bs : List Block) → AllEmpty bs → find_fit size i bs ≡ none
unfolding find_fit
find_fit-AllEmpty size i [] e = refl
find_fit-AllEmpty size i (b ∷ bs) e = ground (arith, find_fit-AllEmpty size (i + 1) bs)

-- Whether `kmalloc` takes the first entry again.
abbrev pub reuses : ℕ → Block → Bool
reuses size b = not (b.addr == 0) && b.free && leb size b.size

abbrev pub heap_of : Block → List Block → ℕ → Bytes → Heap
heap_of b rest a m = record { blocks = b ∷ rest; heap_addr = a; mem = m }

pub eq-heap_of : {a : ℕ} {h : Heap} (is : IsHeap a h) → h ≡ heap_of is.first is.rest a h.mem
eq-heap_of {h} is = λ i. record { blocks = is.table i; heap_addr = is.start i; mem = h.mem }

-- The heap behind a call of `kmalloc`.
unfoldable pub kmalloc_result : (size : ℕ) → Block → List Block → ℕ → Bytes → Heap
kmalloc_result size b rest a m =
    if reuses size b
    then heap_of (record b { free = false }) rest a m
    else heap_of (record { addr = a; size = size % 2 ^ 32; free = false }) rest a
        (memset a 0 size m)

next_block-first :
    (fuel a : ℕ) (b : Block) (rest : List Block)
    → IsFirst a b
    → a ≢ 0
    → next_block (suc fuel) 0 (b ∷ rest) ≡ done (Next.at 0)
unfolding next_block
next_block-first fuel a b rest f ne = ground arith

-- A size that the heap has room for.
abbrev pub in_heap : ℕ → Bool
in_heap size = leb size kernel_heap_size

pub clear-heap_of :
    (size : ℕ) (b : Block) (rest : List Block) (a : ℕ) (m : Bytes)
    → clear a size (heap_of b rest a m) ≡ (if in_heap size then done (memset a 0 size m) else fault)
unfolding clear
clear-heap_of size b rest a m = ground arith

pub kmalloc-heap_of :
    (size : ℕ) (b : Block) (rest : List Block) (a : ℕ) (m : Bytes)
    → IsFirst a b
    → a ≢ 0
    → AllEmpty rest
    → kmalloc size (heap_of b rest a m)
      ≡ (if in_heap size then done (a, kmalloc_result size b rest a m) else fault)
unfolding kmalloc kmalloc_result fill_block find_fit offset_loop
kmalloc-heap_of size b rest a m f ne empty = elim (Bool-cases (reuses size b)) [
  | inl again ↦
      let here : b.addr ≡ a = ground arith in
      let small : in_heap size ≡ true = ground arith in rw (kmalloc, again, small, here) refl
  | inr anew ↦ elim (Bool-cases (in_heap size)) [
    | inl small ↦
        rw
          (
            kmalloc,
            anew,
            find_fit-AllEmpty size 1 rest empty,
            next_block-first (kernel_max_block + 1) a b rest f ne,
            clear-heap_of size b rest a m,
            small,
          )
          refl
    | inr large ↦
        rw
          (
            kmalloc,
            anew,
            find_fit-AllEmpty size 1 rest empty,
            next_block-first (kernel_max_block + 1) a b rest f ne,
            clear-heap_of size b rest a m,
            large,
          )
          refl
  ]
]

-- Where only the first entry is used, `kmalloc` returns the start of the heap, whether or not that
-- address is in use, for every size that the heap has room for.
pub kmalloc_lem :
    (size : ℕ) {a : ℕ} {h : Heap} (is : IsHeap a h)
    → kmalloc size h
      ≡ (if in_heap size then done (a, kmalloc_result size is.first is.rest a h.mem) else fault)
kmalloc_lem size {a} {h} is =
    ap (kmalloc size) (eq-heap_of is)
    ∙ kmalloc-heap_of size is.first is.rest a h.mem is.is_first is.nonnull is.empty

kmalloc_result-IsHeap :
    (size : ℕ) (b : Block) (rest : List Block) (a : ℕ) (m : Bytes)
    → size ≤ kernel_heap_size
    → IsFirst a b
    → a ≢ 0
    → AllEmpty rest
    → IsHeap a (kmalloc_result size b rest a m)
unfolding kmalloc_result
kmalloc_result-IsHeap size b rest a m small f ne empty = elim (Bool-cases (reuses size b)) [
  | inl again ↦ rw again (record {
    first = record b { free = false };
    rest = rest;
    table = refl;
    is_first = ground arith;
    empty = empty;
    nonnull = ne;
    start = refl;
  })
  | inr anew ↦ rw anew (record {
    first = record { addr = a; size = size % 2 ^ 32; free = false };
    rest = rest;
    table = refl;
    is_first = inl (refl, omega arith);
    empty = empty;
    nonnull = ne;
    start = refl;
  })
]

-- The state of a call that returns.
abbrev pub Returns {ℓ} : {A : Type ℓ} → (A → Type 0) → Outcome A → Type 0
Returns P (done r) = P r
Returns P killed = Unit
Returns P hangs = Unit
Returns P fault = Unit

abbrev pub AfterHeap : ℕ → ℕ × Heap → Type 0
AfterHeap a r = IsHeap a r.1

pub kmalloc-IsHeap :
    (size : ℕ) {a : ℕ} {h : Heap} → IsHeap a h → Returns (AfterHeap a) (kmalloc size h)
kmalloc-IsHeap size is = elim (Bool-cases (in_heap size)) [
  | inl small ↦
      rw (kmalloc_lem size is, small)
        (kmalloc_result-IsHeap size _ _ _ _ (ground arith) is.is_first is.nonnull is.empty)
  | inr large ↦ rw (kmalloc_lem size is, large) tt
]

Returns-any : {A : Type 0} (m : Outcome A) → Returns (λ _. Unit {0}) m
Returns-any (done a) = tt
Returns-any killed = tt
Returns-any hangs = tt
Returns-any fault = tt

pub Returns-bind :
    {A B : Type 0} {P : A → Type 0} (Q : B → Type 0) (m : Outcome A) (f : A → Outcome B)
    → Returns P m
    → ((a : A) → P a → Returns Q (f a))
    → Returns Q (m >>= f)
Returns-bind Q (done a) f p k = k a p
Returns-bind Q killed f p k = tt
Returns-bind Q hangs f p k = tt
Returns-bind Q fault f p k = tt

-- `kfree` of a table with one entry in use.
pub find_addr-AllEmpty :
    (addr i : ℕ) (bs : List Block) → AllEmpty bs → addr ≢ 0 → find_addr addr i bs ≡ none
unfolding find_addr
find_addr-AllEmpty addr i [] e ne = refl
find_addr-AllEmpty addr i (b ∷ bs) e ne = ground (arith, find_addr-AllEmpty addr (i + 1) bs)

pub none_behind-AllEmpty : (bs : List Block) → AllEmpty bs → none_behind 0 bs ≡ true
unfolding none_behind
none_behind-AllEmpty [] e = refl
none_behind-AllEmpty (b ∷ bs) e = ground (arith, none_behind-AllEmpty bs)

set_free-AllEmpty : (i : ℕ) (bs : List Block) → AllEmpty bs → AllEmpty (set_free bs i true)
set_free-AllEmpty zero [] e = tt
set_free-AllEmpty (suc i) [] e = tt
set_free-AllEmpty zero (b ∷ bs) e = e
set_free-AllEmpty (suc i) (b ∷ bs) e = (e.0, e.1, set_free-AllEmpty i bs e.2)

le-find_addr : (addr i k : ℕ) (bs : List Block) → find_addr addr i bs ≡ some k → i ≤ k
unfolding find_addr
le-find_addr addr i k [] e = absurd (cc)
le-find_addr addr i k (b ∷ bs) e = ground (arith, le-find_addr addr (i + 1) k bs)

-- `kfree` keeps the invariant: the entry it frees is the first, or an empty one for a null pointer.
pub kfree-heap_of :
    (addr : ℕ) (b : Block) (rest : List Block) (a : ℕ) (m : Bytes)
    → IsFirst a b
    → a ≢ 0
    → AllEmpty rest
    → Returns (IsHeap a) (kfree addr (heap_of b rest a m))
unfolding kfree find_addr
kfree-heap_of addr b rest a m f ne empty = elim (Bool-cases (b.addr == addr)) [
  | inl hit ↦
      let c : Outcome Bytes = clear b.addr b.size (heap_of b rest a m) in
      rw (kfree, hit)
        (Returns-bind (IsHeap a) c _ (Returns-any c) (λ m' _. record {
          first = record b { free = true };
          rest = rest;
          table = refl;
          is_first = ground arith;
          empty = empty;
          nonnull = ne;
          start = refl;
        }))
  | inr miss ↦ elim (Option-cases (find_addr addr 1 rest)) [
    | inl nowhere ↦ rw (kfree, miss, nowhere) tt
    | inr (k, found) ↦
        let e : k ≡ suc (k - 1) = omega (arith, le-find_addr addr 1 k rest found) in
        let c : Outcome Bytes =
          clear (block_at rest (k - 1)).addr (block_at rest (k - 1)).size (heap_of b rest a m) in
        rw (kfree, miss, found, e)
          (Returns-bind (IsHeap a) c _ (Returns-any c) (λ m' _. record {
            first = b;
            rest = set_free rest (k - 1) true;
            table = refl;
            is_first = f;
            empty = set_free-AllEmpty (k - 1) rest empty;
            nonnull = ne;
            start = refl;
          }))
  ]
]

pub kfree-IsHeap : (addr : ℕ) {a : ℕ} {h : Heap} → IsHeap a h → Returns (IsHeap a) (kfree addr h)
kfree-IsHeap addr {a} {h} is =
    subst (λ g. Returns (IsHeap a) (kfree addr g)) (sym (eq-heap_of is))
      (kfree-heap_of addr is.first is.rest a h.mem is.is_first is.nonnull is.empty)
