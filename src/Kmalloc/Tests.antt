-- ===== src/Kmalloc/Tests.antt =====
-- Runs of the allocator, and instances of its theorems.
use lord.Prelude.{ℕ, ◌≡◌, refl, ◌≢◌, true, false, arith, leb, if◌then◌else◌}
use lord.Kernel.{done, killed, fault}
use lord.Str.{Bytes, memset}
use lord.Kmalloc.{
  Heap, unused, kernel_heap_size, empty_rest, kernel_heap_init, kmalloc, kfree, krealloc, block_at,
  available,
}
use lord.Kmalloc.Inv.{heap_of}
use lord.Kmalloc.Alias.{Reach, kmalloc-same_address, krealloc_grows, krealloc-overruns}

abbrev pub sevens : Bytes
sevens x = 7

-- A heap at 0x1000 with 16 bytes in use.
abbrev pub booted : Heap
booted = heap_of (record unused { free = true }) empty_rest 0x1000 sevens

abbrev in_use : Heap
in_use =
    heap_of (record { addr = 0x1000; size = 16; free = false }) empty_rest 0x1000
      (memset 0x1000 0 16 sevens)

pub booted-Reach : Reach 1 0x1000 sevens booted
unfolding kernel_heap_init
booted-Reach = Reach.init refl

kmalloc_runs : kmalloc 16 booted ≡ done (0x1000, in_use)
unfolding kmalloc empty_rest
kmalloc_runs = refl

in_use-Reach : Reach 1 0x1000 sevens in_use
in_use-Reach = Reach.alloc 16 booted-Reach kmalloc_runs

kfree_runs : kfree 0x2000 in_use ≡ killed
unfolding kfree empty_rest
kfree_runs = refl

kmalloc-same_address_example :
    (g : Heap) × (kmalloc 32 in_use ≡ (if leb 32 kernel_heap_size then done (0x1000, g) else fault))
    × (◌≢◌ {A = ℕ} 0x1000 0)
kmalloc-same_address_example = kmalloc-same_address 32 in_use-Reach

krealloc_grows_example :
    (g : Heap) × (krealloc 0x1000 64 in_use ≡ done (0x1000, g))
    × (g.mem ≡ in_use.mem)
    × ((block_at g.blocks 0).size ≡ 64)
unfolding available
krealloc_grows_example = krealloc_grows 64 in_use-Reach refl (omega arith) (omega arith)

krealloc-overruns_example : krealloc 0x1000 0x10000001 in_use ≡ fault
unfolding available
krealloc-overruns_example = krealloc-overruns 0x10000001 in_use-Reach refl (omega arith)
