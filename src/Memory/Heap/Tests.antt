-- ===== src/Memory/Heap/Tests.antt =====
-- Runs of the heap, and its theorems at concrete states.
use h3os.Base.{◌+◌, ◌≡◌, refl, arith, true, false, [], ◌∷◌, ◌==◌, if◌then◌else◌, u64}
use h3os.Memory.Pmm.{Pmm}
use h3os.Memory.Heap.{Heap, magic_number, rounded, kmalloc, kfree, use_block}
use h3os.Memory.Heap.Chain.{IsChain}
use h3os.Memory.Heap.Alloc.{Serves, kmalloc-Serves, use_block-Cut}
use h3os.Memory.Heap.Fit.{Cut}
use h3os.Memory.Heap.Release.{Joined, kfree-Joined}

abbrev no_pages : Pmm
no_pages = record { page_bitmap = λ _. 255; total_pages = 0; used_pages = 0; highest_page = 0 }

-- A block in use at 0x1000, the last of its region, and a free one of another region at 0x9000.
abbrev two_regions : Heap
two_regions = record {
  mem = λ a.
      if a == 0x1000
      then record { magic = magic_number; size = 64; free = false; next = 0x9000; prev = 0 }
      else record { magic = magic_number; size = 1000; free = true; next = 0; prev = 0x1000 };
  heap_head = 0x1000;
  heap_used = 64;
  heap_total = 1144;
  heap_allocs = 1;
  pmm = no_pages;
}

two_regions-IsChain : IsChain two_regions.mem 0x1000 (0x1000 ∷ 0x9000 ∷ [])
two_regions-IsChain = (refl, omega arith, refl, (refl, omega arith, refl, refl))

kmalloc-Serves_example :
    Serves two_regions (rounded 100) (0x1000 ∷ 0x9000 ∷ []) (kmalloc 10 two_regions 100)
kmalloc-Serves_example =
    kmalloc-Serves 10 two_regions 100 (0x1000 ∷ 0x9000 ∷ []) two_regions-IsChain (omega arith)
      (omega arith) (omega arith)

use_block-Cut_example :
    let t = use_block two_regions 0x9000 112 in
    Cut two_regions.mem t.mem t.heap_head 0x9000 112 (0x1000 ∷ []) []
    × ((t.mem 0x9000).free ≡ false)
    × (t.heap_used ≡ u64 (64 + (t.mem 0x9000).size))
use_block-Cut_example =
    use_block-Cut two_regions 0x9000 112 (0x1000 ∷ []) [] two_regions-IsChain (refl, (refl, tt))
      ((omega arith, tt), (tt, tt)) (omega arith) (omega arith) ((omega arith, omega arith), tt) tt

-- The joined block would have to end at 0x9000 + 1040, and does not.
kfree-Joined_example : Joined two_regions 0x1000 (kfree two_regions 0x1028)
kfree-Joined_example =
    kfree-Joined two_regions 0x1000 refl refl refl (omega arith) (omega arith) refl (omega arith)
      (omega arith)
