-- ===== src/Memory/Heap/Tests.antt =====
-- The allocator on a heap of one region of 256 bytes.
use lsd_limine.Prelude.{[], ◌∷◌, arith, refl, Returns, ok, inr, ◌≡◌}
use lsd_limine.Memory.Heap.{Heap, Layout, node, alloc, dealloc}
use lsd_limine.Memory.Heap.Region.{IsHeap}
use lsd_limine.Memory.Heap.Alloc.{IsLayout, Allocated, alloc-Allocated, dealloc-ok}

abbrev one_region : Heap
one_region = node 0x1008 256 ∷ []

abbrev forty : Layout
forty = record { size = 40; align = 16 }

forty-IsLayout : IsLayout forty 4
forty-IsLayout = record { power = refl; small = omega arith; room = omega arith }

one_region-IsHeap : IsHeap one_region
one_region-IsHeap = (
  (record { above = omega arith; aligned = refl; holds = omega arith; below = omega arith }, tt),
  tt,
)

alloc_example : Returns (λ (p, h'). Allocated one_region 48 4 p h') (alloc forty one_region)
alloc_example =
    alloc-Allocated forty 4 one_region forty-IsLayout one_region-IsHeap (omega arith, tt)

given : IsHeap (node 0x2000 48 ∷ one_region)
given = (
  (
    record { above = omega arith; aligned = refl; holds = omega arith; below = omega arith },
    (inr (omega arith), tt),
  ),
  one_region-IsHeap,
)

dealloc_example : dealloc 0x2000 forty one_region ≡ ok (node 0x2000 48 ∷ one_region)
dealloc_example = dealloc-ok forty 4 0x2000 one_region forty-IsLayout given
