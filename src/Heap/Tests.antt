-- ===== src/Heap/Tests.antt =====
-- The theorems on src/include/xheap.h for a heap of eight pages.
use dthreads.Base.{ℕ, ◌+◌, ◌≡◌, ◌&&◌, refl, some, List, [], ◌∷◌, arith, leb, ltb, if◌then◌else◌}
use dthreads.Heap.{Heap, round_up}
use dthreads.Heap.Bump.{IsHeap, bumps, bumps-tile, covers, needs}

abbrev small : Heap
small = record { start = 4096; position = 4096; remaining = 32768; magic = 3405691582 }

small-IsHeap : IsHeap small 32768
small-IsHeap = record {
  used = 0;
  free = 8;
  position = refl;
  remaining = refl;
  total = refl;
  bounded = omega arith;
}

bumps-tile_example :
    (blocks : List (ℕ × ℕ)) × (h' : Heap) × (bumps (100 ∷ 5000 ∷ []) small ≡ some (blocks, h'))
    × (h'.position ≡ 4096 + needs (100 ∷ 5000 ∷ []))
    × IsHeap h' 32768
    × ((x : ℕ) → covers x blocks ≡ (if leb 4096 x && ltb x h'.position then 1 else 0))
unfolding round_up
bumps-tile_example =
    bumps-tile (100 ∷ 5000 ∷ []) small-IsHeap
      (omega arith, omega arith, (omega arith, omega arith, 0)) (omega arith)
