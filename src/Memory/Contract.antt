-- ===== src/Memory/Contract.antt =====
-- What the allocation functions of src/source/libdthread.cpp promise to the program.
use dthreads.Base.{ℕ, ◌+◌, ◌<◌, ◌≡◌, ◌≢◌}
use dthreads.Memory.Alloc.{Allocator, Memory, memcpy}

module _ {S : Type 0} (h : Allocator S) where
  -- Every block in use before but `ptr` is in use afterwards, with its bytes.
  abbrev pub InUse : (ptr : ℕ) → Memory S → Memory S → Type 0
  InUse ptr m m' =
      (q k : ℕ)
      → h.Owns m.heaps q k
      → q ≢ ptr
      → h.Owns m'.heaps q k × ((j : ℕ) → j < k → m'.bytes (q + j) ≡ m.bytes (q + j))

  abbrev copied : (ptr c new : ℕ) (s : S) (b : ℕ → ℕ) → Memory S → Memory S
  copied ptr c new s b m = record m {
    heaps = (h.free m.heapid ptr s (memcpy new ptr c b)).0;
    bytes = (h.free m.heapid ptr s (memcpy new ptr c b)).1;
  }
