-- ===== src/Memory/Alloc.antt =====
-- `malloc`, `calloc`, `realloc`, `free` and `malloc_usable_size` of src/source/libdthread.cpp, down to
-- src/include/xrun.h and xmemory.h, over any heap that keeps its blocks apart.
use dthreads.Base.{
  ℕ, ◌+◌, ◌-◌, ◌*◌, ◌%◌, ◌^◌, ◌≤◌, ◌<◌, ◌≡◌, ◌≢◌, ◌⊎◌, Bool, ◌&&◌, Option, none, some, ◌==◌, ltb,
  leb, if◌then◌else◌, ◌>>=◌,
}

-- What these use of the heaps below, by the index of a heap: `none` is their `exit`. The heaps write to
-- memory, such as the header before a block. `Owns s q n` says that a block of `n` bytes at `q` is in use.
-- A new block is apart from those in use and is in use from then on; and a block in use stays so, and
-- keeps its bytes, while others are handed out and given back.
pub record Allocator (S : Type 0) : Type 1 where
  pub malloc : (heapid size : ℕ) → S → (ℕ → ℕ) → Option (ℕ × S × (ℕ → ℕ))
  pub free : (heapid ptr : ℕ) → S → (ℕ → ℕ) → S × (ℕ → ℕ)
  pub get_size : (ptr : ℕ) → S → ℕ
  pub Owns : S → (ptr size : ℕ) → Type 0
  pub sized : (s : S) (q n : ℕ) → Owns s q n → get_size q s ≡ n
  pub apart :
      (heapid size p q n : ℕ) (s s' : S) (b b' : ℕ → ℕ)
      → malloc heapid size s b ≡ some (p, s', b')
      → Owns s q n
      → (p + size ≤ q) ⊎ (q + n ≤ p)
  pub kept :
      (heapid size p q n : ℕ) (s s' : S) (b b' : ℕ → ℕ)
      → malloc heapid size s b ≡ some (p, s', b')
      → Owns s q n
      → Owns s' q n × ((j : ℕ) → j < n → b' (q + j) ≡ b (q + j))
  pub owned :
      (heapid size p : ℕ) (s s' : S) (b b' : ℕ → ℕ)
      → malloc heapid size s b ≡ some (p, s', b')
      → p ≢ 0
      → Owns s' p size
  pub freed :
      (heapid p m q n : ℕ) (s : S) (b : ℕ → ℕ)
      → Owns s p m
      → Owns s q n
      → q ≢ p
      → Owns (free heapid p s b).0 q n
        × ((j : ℕ) → j < n → (free heapid p s b).1 (q + j) ≡ b (q + j))

-- The heaps, the bytes of memory as the process reads them, and `_heapid`.
pub record Memory (S : Type 0) : Type 0 where
  pub heaps : S
  pub bytes : ℕ → ℕ
  pub heapid : ℕ

abbrev pub num_heaps : ℕ
num_heaps = 32

-- `memcpy` of blocks that do not overlap, and `memset` with zeros.
abbrev pub memcpy : (dest src n : ℕ) → (ℕ → ℕ) → ℕ → ℕ
memcpy dest src n bytes a =
    if leb dest a && ltb a (dest + n) then bytes (src + (a - dest)) else bytes a

abbrev pub memzero : (dest n : ℕ) → (ℕ → ℕ) → ℕ → ℕ
memzero dest n bytes a = if leb dest a && ltb a (dest + n) then 0 else bytes a

module _ {S : Type 0} (h : Allocator S) where
  -- `xmemory::setThreadIndex` on the index of the heap.
  unfoldable pub set_thread_index : (id : ℕ) → Memory S → Memory S
  set_thread_index id m = record m { heapid = id % num_heaps }

  unfoldable pub heap_malloc : (sz : ℕ) → Memory S → Option (ℕ × Memory S)
  heap_malloc sz m = do
    (ptr, s, b) ← h.malloc m.heapid sz m.heaps m.bytes
    some (ptr, record m { heaps = s; bytes = b })

  unfoldable pub heap_free : (ptr : ℕ) → Memory S → Memory S
  heap_free ptr m =
      let r = h.free m.heapid ptr m.heaps m.bytes in record m { heaps = r.0; bytes = r.1 }

  -- `xmemory::realloc`.
  unfoldable pub heap_realloc : (ptr sz : ℕ) → Memory S → Option (ℕ × Memory S)
  unfolding heap_malloc heap_free
  heap_realloc ptr sz m = do
    let s = h.get_size ptr m.heaps
    (newptr, m) ← heap_malloc sz m
    let copy_sz = if ltb s sz then s else sz
    let m = if newptr == 0 then m else record m { bytes = memcpy newptr ptr copy_sz m.bytes }
    some (newptr, heap_free ptr m)

  -- `xrun::realloc`.
  unfoldable pub run_realloc : (ptr sz : ℕ) → Memory S → Option (ℕ × Memory S)
  unfolding heap_realloc heap_malloc heap_free
  run_realloc ptr sz m =
      if ptr == 0
      then heap_malloc sz m
      else if sz == 0
      then some (0, heap_free ptr m)
      else heap_realloc ptr sz m

  -- `xrun::calloc`, in `size_t`.
  unfoldable pub run_calloc : (nmemb sz : ℕ) → Memory S → Option (ℕ × Memory S)
  unfolding heap_malloc
  run_calloc nmemb sz m = do
    let total = (nmemb * sz) % 2 ^ 64
    (ptr, m) ← heap_malloc total m
    some (ptr, record m { bytes = memzero ptr total m.bytes })

  -- The functions that the program calls; `fresh` is what `mmap` returns before the library has been
  -- initialised. `none` is also the `abort` when there is no memory.
  unfoldable pub malloc : (initialized : Bool) (fresh sz : ℕ) → Memory S → Option (ℕ × Memory S)
  unfolding heap_malloc
  malloc initialized fresh sz m = do
    (ptr, m) ← (if initialized then heap_malloc sz m else some (fresh, m))
    (if ptr == 0 then none else some (ptr, m))

  unfoldable pub calloc :
      (initialized : Bool) (fresh nmemb sz : ℕ) → Memory S → Option (ℕ × Memory S)
  unfolding run_calloc
  calloc initialized fresh nmemb sz m = do
    let total = (sz * nmemb) % 2 ^ 64
    (ptr, m) ←
        (if initialized
          then run_calloc nmemb sz m
          else some (fresh, record m { bytes = memzero fresh total m.bytes }))
    (if ptr == 0 then none else some (ptr, record m { bytes = memzero ptr total m.bytes }))

  unfoldable pub free : (initialized : Bool) (ptr : ℕ) → Memory S → Memory S
  unfolding heap_free
  free initialized ptr m = if initialized then heap_free ptr m else m

  unfoldable pub realloc : (initialized : Bool) (ptr sz : ℕ) → Memory S → Option (ℕ × Memory S)
  unfolding run_realloc
  realloc initialized ptr sz m = if initialized then run_realloc ptr sz m else some (0, m)

  unfoldable pub malloc_usable_size : (initialized : Bool) (ptr : ℕ) → Memory S → ℕ
  malloc_usable_size initialized ptr m = if initialized then h.get_size ptr m.heaps else 0
