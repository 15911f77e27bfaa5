-- ===== src/Heap.antt =====
-- src/include/xheap.h: the heap that all processes share hands out whole pages from a bump pointer.
-- `none` is the `exit` when the memory is used up, or the `abort` when the magic word is damaged.
pub mod Bump
pub mod Objects
mod Tests
use dthreads.Base.{
  ℕ, zero, suc, ◌+◌, ◌-◌, ◌*◌, ◌/◌, ◌%◌, ◌^◌, Bool, Option, none, some, ◌==◌, ltb, if◌then◌else◌,
  ◌>>=◌,
}
use dthreads.Persist.{page_size}
use dthreads.Persist.Pages.{Process, Shared}
use dthreads.Persist.Owned.{set_owned_page}

-- `magic` is the word that is checked on each call.
pub record Heap : Type 0 where
  pub start : ℕ
  pub position : ℕ
  pub remaining : ℕ
  pub magic : ℕ

abbrev pub heap_magic : ℕ
heap_magic = 3405691582

-- The constructor, for the region of `size` bytes at `base`.
unfoldable pub make : (base size : ℕ) → Heap
make base size = record { start = base; position = base; remaining = size; magic = heap_magic }

unfoldable pub sanity_check : Heap → Option Heap
sanity_check h = if h.magic == heap_magic then some h else none

-- The size rounded up to pages, in `size_t`.
unfoldable pub round_up : ℕ → ℕ
round_up sz = page_size * (((sz + (page_size - 1)) % 2 ^ 64) / page_size)

-- `malloc` under the mutex: the block and the heap.
unfoldable pub bump : (sz : ℕ) → Heap → Option (ℕ × Heap)
unfolding round_up
bump sz h =
    let sz = round_up sz in
    if h.remaining == 0
    then none
    else if ltb h.remaining sz
    then none
    else some (h.position, record h { remaining = h.remaining - sz; position = h.position + sz })

-- The whole `malloc`: the caller owns the pages of the block.
unfoldable pub malloc : (sz : ℕ) → Heap → Process → Shared → Option (ℕ × Heap × Process × Shared)
unfolding sanity_check bump set_owned_page round_up
malloc sz h p s = do
  h ← sanity_check h
  (block, h) ← bump sz h
  (p, s) ← set_owned_page (block - h.start) (round_up sz) p s
  some (block, h, p, s)

unfoldable pub get_end : Heap → ℕ
get_end h = h.position
