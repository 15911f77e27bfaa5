-- ===== src/Memory/Globals.antt =====
-- The region of the globals in src/include/xglobals.h: the pages from the start of the data to the end
-- of the program.
use dthreads.Base.{
  ℕ, ◌+◌, ◌-◌, ◌*◌, ◌/◌, ◌%◌, ◌^◌, ◌<◌, ◌≤◌, ◌≡◌, ◌⊎◌, inl, inr, refl, Bool, true, false, Option,
  none, some, ◌&&◌, ltb, if◌then◌else◌, lt→ltb, le→not_ltb, arith, dec_lt,
}
use dthreads.Persist.{page_size}
use dthreads.Persist.Bitmap.{Bitmap}
use dthreads.Persist.Pages.{local_page}
use dthreads.Memory.{Region, make_globals, fresh_process, fresh_shared, offset_of}

-- `PAGE_ALIGN_DOWN` and `PAGE_ALIGN_UP`, which clear the lower 12 bits, in `size_t`.
unfoldable pub page_align_down : ℕ → ℕ
page_align_down x = (x / page_size) * page_size

unfoldable pub page_align_up : ℕ → ℕ
page_align_up x = (((x + (page_size - 1)) % 2 ^ 64) / page_size) * page_size

-- `GLOBALS_START`, `GLOBALS_END` and `GLOBALS_SIZE` of a program whose data starts at `data_start` and
-- which ends before `end_address`.
unfoldable pub globals_start : (data_start : ℕ) → ℕ
unfolding page_align_down
globals_start data_start = page_align_down data_start

unfoldable pub globals_end : (end_address : ℕ) → ℕ
unfolding page_align_up
globals_end end_address = page_align_up (end_address - 1)

unfoldable pub globals_size : (data_start end_address : ℕ) → ℕ
unfolding globals_start globals_end
globals_size data_start end_address = globals_end end_address - globals_start data_start

abbrev pub max_globals_size : ℕ
max_globals_size = 1048576 * 40

-- `xglobals` as it is constructed; its `assert` holds also with -DNDEBUG, and is an `abort`.
unfoldable pub xglobals :
    (pid data_start end_address : ℕ) (contents : ℕ → ℕ) → Bitmap → Option Region
unfolding make_globals globals_size
xglobals pid data_start end_address contents bitmap =
    let size = globals_size data_start end_address in
    if ltb max_globals_size size
    then none
    else make_globals pid (globals_start data_start) size max_globals_size contents bitmap

and_false : (b : Bool) → b && false ≡ false
and_false true = refl
and_false false = refl

start-aligned : (data_start : ℕ) → globals_start data_start % page_size ≡ 0
unfolding globals_start
start-aligned data_start = omega arith

starts :
    (data_start : ℕ)
    → (globals_start data_start ≤ data_start) × (data_start < globals_start data_start + page_size)
unfolding globals_start
starts data_start = (omega arith, omega arith)

module _ (data_start end_address : ℕ) (some_data : data_start < end_address)
    (l : end_address + page_size < 2 ^ 64) where
  size-aligned : globals_size data_start end_address % page_size ≡ 0
  unfolding globals_size
  size-aligned = omega arith

  ends :
      (end_address ≤ globals_start data_start + globals_size data_start end_address + 1)
      × (globals_start data_start + globals_size data_start end_address < end_address + page_size)
  unfolding globals_size
  ends = (omega arith, omega arith)

  covered :
      (a : ℕ)
      → data_start ≤ a
      → a < end_address
      → ((a + 1 ≡ end_address) × (a % page_size ≡ 0))
        ⊎ ((globals_start data_start ≤ a)
            × (a < globals_start data_start + globals_size data_start end_address))
  unfolding globals_size
  covered a from to = elim (dec_lt a (globals_end end_address)) [
    | yes q ↦ inr (omega arith, omega (arith, q))
    | no q ↦ inl (omega (arith, q), omega (arith, q))
  ]

-- The process reads its globals after `xglobals` has been put over them as it did before. The region is
-- of whole pages. It starts in the page in which the data starts, and ends less than a page after the
-- end of the program and at most one byte before it;
-- every byte of the data is in it, but for the last one of a program that ends one byte into a page;
-- if there is room for it, the constructor succeeds, and each byte of the region reads as it was.
pub xglobals-reads :
    (pid data_start end_address : ℕ) (contents : ℕ → ℕ) (bitmap : Bitmap)
    → data_start < end_address
    → end_address + page_size < 2 ^ 64
    → globals_size data_start end_address ≤ max_globals_size
    → (r : Region) × (xglobals pid data_start end_address contents bitmap ≡ some r)
      × (r.base % page_size ≡ 0)
      × (globals_size data_start end_address % page_size ≡ 0)
      × ((r.base ≤ data_start) × (data_start < r.base + page_size))
      × ((end_address ≤ r.base + globals_size data_start end_address + 1)
          × (r.base + globals_size data_start end_address < end_address + page_size))
      × ((a : ℕ)
          → data_start ≤ a
          → a < end_address
          → ((a + 1 ≡ end_address) × (a % page_size ≡ 0))
            ⊎ ((r.base ≤ a) × (a < r.base + globals_size data_start end_address)))
      × ((n j : ℕ)
          → j < page_size
          → offset_of n j < globals_size data_start end_address
          → local_page n r.process r.shared j ≡ contents (r.base + offset_of n j))
unfolding xglobals make_globals
xglobals-reads pid data_start end_address contents bitmap some_data l fits =
    let start = globals_start data_start in
    let size = globals_size data_start end_address in
    (
      record {
        base = start;
        size = max_globals_size;
        is_heap = false;
        process = fresh_process pid;
        shared =
            fresh_shared
              (λ n j. if ltb (offset_of n j) size then contents (start + offset_of n j) else 0)
              bitmap;
      },
      rw (le→not_ltb max_globals_size size fits, and_false (ltb 0 size)) refl,
      start-aligned data_start,
      size-aligned data_start end_address some_data l,
      starts data_start,
      ends data_start end_address some_data l,
      λ a from to. covered data_start end_address some_data l a from to,
      λ n j q inside. rw (lt→ltb (offset_of n j) size inside) refl,
    )
