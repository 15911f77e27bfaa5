-- ===== src/Memory/Tests/Regions.antt =====
-- The theorems on src/include/xmemory.h and xglobals.h for a program with its data from 24600 up to 33000.
use dthreads.Base.{
  ℕ, ◌+◌, ◌-◌, ◌%◌, ◌^◌, ◌<◌, ◌≤◌, ◌≡◌, ◌≢◌, ◌⊎◌, refl, true, false, none, some, arith,
}
use dthreads.Persist.{page_size}
use dthreads.Persist.Pages.{prot_read, prot_write, compute_page, local_page}
use dthreads.Persist.Bitmap.{Bitmap}
use dthreads.Memory.{
  Region, Memory, fresh_process, fresh_shared, offset_of, in_range, open_memory, segv_handle,
  accerr, maperr,
}
use dthreads.Memory.Globals.{globals_size, xglobals, xglobals-reads}
use dthreads.Memory.Regions.{IsOpened, segv_handle-globals}

abbrev twins : Bitmap
twins = record { cur = 1; mem = λ a. 0 }

xglobals-reads_example :
    (r : Region) × (xglobals 10 24600 33000 (λ a. a % 256) twins ≡ some r)
    × (r.base % page_size ≡ 0)
    × (globals_size 24600 33000 % page_size ≡ 0)
    × ((r.base ≤ 24600) × (24600 < r.base + page_size))
    × ((33000 ≤ r.base + globals_size 24600 33000 + 1)
        × (r.base + globals_size 24600 33000 < 33000 + page_size))
    × ((a : ℕ)
        → 24600 ≤ a
        → a < 33000
        → ((a + 1 ≡ 33000) × (a % page_size ≡ 0))
          ⊎ ((r.base ≤ a) × (a < r.base + globals_size 24600 33000)))
    × ((n j : ℕ)
        → j < page_size
        → offset_of n j < globals_size 24600 33000
        → local_page n r.process r.shared j ≡ (r.base + offset_of n j) % 256)
unfolding globals_size
xglobals-reads_example =
    xglobals-reads 10 24600 33000 (λ a. a % 256) twins (omega arith) (omega arith) (omega arith)

abbrev memory : Memory
memory = record {
  globals = record {
    base = 24576;
    size = 41943040;
    is_heap = false;
    process = fresh_process 10;
    shared = fresh_shared (λ n j. 7) twins;
  };
  pheap = record {
    base = 1073741824;
    size = 4294967296;
    is_heap = true;
    process = fresh_process 10;
    shared = fresh_shared (λ n j. 0) twins;
  };
}

segv_handle-globals_example :
    (opened : Memory) × (open_memory 65536 memory ≡ some opened)
    × IsOpened memory.globals opened.globals
    × (m' : Memory) × (segv_handle accerr 30000 false opened ≡ some (m', false))
    × (m'.pheap ≡ opened.pheap)
    × (m'.globals.process.protection (compute_page (30000 - 24576)) ≡ prot_write)
    × (m'.globals.shared.users (compute_page (30000 - 24576)) ≡ (0 + 1) % 2 ^ 16)
    × ((n : ℕ) → n ≢ compute_page (30000 - 24576) → m'.globals.process.protection n ≡ prot_read)
    × ((n : ℕ)
        → local_page n m'.globals.process m'.globals.shared ≡ memory.globals.shared.persistent n)
    × (segv_handle maperr 30000 false opened ≡ none)
unfolding in_range
segv_handle-globals_example =
    segv_handle-globals 65536 30000 false memory refl refl (omega arith) (omega arith) refl refl
