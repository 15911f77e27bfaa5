-- ===== src/Memory/Regions.antt =====
-- When the memory of a process becomes protected in src/include/xmemory.h, and the first faults after.
use dthreads.Base.{
  ℕ, ◌+◌, ◌-◌, ◌/◌, ◌%◌, ◌^◌, ◌<◌, ◌≤◌, ◌≡◌, ◌≢◌, refl, Bool, true, false, none, some, arith, leb,
}
use dthreads.Base.Maps.{update, update_self, update_ne}
use dthreads.Persist.{page_size}
use dthreads.Persist.Pages.{
  access_none, access_read, Protection, prot_none, prot_read, prot_write, shared_page, local_page,
  increment_users, insert_dirty, compute_page, int_version,
}
use dthreads.Persist.Commit.Faults.{fault-run}
use dthreads.Persist.Commit.Step.{entry_of}
use dthreads.Persist.Owned.{fill, open_protection}
use dthreads.Memory.{
  Region, Memory, in_range, open_region, open_memory, segv_handle, accerr, maperr,
  memory_handle_write, region_handle_write,
}

-- The globals after `openProtection`: no page has an owner, every page is read-only, and reads as the
-- shared one.
pub record IsOpened (r r' : Region) : Type 0 where
  pub pid : r'.process.pid ≡ r.process.pid
  pub base : r'.base ≡ r.base
  pub size : r'.size ≡ r.size
  pub free : (n : ℕ) → r'.shared.page_owner n ≡ shared_page
  pub info : (n : ℕ) → r'.process.page_info n ≡ access_read
  pub protection : (n : ℕ) → r'.process.protection n ≡ prot_read
  pub reads : (n : ℕ) → local_page n r'.process r'.shared ≡ r.shared.persistent n

-- The heap after `openProtection`: a page that has been handed out is shared and read-only, and another
-- one has no access at all.
abbrev heap_opened : (alloc_size : ℕ) → Region → Region
heap_opened alloc_size r = record r {
  process = record r.process {
    copies = λ _. none;
    protection = fill 0 (alloc_size / page_size) prot_read (λ _. prot_none);
    page_info = fill 0 (alloc_size / page_size) access_read (λ _. access_none);
    is_protected = true;
    owned_blocks = 0;
    trans = 0;
  };
  shared = record r.shared { page_owner = fill 0 (alloc_size / page_size) shared_page (λ _. 0) };
}

open_region-heap :
    (alloc_size : ℕ) (r : Region)
    → r.is_heap ≡ true
    → alloc_size < 2 ^ 31
    → open_region alloc_size r ≡ some (heap_opened alloc_size r)
unfolding open_region open_protection
open_region-heap alloc_size r e l =
    let low : alloc_size % 2 ^ 32 ≡ alloc_size = omega (arith, l) in
    let short : leb (2 ^ 31) alloc_size ≡ false = ground (arith, l) in rw (low, e, short) refl

-- A heap of which 2 GiB or more have been handed out cannot be protected.
open_region-exits :
    (alloc_size : ℕ) (r : Region)
    → r.is_heap ≡ true
    → 2 ^ 31 ≤ alloc_size
    → alloc_size < 2 ^ 32
    → open_region alloc_size r ≡ none
unfolding open_region open_protection
open_region-exits alloc_size r e l k =
    let low : alloc_size % 2 ^ 32 ≡ alloc_size = omega (arith, k) in
    let long : leb (2 ^ 31) alloc_size ≡ true = ground (arith, l) in rw (low, e, long) refl

-- The region after a fault on a page that is read-only and has no owner.
abbrev faulted : (addr : ℕ) (release : Bool) → Region → Region
faulted addr release r =
    let n = compute_page (addr - r.base) in
    record r {
      process = record r.process {
        protection = update r.process.protection n prot_write;
        dirty =
            insert_dirty (entry_of n (int_version (r.shared.versions n)) release) r.process.dirty;
      };
      shared = increment_users n r.shared;
    }

shared_fault :
    (addr : ℕ) (release : Bool) (r : Region)
    → r.process.pid ≢ shared_page
    → r.shared.page_owner (compute_page (addr - r.base)) ≡ shared_page
    → r.process.page_info (compute_page (addr - r.base)) ≡ access_read
    → region_handle_write addr release r ≡ (faulted addr release r, false)
unfolding region_handle_write
shared_fault addr release r mine free reads =
    let n = compute_page (addr - r.base) in
    let run =
      fault-run n (int_version (r.shared.versions n)) release r.process r.shared reads mine free
        refl in
    λ i. (record r { process = (run i).0; shared = (run i).1 }, (run i).2)

abbrev opened_globals : Region → Region
opened_globals r = record r {
  process = record r.process {
    copies = λ _. none;
    protection = λ _. prot_read;
    page_info = λ _. access_read;
    is_protected = true;
    owned_blocks = 0;
    trans = 0;
  };
  shared = record r.shared { page_owner = λ _. shared_page };
}

open_region-globals : (r : Region) → r.is_heap ≡ false → open_region 0 r ≡ some (opened_globals r)
unfolding open_region open_protection
open_region-globals r e = rw e refl

-- What the fault at `addr` makes of opened memory with the globals `g`.
abbrev Faulted : (addr : ℕ) (release : Bool) (g : Region) → Memory → Type 0
Faulted addr release g m =
    IsOpened g m.globals
    × (m' : Memory) × (segv_handle accerr addr release m ≡ some (m', false))
    × (m'.pheap ≡ m.pheap)
    × (m'.globals.process.protection (compute_page (addr - g.base)) ≡ prot_write)
    × (m'.globals.shared.users (compute_page (addr - g.base))
        ≡ (g.shared.users (compute_page (addr - g.base)) + 1) % 2 ^ 16)
    × ((n : ℕ) → n ≢ compute_page (addr - g.base) → m'.globals.process.protection n ≡ prot_read)
    × ((n : ℕ) → local_page n m'.globals.process m'.globals.shared ≡ g.shared.persistent n)
    × (segv_handle maperr addr release m ≡ none)

fault_of :
    (addr : ℕ) (release : Bool) (g h : Region)
    → g.process.pid ≢ shared_page
    → in_range addr h ≡ false
    → in_range addr g ≡ true
    → Faulted addr release g (record { globals = opened_globals g; pheap = h })
unfolding segv_handle memory_handle_write increment_users in_range
fault_of addr release g h mine out inside =
    let n = compute_page (addr - g.base) in
    let run = shared_fault addr release (opened_globals g) mine refl refl in
    (
      record {
        pid = refl;
        base = refl;
        size = refl;
        free = λ n. refl;
        info = λ n. refl;
        protection = λ n. refl;
        reads = λ n. refl;
      },
      record { globals = faulted addr release (opened_globals g); pheap = h },
      rw (out, inside) (λ i. some (record { globals = (run i).0; pheap = h }, (run i).1)),
      refl,
      update_self {A = Protection} (λ _. prot_read) n prot_write,
      update_self g.shared.users n ((g.shared.users n + 1) % 2 ^ 16),
      λ k d. update_ne {A = Protection} (λ _. prot_read) n k prot_write d,
      λ k. refl,
      refl,
    )

-- The first store to the globals after the memory has been protected, at `addr`, which is not in the
-- heap, when less than 2 GiB of the heap have been handed out: the memory can be protected; the store
-- faults, since every page is read-only then, and no page has an owner; the fault goes to the globals
-- and leaves the heap as it is; it does not wait; the page of the address, and no other, becomes
-- writable; there is one more user of it; and every page reads as it did before the memory was
-- protected. A fault on memory that is not mapped ends the process.
pub segv_handle-globals :
    (alloc_size addr : ℕ) (release : Bool) (m : Memory)
    → m.globals.is_heap ≡ false
    → m.pheap.is_heap ≡ true
    → alloc_size < 2 ^ 31
    → m.globals.process.pid ≢ shared_page
    → in_range addr m.pheap ≡ false
    → in_range addr m.globals ≡ true
    → (opened : Memory) × (open_memory alloc_size m ≡ some opened)
      × IsOpened m.globals opened.globals
      × (m' : Memory) × (segv_handle accerr addr release opened ≡ some (m', false))
      × (m'.pheap ≡ opened.pheap)
      × (m'.globals.process.protection (compute_page (addr - m.globals.base)) ≡ prot_write)
      × (m'.globals.shared.users (compute_page (addr - m.globals.base))
          ≡ (m.globals.shared.users (compute_page (addr - m.globals.base)) + 1) % 2 ^ 16)
      × ((n : ℕ)
          → n ≢ compute_page (addr - m.globals.base)
          → m'.globals.process.protection n ≡ prot_read)
      × ((n : ℕ)
          → local_page n m'.globals.process m'.globals.shared ≡ m.globals.shared.persistent n)
      × (segv_handle maperr addr release opened ≡ none)
unfolding open_memory in_range
segv_handle-globals alloc_size addr release m e heap l mine out inside =
    let f = fault_of addr release m.globals (heap_opened alloc_size m.pheap) mine out inside in
    (
      record { globals = opened_globals m.globals; pheap = heap_opened alloc_size m.pheap },
      rw (open_region-globals m.globals e, open_region-heap alloc_size m.pheap heap l) refl,
      f.0,
      f.1,
      f.2,
      f.3,
      f.4,
      f.5,
      f.6,
      f.7,
      f.8,
    )
