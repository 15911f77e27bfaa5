-- ===== src/Memory.antt =====
-- src/include/xmemory.h and xglobals.h: the heap and the globals, each a region of pages of
-- src/include/xpersist.h, and what goes to which of them.
pub mod Alloc
pub mod Contract
pub mod Globals
pub mod Regions
mod Tests
use dthreads.Base.{
  ℕ, ◌+◌, ◌-◌, ◌*◌, ◌/◌, ◌%◌, ◌^◌, Bool, true, false, not, ◌&&◌, Option, none, some, [], ltb, leb,
  ◌==◌, if◌then◌else◌, ◌>>=◌,
}
use dthreads.Persist.{Bytes, page_size}
use dthreads.Persist.Bitmap.{Bitmap}
use dthreads.Persist.Pages.{
  access_none, prot_write, Shared, Process, handle_write, compute_page, signal_handler,
}
use dthreads.Persist.Commit.{checkandcommit, update_all}
use dthreads.Persist.Owned.{final_commit, cleanup_owned_blocks, open_protection}

-- An object of `xpersist`: what the process has of its own, and what all processes share.
pub record Region : Type 0 where
  pub base : ℕ
  pub size : ℕ
  pub is_heap : Bool
  pub process : Process
  pub shared : Shared

-- The address of a byte of a page, from the base.
abbrev pub offset_of : (page_no j : ℕ) → ℕ
offset_of page_no j = page_no * page_size + j

-- The fields of the process and of the shared memory after the constructor: the mappings are fresh, and
-- the transient memory is still the shared one.
abbrev pub fresh_process : (pid : ℕ) → Process
fresh_process pid = record {
  pid = pid;
  is_protected = false;
  copies = λ _. none;
  protection = λ _. prot_write;
  page_info = λ _. access_none;
  dirty = [];
  trans = 0;
  owned_block_info = λ _. 0;
  owned_blocks = 0;
}

abbrev pub fresh_shared : (persistent : ℕ → Bytes) → Bitmap → Shared
fresh_shared persistent bitmap = record {
  persistent = persistent;
  versions = λ _. 0;
  users = λ _. 0;
  bitmap_index = λ _. 0;
  page_owner = λ _. 0;
  bitmap = bitmap;
}

-- The constructor for the globals, which are `startsize` bytes at `startaddr`; `none` is the `abort` of
-- a region that is too small. `contents` is what is in memory at an address.
unfoldable pub make_globals :
    (pid startaddr startsize size : ℕ) (contents : ℕ → ℕ) → Bitmap → Option Region
make_globals pid startaddr startsize size contents bitmap =
    if ltb 0 startsize && ltb size startsize
    then none
    else some (record {
      base = startaddr;
      size = size;
      is_heap = false;
      process = fresh_process pid;
      shared =
          fresh_shared
            (λ n j.
              if ltb (offset_of n j) startsize then contents (startaddr + offset_of n j) else 0)
            bitmap;
    })

-- The constructor for the heap, which `mmap` puts at `base`.
unfoldable pub make_heap : (pid base size : ℕ) → Bitmap → Region
make_heap pid base size bitmap = record {
  base = base;
  size = size;
  is_heap = true;
  process = fresh_process pid;
  shared = fresh_shared (λ n j. 0) bitmap;
}

unfoldable pub in_range : (addr : ℕ) → Region → Bool
in_range addr r = leb r.base addr && ltb addr (r.base + r.size)

-- `mem_write`: a word of 8 bytes, the lowest first, into the shared memory.
unfoldable pub region_mem_write : (addr val : ℕ) → Region → Region
region_mem_write addr val r =
    let offset = addr - r.base in
    record r {
      shared = record r.shared {
        persistent = λ n j.
            if leb offset (offset_of n j) && ltb (offset_of n j) (offset + 8)
            then (val / 256 ^ (offset_of n j - offset)) % 256
            else r.shared.persistent n j;
      };
    }

-- `closeProtection`: all pages are mapped again as the shared ones.
unfoldable pub close_protection : Region → Region
close_protection r = record r {
  process = record r.process {
    copies = λ _. none;
    protection = λ _. prot_write;
    is_protected = false;
  };
}

unfoldable pub finalize : Region → Region
unfolding close_protection
finalize r = if r.process.is_protected then close_protection r else r

unfoldable pub open_region : (alloc_size : ℕ) → Region → Option Region
unfolding open_protection
open_region alloc_size r = do
  (p, s) ← open_protection r.is_heap alloc_size r.process r.shared
  some (record r { process = p; shared = s })

-- `xmemory`.
pub record Memory : Type 0 where
  pub pheap : Region
  pub globals : Region

unfoldable pub open_memory : (alloc_size : ℕ) → Memory → Option Memory
unfolding open_region
open_memory alloc_size m = do
  globals ← open_region 0 m.globals
  pheap ← open_region alloc_size m.pheap
  some (record { globals = globals; pheap = pheap })

unfoldable pub close_memory : Memory → Memory
unfolding close_protection
close_memory m = record { globals = close_protection m.globals; pheap = close_protection m.pheap }

unfoldable pub memory_mem_write : (dest val : ℕ) → Memory → Memory
unfolding in_range region_mem_write
memory_mem_write dest val m =
    if in_range dest m.pheap
    then record m { pheap = region_mem_write dest val m.pheap }
    else if in_range dest m.globals
    then record m { globals = region_mem_write dest val m.globals }
    else m

-- `handleWrite` of one region; the last value says whether the process waits for an owner.
unfoldable pub region_handle_write : (addr : ℕ) (release : Bool) → Region → Region × Bool
unfolding handle_write compute_page
region_handle_write addr release r =
    let h = handle_write (compute_page (addr - r.base)) true release r.process r.shared in
    (record r { process = h.0; shared = h.1 }, h.2)

unfoldable pub memory_handle_write : (addr : ℕ) (release : Bool) → Memory → Memory × Bool
unfolding in_range region_handle_write
memory_handle_write addr release m =
    if in_range addr m.pheap
    then (let h = region_handle_write addr release m.pheap in (record m { pheap = h.0 }, h.1))
    else if in_range addr m.globals
    then (let h = region_handle_write addr release m.globals in (record m { globals = h.0 }, h.1))
    else (m, false)

-- `siginfo->si_code`, and `segvHandle`: `none` is the `abort`.
pub data SegvCode : Type 0 where
  accerr maperr other : SegvCode

unfoldable pub segv_handle :
    SegvCode → (addr : ℕ) (release : Bool) → Memory → Option (Memory × Bool)
unfolding memory_handle_write
segv_handle accerr addr release m = some (memory_handle_write addr release m)
segv_handle maperr addr release m = none
segv_handle other addr release m = none

unfoldable pub commit_region : (update : Bool) → Region → Option Region
unfolding checkandcommit
commit_region update r = do
  (p, s) ← checkandcommit update r.process r.shared
  some (record r { process = p; shared = s })

-- `commit`: the heap, then the globals.
unfoldable pub commit : (update : Bool) → Memory → Option Memory
unfolding commit_region
commit update m = do
  pheap ← commit_region update m.pheap
  globals ← commit_region update m.globals
  some (record { pheap = pheap; globals = globals })

unfoldable pub begin : (cleanup : Bool) → Memory → Memory
unfolding update_all
begin cleanup m = record {
  globals = record m.globals { process = update_all cleanup m.globals.process };
  pheap = record m.pheap { process = update_all cleanup m.pheap.process };
}

-- What only the heap has.
unfoldable pub memory_final_commit : (release : Bool) → Memory → Memory
unfolding final_commit
memory_final_commit release m =
    let r = final_commit release m.pheap.process m.pheap.shared in
    record m { pheap = record m.pheap { process = r.0; shared = r.1 } }

unfoldable pub memory_cleanup_owned_blocks : Memory → Memory
unfolding cleanup_owned_blocks
memory_cleanup_owned_blocks m = record m {
  pheap = record m.pheap { process = cleanup_owned_blocks m.pheap.process };
}
