-- ===== src/Determ/Barriers.antt =====
-- The barriers of src/include/determ.h. `barrier_wait` is cut at the wait on the real barrier.
pub mod Queue
use dthreads.Base.{
  ℕ, ◌+◌, ◌-◌, ◌%◌, ◌^◌, Bool, true, false, Option, none, some, ◌==◌, if◌then◌else◌, ◌>>=◌,
}
use dthreads.Base.Maps.{update}
use dthreads.Links.{Ptr, null, load_next, insert_tail, remove_entry, move_whole_list}
use dthreads.Fence.{add64, dec64, incr_fence, decr_fence}
use dthreads.Determ.{ThreadStatus, barr_waiting, ThreadEntry, BarrierEntry, Determ, entry_at}
use dthreads.Determ.Sync.{get_sync_entry, set_sync_entry, clear_sync_entry}

-- `fresh` is the entry that the internal heap returns; its NULL is only tested by an `assert`.
unfoldable pub barrier_init : (fresh bar : Ptr) (count : ℕ) → Determ → Option Determ
unfolding set_sync_entry
barrier_init fresh bar count d =
    if fresh == null
    then none
    else let d = set_sync_entry bar fresh (record d {
      barriers = update d.barriers fresh (record {
        maxthreads = count;
        threads = 0;
        arrival_phase = true;
        orig_barr = bar;
        head = null;
      });
    }) in
      some (record d { barriernum = add64 d.barriernum 1 })

-- The last thread to come to the barrier whose entry is at `c`.
unfoldable pub release_all : (threadindex : ℕ) (c : Ptr) → Determ → Option Determ
unfolding incr_fence
release_all threadindex c d = do
  let b = d.barriers c
  (head, links) ← move_whole_list d.tokenpos b.head d.links
  next ← load_next (entry_at threadindex) links
  some (record d {
    links = links;
    fence = incr_fence (dec64 b.maxthreads) d.fence;
    barriers = update d.barriers c (record b { head = head; threads = 0 });
    bitmap_cur = 1;
    tokenpos = next;
  })

-- Any other.
unfoldable pub stop_at : (threadindex : ℕ) (c : Ptr) → Determ → Option Determ
unfolding decr_fence
stop_at threadindex c d = do
  let entry = entry_at threadindex
  let b = d.barriers c
  next ← load_next entry d.links
  (active, links) ← remove_entry entry d.activelist d.links
  (head, links) ← insert_tail entry b.head links
  some (record d {
    links = links;
    activelist = active;
    barriers = update d.barriers c (record b { head = head; threads = add64 b.threads 1 });
    entries =
        update d.entries threadindex
          (record (d.entries threadindex) { status = barr_waiting; barrier = c });
    fence = decr_fence d.fence;
    tokenpos = next;
  })

-- The second value says whether the caller is the last.
unfoldable pub barrier_wait : (bar : Ptr) (threadindex : ℕ) → Determ → Option (Determ × Bool)
unfolding release_all stop_at get_sync_entry
barrier_wait bar threadindex d = do
  let c = get_sync_entry bar d
  let b = d.barriers c
  if c == null
      then none
      else if add64 b.threads 1 == b.maxthreads
      then (do d ← release_all threadindex c d; some (d, true))
      else (do d ← stop_at threadindex c d; some (d, false))

unfoldable pub barrier_destroy : (bar : Ptr) → Determ → Determ
unfolding clear_sync_entry
barrier_destroy bar d =
    let d = clear_sync_entry bar d in record d { barriernum = dec64 d.barriernum }
