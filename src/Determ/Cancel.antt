-- ===== src/Determ/Cancel.antt =====
-- `cancel` of src/include/determ.h, which `pthread_cancel` calls with the index of the thread.
pub mod Waiter
use dthreads.Base.{
  ℕ, ◌-◌, ◌+◌, ◌%◌, ◌^◌, Bool, true, false, Option, none, some, ◌==◌, if◌then◌else◌, ◌>>=◌,
}
use dthreads.Base.Maps.{update}
use dthreads.Links.{Ptr, null, remove_entry}
use dthreads.Fence.{Fence, dec64}
use dthreads.Determ.{ThreadStatus, ThreadEntry, CondEntry, Determ, entry_at, free_thread_entry}

-- The fence and the number of alive threads, when the thread has been found.
unfoldable pub forget : (threadindex : ℕ) → Determ → Determ
unfolding free_thread_entry
forget threadindex d =
    let f = d.fence in
    let f =
      if (d.entries threadindex).wait == 1
      then record f { currthreads = dec64 f.currthreads; maxthreads = dec64 f.maxthreads }
      else f in
    let f = if f.maxthreads == 1 then record f { is_arrival_phase = true } else f in
    free_thread_entry threadindex (record d { alivethreads = dec64 d.alivethreads; fence = f })

unfoldable pub cancel_in : (threadindex : ℕ) → ThreadStatus → Determ → Option (Determ × Bool)
unfolding forget
cancel_in threadindex ThreadStatus.cond_waiting d = do
  let c = (d.entries threadindex).cond
  if c == null then none else (do
    (head, links) ← remove_entry (entry_at threadindex) (d.conds c).head d.links
    some (
      forget threadindex (record d {
        links = links;
        conds = update d.conds c (record (d.conds c) { head = head });
      }),
      true,
    ))
cancel_in threadindex ThreadStatus.exited d = some (d, false)
cancel_in threadindex ThreadStatus.barr_waiting d = some (d, false)
cancel_in threadindex ThreadStatus.ready d = some (d, false)
cancel_in threadindex ThreadStatus.joining d = some (d, false)

unfoldable pub cancel : (threadindex : ℕ) → Determ → Option (Determ × Bool)
unfolding cancel_in
cancel threadindex d = cancel_in threadindex (d.entries threadindex).status d
