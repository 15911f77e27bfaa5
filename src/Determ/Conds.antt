-- ===== src/Determ/Conds.antt =====
-- The condition variables of src/include/determ.h. A function that blocks is cut where it gives the
-- mutex back: what it does before it waits, and what it does after it has woken.
pub mod Queue
pub mod Signal
pub mod Broadcast
pub mod Wake
pub mod Repeat
use dthreads.Base.{
  ℕ, zero, suc, ◌+◌, ◌-◌, ◌%◌, ◌^◌, Bool, true, false, not, ◌&&◌, Option, none, some, ◌==◌,
  if◌then◌else◌, ◌>>=◌,
}
use dthreads.Base.Maps.{update}
use dthreads.Links.{
  Ptr, null, load_next, insert_tail, insert_head, remove_entry, remove_head_entry, move_whole_list,
}
use dthreads.Fence.{add64, dec64, incr_fence, decr_fence}
use dthreads.Determ.{
  ThreadStatus, ready, cond_waiting, ThreadEntry, CondEntry, Determ, entry_at, index_of, set_entry,
  set_status,
}
use dthreads.Determ.Sync.{get_sync_entry, set_sync_entry, clear_sync_entry}
use dthreads.Determ.Locks.{lock_release, lock_acquire}

abbrev pub is_ready : ThreadStatus → Bool
is_ready ready = true
is_ready _ = false

unfoldable pub cond_init : (fresh cond : Ptr) → Determ → Option (Determ × Ptr)
unfolding set_sync_entry
cond_init fresh cond d =
    if fresh == null
    then none
    else some (
      set_sync_entry cond fresh (record d {
        condnum = add64 d.condnum 1;
        conds = update d.conds fresh (record { waiters = 0; head = null; cond = cond });
      }),
      fresh,
    )

unfoldable pub cond_destroy : (cond : Ptr) → Determ → Determ
unfolding clear_sync_entry
cond_destroy cond d = clear_sync_entry cond (record d { condnum = dec64 d.condnum })

-- The entry of a condition variable, made if there is none.
unfoldable pub cond_entry : (fresh cond : Ptr) → Determ → Option (Determ × Ptr)
unfolding cond_init get_sync_entry
cond_entry fresh cond d =
    let entry = get_sync_entry cond d in
    if entry == null then cond_init fresh cond d else some (d, entry)

-- `cond_wait` on the entry `c`, up to the wait on the real condition variable.
unfoldable pub wait_on : (threadindex : ℕ) (c thelock : Ptr) → Determ → Option Determ
unfolding decr_fence
wait_on threadindex c thelock d = do
  let entry = entry_at threadindex
  next ← load_next entry d.links
  (active, links) ← remove_entry entry d.activelist d.links
  (head, links) ← insert_tail entry (d.conds c).head links
  lock_release thelock (record d {
    links = links;
    activelist = active;
    conds =
        update d.conds c
          (record (d.conds c) { head = head; waiters = add64 (d.conds c).waiters 1 });
    entries =
        update d.entries threadindex
          (record (d.entries threadindex) { cond = c; status = cond_waiting });
    fence = decr_fence d.fence;
    tokenpos = next;
  })

unfoldable pub cond_wait_enter :
    (threadindex : ℕ) (fresh cond thelock : Ptr) → Determ → Option Determ
unfolding cond_entry wait_on
cond_wait_enter threadindex fresh cond thelock d = do
  (d, c) ← cond_entry fresh cond d
  wait_on threadindex c thelock d

-- After a wake: the second value says whether the thread waits again.
unfoldable pub cond_wait_wake : (threadindex : ℕ) (thelock : Ptr) → Determ → Option (Determ × Bool)
unfolding lock_release
cond_wait_wake threadindex thelock d =
    if is_ready (d.entries threadindex).status
    then some (d, false)
    else (do d ← lock_release thelock d; some (d, true))

-- The end of `cond_wait`, with the token: the result of `lock_acquire` is not looked at.
unfoldable pub cond_wait_end : (pid : ℕ) (fresh thelock : Ptr) → Determ → Option Determ
unfolding lock_acquire
cond_wait_end pid fresh thelock d = do (d, result) ← lock_acquire pid fresh thelock d; some d

-- `cond_signal` on the entry `c`.
unfoldable pub signal_on : (c : Ptr) → Determ → Option Determ
unfolding incr_fence
signal_on c d = if (d.conds c).waiters == 0 then some d else do
  (entry, head, links) ← remove_head_entry (d.conds c).head d.links
  links ← insert_head entry d.tokenpos links
  some (record d {
    links = links;
    entries =
        update d.entries (index_of entry)
          (record (d.entries (index_of entry)) { cond = null; status = ready });
    fence = incr_fence 1 d.fence;
    conds =
        update d.conds c (record (d.conds c) { head = head; waiters = dec64 (d.conds c).waiters });
  })

unfoldable pub cond_signal : (fresh cond : Ptr) → Determ → Option Determ
unfolding cond_entry signal_on
cond_signal fresh cond d = do (d, c) ← cond_entry fresh cond d; signal_on c d

-- `while (waiters-- != 0)`: the threads from `entry` on become ready.
unfoldable pub set_ready : (waiters : ℕ) (entry : Ptr) → Determ → Option Determ
set_ready zero entry d = some d
set_ready (suc waiters) entry d = do
  next ← load_next entry d.links
  set_ready waiters next (
      set_entry (index_of entry)
        (record (d.entries (index_of entry)) { cond = null; status = ready }) d)

-- `cond_broadcast` on the entry `c`.
unfoldable pub broadcast_on : (c : Ptr) → Determ → Option Determ
unfolding incr_fence
broadcast_on c d = if (d.conds c).waiters == 0 then some d else do
  let entry = d.conds c
  d ← set_ready entry.waiters entry.head d
  (head, links) ← move_whole_list d.tokenpos entry.head d.links
  some (record d {
    links = links;
    fence = incr_fence entry.waiters d.fence;
    conds = update d.conds c (record entry { head = head; waiters = 0 });
  })

unfoldable pub cond_broadcast : (fresh cond : Ptr) → Determ → Option Determ
unfolding cond_entry broadcast_on
cond_broadcast fresh cond d = do (d, c) ← cond_entry fresh cond d; broadcast_on c d
