-- ===== src/Determ/Token.antt =====
-- The token ring of src/include/determ.h: registration, the passing of the token, join, exit and
-- `sigwait`. A function that blocks is cut where it gives the mutex back: what it does before it
-- waits, and what it does after it has woken.
pub mod Ring
pub mod Pass
pub mod Register
pub mod Exit
use dthreads.Base.{
  ℕ, ◌+◌, ◌-◌, Bool, true, false, not, ◌&&◌, Option, none, some, ◌==◌, ltb, if◌then◌else◌, ◌>>=◌,
}
use dthreads.Base.Maps.{update}
use dthreads.Links.{Ptr, null, load_next, insert_tail, insert_head, remove_entry}
use dthreads.Fence.{add64, dec64, incr_fence, decr_fence, start_fence}
use dthreads.Determ.{
  ThreadStatus, ready, exited, joining, ThreadEntry, Determ, entry_at, token_index, set_entry,
  set_status, alloc_thread_entry, free_thread_entry,
}

-- `status != STATUS_EXIT` and `status == STATUS_JOINING`.
abbrev pub is_exited : ThreadStatus → Bool
is_exited exited = true
is_exited _ = false

abbrev pub is_joining : ThreadStatus → Bool
is_joining joining = true
is_joining _ = false

-- `getToken` spins until `_tokenpos->tid` is the caller's.
unfoldable pub has_token : (pid : ℕ) → Determ → Bool
has_token pid d = not (d.tokenpos == null) && ((d.entries (d.tokenpos - 1)).tid == pid)

-- The second value says whether the sanity check failed. It only prints: with `assert` compiled
-- out, the token moves on all the same.
unfoldable pub put_token : (threadindex : ℕ) → Determ → Option (Determ × Bool)
unfolding token_index load_next
put_token threadindex d = do
  owner ← token_index d
  next ← load_next d.tokenpos d.links
  some (if next == null then d else record d { tokenpos = next }, not (threadindex == owner))

unfoldable pub register_thread : (threadindex pid parentindex : ℕ) → Determ → Option Determ
unfolding alloc_thread_entry
register_thread threadindex pid parentindex d = do
  ptr ← alloc_thread_entry threadindex
  (head, links) ← insert_tail ptr d.activelist d.links
  some (record d {
    entries = update d.entries threadindex (record (d.entries threadindex) {
      tid = pid;
      threadindex = threadindex;
      wait = 0;
      tid_parent = parentindex;
      status = ready;
    });
    tokenpos = if d.tokenpos == null then ptr else d.tokenpos;
    links = links;
    activelist = head;
  })

unfoldable pub register_master : (threadindex pid : ℕ) → Determ → Option Determ
unfolding register_thread
register_master threadindex pid d = do
  d ← register_thread threadindex pid 0 d
  some (record d {
    fence = record (d.fence) { maxthreads = 1; is_arrival_phase = true };
    alivethreads = 1;
  })

-- `startFence`.
unfoldable pub start_all : (threads : ℕ) → Determ → Determ
unfolding start_fence
start_all threads d = record d {
  fence = start_fence threads d.fence;
  alivethreads = add64 d.alivethreads threads;
}

unfoldable pub deregister_thread : (threadindex : ℕ) → Determ → Option Determ
unfolding decr_fence load_next free_thread_entry
deregister_thread threadindex d = do
  let entry = entry_at threadindex
  let parentindex = (d.entries threadindex).tid_parent
  let parent = d.entries parentindex
  links ←
      if is_joining parent.status && (parent.joinee_thread_index == threadindex)
      then insert_head (entry_at parentindex) d.tokenpos d.links
      else some d.links
  let alive = not (d.alivethreads == 0)
  nextentry ← load_next entry links
  (head, links) ← remove_entry entry d.activelist links
  some (
      free_thread_entry threadindex (record d {
        links = links;
        alivethreads = if alive then dec64 d.alivethreads else d.alivethreads;
        fence = if alive then decr_fence d.fence else d.fence;
        activelist = head;
        tokenpos = nextentry;
      }))

-- The body of the loop of `join` up to the wait.
unfoldable pub join_pass : (myindex : ℕ) → Determ → Option Determ
unfolding decr_fence token_index load_next
join_pass myindex d = do
  owner ← token_index d
  next ← load_next d.tokenpos d.links
  some (record d {
    fence = decr_fence d.fence;
    tokenpos = if (owner == myindex) && not (d.activelist == null) then next else d.tokenpos;
  })

-- `join` up to its first wait; the second value says whether it waits.
unfoldable pub join_enter : (guestindex myindex : ℕ) → Determ → Option (Determ × Bool)
join_enter guestindex myindex d =
    if is_exited (d.entries guestindex).status
    then some (set_status myindex ready d, false)
    else (do
      (head, links) ← remove_entry (entry_at myindex) d.activelist d.links
      d ← join_pass myindex (record d {
        links = links;
        activelist = head;
        entries =
            update d.entries myindex
              (record (d.entries myindex) { status = joining; joinee_thread_index = guestindex });
      })
      some (d, true))

-- `join` from the end of a wait to the next, or to the end; the second value says whether it waits.
unfoldable pub join_wake : (guestindex myindex : ℕ) → Determ → Option (Determ × Bool)
unfolding incr_fence
join_wake guestindex myindex d =
    let d' = record d { fence = incr_fence 1 d.fence } in
    if is_exited (d.entries guestindex).status
    then some (set_status myindex ready d', false)
    else (do d'' ← join_pass myindex d'; some (d'', true))

-- `sig_wait` up to `sigwait`, and after it.
unfoldable pub sig_wait_enter : (threadindex : ℕ) → Determ → Option Determ
unfolding decr_fence load_next
sig_wait_enter threadindex d = do
  next ← load_next (entry_at threadindex) d.links
  (head, links) ← remove_entry (entry_at threadindex) d.activelist d.links
  some (record d { links = links; activelist = head; fence = decr_fence d.fence; tokenpos = next })

unfoldable pub sig_wait_wake : (threadindex : ℕ) → Determ → Option Determ
unfolding incr_fence
sig_wait_wake threadindex d =
    if d.tokenpos == null
    then some (record d { tokenpos = entry_at threadindex; fence = incr_fence 1 d.fence })
    else (do
      links ← insert_head (entry_at threadindex) d.tokenpos d.links
      some (record d { links = links; fence = incr_fence 1 d.fence }))
