-- ===== src/Determ/Cancel/Waiter.antt =====
-- `cancel` of src/include/determ.h on a thread that waits on a condition variable, and the
-- `cond_signal` after it.
use dthreads.Base.{ℕ, ◌≡◌, ◌≢◌, refl, true, none, some, [], ◌∷◌, arith, ==_ne, eq_or_ne, inl, inr}
use dthreads.Base.Maps.{update}
use dthreads.Links.{Ptr, null, Links, load_next, store_next, store_prev, insert_head}
use dthreads.Links.Remove.{remove_entry-RemovedFrom, remove_head_entry-null}
use dthreads.Determ.{cond_waiting, exited, Determ, entry_at, free_thread_entry}
use dthreads.Determ.Cancel.{cancel, cancel_in, forget}
use dthreads.Determ.Conds.{signal_on}
use dthreads.Determ.Conds.Queue.{IsQueue}

-- `insertHead` of NULL is an access through NULL, whatever the ring.
insert_head-null : (head : Ptr) (m : Links) → insert_head null head m ≡ none
unfolding insert_head load_next store_next store_prev
insert_head-null head m = elim (eq_or_ne head null) [
  | inl e ↦ rw e refl
  | inr n ↦ elim (eq_or_ne (m.next head) null) [
    | inl e ↦ rw (==_ne head null n, e) refl
    | inr k ↦ rw (==_ne head null n, ==_ne (m.next head) null k) refl
  ]
]

signal_on-lost :
    (c : Ptr) (d : Determ)
    → (d.conds c).waiters ≡ 1
    → (d.conds c).head ≡ null
    → signal_on c d ≡ none
unfolding signal_on
signal_on-lost c d one none_left =
    rw (one, none_left, remove_head_entry-null d.links, insert_head-null d.tokenpos d.links) refl

-- `cancel` on the only thread that waits on a condition variable reports that it has found it and
-- has it exit, but leaves `waiters` at one with an empty queue: the next `cond_signal` goes through
-- NULL.
pub cancel-signal :
    {d : Determ} (i : ℕ) (c : Ptr)
    → c ≢ null
    → (d.entries i).status ≡ cond_waiting
    → (d.entries i).cond ≡ c
    → IsQueue d c (entry_at i ∷ [])
    → (d' : Determ) × (cancel i d ≡ some (d', true))
      × ((d'.entries i).status ≡ exited)
      × ((d'.conds c).waiters ≡ 1)
      × ((d'.conds c).head ≡ null)
      × (signal_on c d' ≡ none)
unfolding cancel cancel_in forget free_thread_entry
cancel-signal {d} i c solid waits of q =
    let t = entry_at i in
    let (m', run, ring, same, kept) = remove_entry-RemovedFrom d.links t [] t q.ring in
    let d' =
      forget i
        (record d { links = m'; conds = update d.conds c (record (d.conds c) { head = null }) }) in
    let one : (d'.conds c).waiters ≡ 1 = ground (arith, q.waiters) in
    let empty : (d'.conds c).head ≡ null = ground arith in
    (
      d',
      rw (waits, of, ==_ne c null solid, q.head, run),
      ground arith,
      one,
      empty,
      signal_on-lost c d' one empty,
    )
