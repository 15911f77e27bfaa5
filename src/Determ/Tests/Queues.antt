-- ===== src/Determ/Tests/Queues.antt =====
-- The theorems on the condition variables and barriers of src/include/determ.h at the states of the
-- tests.
use dthreads.Base.{ℕ, ◌≡◌, ◌≢◌, ◌<◌, refl, true, false, some, none, [], ◌∷◌, arith, count}
use dthreads.Links.{Ptr, null}
use dthreads.Determ.{Determ, ready, exited, index_of}
use dthreads.Determ.Sync.{get_sync_entry}
use dthreads.Determ.Conds.{wait_on, signal_on, broadcast_on}
use dthreads.Determ.Conds.Queue.{IsQueue, wait_on-IsQueue}
use dthreads.Determ.Conds.Signal.{signal_on-IsQueue}
use dthreads.Determ.Conds.Broadcast.{broadcast_on-IsQueue}
use dthreads.Determ.Barriers.{barrier_wait}
use dthreads.Determ.Barriers.Queue.{IsWaited, barrier_wait-stops, barrier_wait-releases}
use dthreads.Determ.Cancel.{cancel}
use dthreads.Determ.Cancel.Waiter.{cancel-signal}
use dthreads.Determ.Token.Ring.{IsWell}
use dthreads.Determ.Tests.States.{
  state, wide, alone, entries, asleep, state-IsWell, wide-IsWell, state-IsQueue, alone-IsQueue,
  state-IsWaited, wide-IsWaited, state-Apart,
}

wait_on-IsQueue_example :
    (d' : Determ) × (wait_on 0 50 90 state ≡ some d')
    × IsWell d' (2 ∷ 3 ∷ []) 0
    × IsQueue d' 50 (4 ∷ 5 ∷ 1 ∷ [])
    × ((d'.locks 95).is_acquired ≡ false)
unfolding get_sync_entry
wait_on-IsQueue_example =
    wait_on-IsQueue 0 50 90 2 (3 ∷ []) asleep 0 state-IsWell state-IsQueue state-Apart (omega arith)
      (omega arith) (omega arith)

signal_on-IsQueue_example :
    (d' : Determ) × (signal_on 50 state ≡ some d')
    × IsWell d' (1 ∷ 4 ∷ 2 ∷ 3 ∷ []) 0
    × IsQueue d' 50 (5 ∷ [])
    × ((d'.entries 3).status ≡ ready)
    × ((j : ℕ) → j ≢ 3 → d'.entries j ≡ entries j)
signal_on-IsQueue_example =
    signal_on-IsQueue 50 1 (2 ∷ 3 ∷ []) 4 (5 ∷ []) 0 state-IsWell state-IsQueue state-Apart

broadcast_on-IsQueue_example :
    (d' : Determ) × (broadcast_on 50 state ≡ some d')
    × IsWell d' (1 ∷ 4 ∷ 5 ∷ 2 ∷ 3 ∷ []) 0
    × IsQueue d' 50 []
    × ((a : Ptr) → 0 < count a asleep → (d'.entries (index_of a)).status ≡ ready)
broadcast_on-IsQueue_example =
    broadcast_on-IsQueue 50 1 (2 ∷ 3 ∷ []) asleep 0 state-IsWell state-IsQueue state-Apart

barrier_wait-stops_example :
    (d' : Determ) × (barrier_wait 80 0 wide ≡ some (d', false))
    × IsWell d' (2 ∷ 3 ∷ []) 0
    × IsWaited d' 60 (4 ∷ 5 ∷ 1 ∷ [])
unfolding get_sync_entry
barrier_wait-stops_example =
    barrier_wait-stops 80 0 2 (3 ∷ []) asleep 0 (omega arith) wide-IsWell wide-IsWaited state-Apart
      (omega arith) (omega arith) (omega arith)

barrier_wait-releases_example :
    (d' : Determ) × (barrier_wait 80 0 state ≡ some (d', true))
    × IsWell d' (4 ∷ 5 ∷ 2 ∷ 3 ∷ 1 ∷ []) 0
    × IsWaited d' 60 []
    × (d'.entries ≡ entries)
unfolding get_sync_entry
barrier_wait-releases_example =
    barrier_wait-releases 80 0 (2 ∷ 3 ∷ []) asleep 0 (omega arith) state-IsWell state-IsWaited
      state-Apart refl

cancel-signal_example :
    (d' : Determ) × (cancel 4 alone ≡ some (d', true))
    × ((d'.entries 4).status ≡ exited)
    × ((d'.conds 50).waiters ≡ 1)
    × ((d'.conds 50).head ≡ null)
    × (signal_on 50 d' ≡ none)
cancel-signal_example = cancel-signal 4 50 (omega arith) refl refl alone-IsQueue
