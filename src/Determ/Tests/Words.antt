-- ===== src/Determ/Tests/Words.antt =====
-- The theorems on the mutexes of src/include/determ.h at concrete locks.
use dthreads.Base.{ℕ, ◌≡◌, ◌≢◌, ◌⊎◌, refl, Bool, true, false, some, arith}
use dthreads.Links.{null}
use dthreads.Determ.{Determ, LockEntry, is_single_working_thread}
use dthreads.Determ.Sync.{get_sync_entry}
use dthreads.Determ.Sync.Words.{lock_destroy-stale}
use dthreads.Determ.Locks.{lock_owner_budget, lock_init, lock_destroy, acquire, release, is_owner}
use dthreads.Determ.Locks.Acquire.{IsLock, Exhausted}
use dthreads.Determ.Locks.History.{LockReach, later, here, releases, ownership_history}
use dthreads.Determ.Conds.{cond_wait_end}
use dthreads.Determ.Conds.Wake.{cond_wait_end-outcomes}
use dthreads.Determ.Tests.States.{state}

-- A free lock that thread 100 alone has used, with a budget of 1, and one of 3.
abbrev spent : LockEntry
spent = record { total_users = 1; last_thread = 100; is_acquired = false; lock_budget = 1 }

abbrev owned : LockEntry
owned = record spent { lock_budget = 3 }

spent-IsLock : IsLock spent
spent-IsLock = record { users = omega arith; budget = λ h. (omega arith, omega arith) }

ownership_history_example :
    ((m : LockEntry)
      → LockReach spent m
      → (pid : ℕ)
      → ((is_owner pid m).1 ≡ false) ⊎ ((pid ≡ spent.last_thread) × (spent.total_users ≡ 1)))
    × ((other : ℕ) (single : Bool) (m : LockEntry)
        → other ≢ spent.last_thread
        → spent.is_acquired ≡ false
        → LockReach (acquire other single spent).0 m
        → (pid : ℕ) → (is_owner pid m).1 ≡ false)
    × ((other : ℕ) (m : LockEntry)
        → other ≢ spent.last_thread
        → LockReach (is_owner other spent).0 m
        → (pid : ℕ) → (is_owner pid m).1 ≡ false)
ownership_history_example = ownership_history spent-IsLock (omega arith)

-- Thread 200 takes the lock and gives it back, and thread 100 does not pass for its owner then.
abbrev passed : LockEntry
passed = release (acquire 200 false spent).0

passed-shared : (is_owner 100 passed).1 ≡ false
passed-shared =
    ownership_history_example.1 200 false passed (omega arith) refl (later here releases) 100

lock_destroy-stale_example :
    (d' : Determ) × (lock_init 99 90 state ≡ some (d', 99))
    × (get_sync_entry 90 d' ≡ 99)
    × (d'.shared_sync 90 ≡ 99)
    × (get_sync_entry 90 (lock_destroy 90 d') ≡ null)
    × ((lock_destroy 90 d').shared_sync 90 ≡ 99)
lock_destroy-stale_example = lock_destroy-stale 99 90 state (omega arith) refl refl

-- The same lock at the end of a wait.
abbrev woken : Determ
woken = record state { locks = λ _. spent }

cond_wait_end-outcomes_example :
    (d' : Determ) × (cond_wait_end 100 99 90 woken ≡ some d')
    × (spent.is_acquired ≡ true → d'.locks 95 ≡ spent)
    × (spent.is_acquired ≡ false
        → Exhausted 100 (is_single_working_thread woken) spent
        → d'.locks 95 ≡ record spent { lock_budget = lock_owner_budget })
    × (spent.is_acquired ≡ false
        → ¬ Exhausted 100 (is_single_working_thread woken) spent
        → (d'.locks 95).is_acquired ≡ true)
unfolding get_sync_entry
cond_wait_end-outcomes_example = cond_wait_end-outcomes 100 99 90 woken (omega arith) spent-IsLock
