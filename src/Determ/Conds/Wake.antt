-- ===== src/Determ/Conds/Wake.antt =====
-- The end of `cond_wait` of src/include/determ.h: whether the caller has the mutex again.
use dthreads.Base.{ℕ, ◌≡◌, ◌≢◌, refl, ap, ◌∙◌, true, false, some, ==_ne}
use dthreads.Base.Maps.{update, update_self}
use dthreads.Links.{Ptr, null}
use dthreads.Determ.{Determ, is_single_working_thread}
use dthreads.Determ.Sync.{get_sync_entry}
use dthreads.Determ.Locks.{lock_owner_budget, acquire, lock_acquire, lock_entry}
use dthreads.Determ.Locks.Acquire.{IsLock, Exhausted, acquire_outcomes}
use dthreads.Determ.Conds.{cond_wait_end}

-- The state after an attempt to take the lock with the entry `c`.
abbrev tried : (pid : ℕ) (c : Ptr) → Determ → Determ
tried pid c d = record d {
  locks = update d.locks c (acquire pid (is_single_working_thread d) (d.locks c)).0;
}

cond_wait_end-run :
    (pid : ℕ) (fresh thelock : Ptr) (d : Determ)
    → get_sync_entry thelock d ≢ null
    → cond_wait_end pid fresh thelock d ≡ some (tried pid (get_sync_entry thelock d) d)
unfolding cond_wait_end lock_acquire lock_entry
cond_wait_end-run pid fresh thelock d found = rw (==_ne (get_sync_entry thelock d) null found) refl

-- `cond_wait` always returns once it has the token. If the mutex is taken, it returns all the same and
-- leaves it as it was. If the mutex is free, and the caller is its sole user with its budget at the
-- last unit while other threads work, it returns with the mutex free and the budget full. In all other
-- cases it has taken the mutex.
pub cond_wait_end-outcomes :
    (pid : ℕ) (fresh thelock : Ptr) (d : Determ)
    → get_sync_entry thelock d ≢ null
    → IsLock (d.locks (get_sync_entry thelock d))
    → (d' : Determ) × (cond_wait_end pid fresh thelock d ≡ some d')
      × ((d.locks (get_sync_entry thelock d)).is_acquired ≡ true
          → d'.locks (get_sync_entry thelock d) ≡ d.locks (get_sync_entry thelock d))
      × ((d.locks (get_sync_entry thelock d)).is_acquired ≡ false
          → Exhausted pid (is_single_working_thread d) (d.locks (get_sync_entry thelock d))
          → d'.locks (get_sync_entry thelock d)
            ≡ record (d.locks (get_sync_entry thelock d)) { lock_budget = lock_owner_budget })
      × ((d.locks (get_sync_entry thelock d)).is_acquired ≡ false
          → ¬ Exhausted pid (is_single_working_thread d) (d.locks (get_sync_entry thelock d))
          → (d'.locks (get_sync_entry thelock d)).is_acquired ≡ true)
cond_wait_end-outcomes pid fresh thelock d found valid =
    let c = get_sync_entry thelock d in
    let l = d.locks c in
    let self = update_self d.locks c (acquire pid (is_single_working_thread d) l).0 in
    let (held, refused, won) = acquire_outcomes pid (is_single_working_thread d) l valid in
    (
      tried pid c d,
      cond_wait_end-run pid fresh thelock d found,
      λ taken. self ∙ ap (λ x. x.0) (held taken),
      λ free x. self ∙ ap (λ x. x.0) (refused free x),
      λ free no. ap (λ x. x.is_acquired) self ∙ (won free no).1,
    )
