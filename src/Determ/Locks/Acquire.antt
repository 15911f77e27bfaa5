-- ===== src/Determ/Locks/Acquire.antt =====
-- What `lock_acquire` and `lock_release` of src/include/determ.h do to the entry of a lock.
use dthreads.Base.{ℕ, ◌≤◌, ◌<◌, ◌≡◌, Bool, true, false, arith}
use dthreads.Determ.{LockEntry}
use dthreads.Determ.Locks.{lock_owner_budget, is_owner, acquire}

-- What the entry of a lock satisfies in every state: the number of users is counted up to two, and
-- a sole user has a budget left.
pub record IsLock (l : LockEntry) : Type 0 where
  pub users : l.total_users ≤ 2
  pub budget : l.total_users ≡ 1 → (0 < l.lock_budget) × (l.lock_budget ≤ lock_owner_budget)

pub acquire-IsLock :
    (pid : ℕ) (single : Bool) (l : LockEntry) → IsLock l → IsLock (acquire pid single l).0
unfolding acquire
acquire-IsLock pid single l v = record {
  users = ground (arith, v.users);
  budget = λ h. ground (arith, v.users, v.budget);
}

pub is_owner-IsLock : (pid : ℕ) (l : LockEntry) → IsLock l → IsLock (is_owner pid l).0
unfolding is_owner
is_owner-IsLock pid l v = record {
  users = ground (arith, v.users);
  budget = λ h. ground (arith, v.users, v.budget);
}

-- The sole user of a lock has its budget at the last unit, while other threads work.
abbrev pub Exhausted : (pid : ℕ) (single : Bool) → LockEntry → Type 0
Exhausted pid single l =
    (l.total_users ≡ 1) × (l.last_thread ≡ pid) × (l.lock_budget ≡ 1) × (single ≡ false)

-- All outcomes of `lock_acquire` on the entry of a lock. On a lock that is taken it fails and changes
-- nothing; on a free lock it fails for a user with an exhausted budget, leaves the lock free and makes
-- the budget full; and in all other cases it succeeds, and the lock is taken.
pub acquire_outcomes :
    (pid : ℕ) (single : Bool) (l : LockEntry)
    → IsLock l
    → (l.is_acquired ≡ true → acquire pid single l ≡ (l, false))
      × (l.is_acquired ≡ false
          → Exhausted pid single l
          → acquire pid single l ≡ (record l { lock_budget = lock_owner_budget }, false))
      × (l.is_acquired ≡ false
          → ¬ Exhausted pid single l
          → ((acquire pid single l).1 ≡ true) × ((acquire pid single l).0.is_acquired ≡ true))
unfolding acquire
acquire_outcomes pid single l v = (
  λ taken. ground (arith, taken),
  λ free x. ground (arith, free, x),
  λ free no. ground (arith, free, no, v.users, v.budget),
)
