-- ===== src/Determ/Locks/History.antt =====
-- A lock of src/include/determ.h over time: any sequence of its operations by any threads.
use dthreads.Base.{
  ℕ, zero, suc, ◌+◌, ◌^◌, ◌≤◌, ◌<◌, ◌≡◌, ◌≢◌, ◌⊎◌, refl, Bool, true, false, Option, none, some,
  arith, if◌then◌else◌,
}
use dthreads.Determ.{LockEntry}
use dthreads.Determ.Locks.{is_owner, acquire, release}
use dthreads.Determ.Locks.Acquire.{IsLock, acquire-IsLock, is_owner-IsLock}

pub data LockStep (l : LockEntry) : LockEntry → Type 0 where
  acquires : (pid : ℕ) (single : Bool) → LockStep l (acquire pid single l).0
  releases : LockStep l (release l)
  asks : (pid : ℕ) → LockStep l (is_owner pid l).0

pub data LockReach (l : LockEntry) : LockEntry → Type 0 where
  here : LockReach l l
  later : {k m : LockEntry} → LockReach l k → LockStep k m → LockReach l m

-- `m` comes later than `l`.
record IsLater (l m : LockEntry) : Type 0 where
  valid : IsLock m
  users : l.total_users ≤ m.total_users
  owner : 0 < l.total_users → m.total_users ≡ 1 → m.last_thread ≡ l.last_thread

step-IsLater : {l k m : LockEntry} → IsLater l k → LockStep k m → IsLater l m
unfolding acquire is_owner
step-IsLater {l} {k} v (acquires pid single) = record {
  valid = acquire-IsLock pid single k v.valid;
  users = ground (arith, v.users, v.valid.users);
  owner = λ p q. ground (arith, v.users, v.owner p);
}
step-IsLater {l} {k} v releases = record {
  valid = record { users = v.valid.users; budget = v.valid.budget };
  users = v.users;
  owner = v.owner;
}
step-IsLater {l} {k} v (asks pid) = record {
  valid = is_owner-IsLock pid k v.valid;
  users = ground (arith, v.users);
  owner = λ p q. ground (arith, v.users, v.owner p);
}

reach-IsLater : {l m : LockEntry} → IsLock l → LockReach l m → IsLater l m
reach-IsLater v here = record { valid = v; users = omega arith; owner = λ p q. refl }
reach-IsLater v (later r s) = step-IsLater (reach-IsLater v r) s

-- Once two users are counted, no thread is taken for the owner any more.
shared-no_owner :
    {l m : LockEntry}
    → IsLock l
    → l.total_users ≡ 2
    → LockReach l m
    → (pid : ℕ) → (is_owner pid m).1 ≡ false
unfolding is_owner
shared-no_owner v two r pid = let h = reach-IsLater v r in ground (arith, two, h.users)

acquire-shared :
    (other : ℕ) (single : Bool) (l : LockEntry)
    → IsLock l
    → 0 < l.total_users
    → other ≢ l.last_thread
    → l.is_acquired ≡ false
    → (acquire other single l).0.total_users ≡ 2
unfolding acquire
acquire-shared other single l v used d free = ground (arith, v.users, used, d, free)

is_owner-shared :
    (other : ℕ) (l : LockEntry)
    → IsLock l
    → 0 < l.total_users
    → other ≢ l.last_thread
    → (is_owner other l).0.total_users ≡ 2
unfolding is_owner
is_owner-shared other l v used d = ground (arith, v.users, used, d)

-- Whatever threads do with a lock that has been used, in any order: a thread is taken for its owner
-- afterwards only if it was the last to be noted and no second user was counted. And once a thread other
-- than the one noted has taken the free lock, or has asked whether it is the owner, no thread is ever
-- taken for the owner again.
pub ownership_history :
    {l : LockEntry}
    → IsLock l
    → 0 < l.total_users
    → ((m : LockEntry)
        → LockReach l m
        → (pid : ℕ) → ((is_owner pid m).1 ≡ false) ⊎ ((pid ≡ l.last_thread) × (l.total_users ≡ 1)))
      × ((other : ℕ) (single : Bool) (m : LockEntry)
          → other ≢ l.last_thread
          → l.is_acquired ≡ false
          → LockReach (acquire other single l).0 m
          → (pid : ℕ) → (is_owner pid m).1 ≡ false)
      × ((other : ℕ) (m : LockEntry)
          → other ≢ l.last_thread
          → LockReach (is_owner other l).0 m
          → (pid : ℕ) → (is_owner pid m).1 ≡ false)
unfolding is_owner
ownership_history {l} v used = (
  λ m r pid. let h = reach-IsLater v r in ground (arith, h.owner used, h.users, h.valid.users),
  λ other single m d free r pid.
      shared-no_owner (acquire-IsLock other single l v)
        (acquire-shared other single l v used d free) r pid,
  λ other m d r pid.
      shared-no_owner (is_owner-IsLock other l v) (is_owner-shared other l v used d) r pid,
)

-- `k` times in a row the thread `pid` takes the lock and gives it back, while others work; `none`
-- if it fails to take it.
unfoldable pub uses : ℕ → (pid : ℕ) → LockEntry → Option LockEntry
uses zero pid l = some l
uses (suc k) pid l =
    let next = uses k pid (release (acquire pid false l).0) in
    if (acquire pid false l).1 then next else none

last_use :
    (pid : ℕ) (l : LockEntry)
    → l.is_acquired ≡ false
    → l.total_users ≡ 1
    → l.last_thread ≡ pid
    → l.lock_budget ≡ 1
    → (acquire pid false l).1 ≡ false
unfolding acquire
last_use pid l free sole own b = ground arith

one_use :
    (k : ℕ) (pid : ℕ) (l : LockEntry)
    → l.is_acquired ≡ false
    → l.total_users ≡ 1
    → l.last_thread ≡ pid
    → l.lock_budget ≡ k + 2
    → k < 2 ^ 31
    → ((acquire pid false l).1 ≡ true)
      × (release (acquire pid false l).0 ≡ record l { lock_budget = k + 1 })
unfolding acquire
one_use k pid l free sole own b small = ground arith

-- The sole user of a free lock can take it and give it back as often as its budget says, less once,
-- without any other thread; the next attempt fails.
owner_budget :
    (k : ℕ) (pid : ℕ) (l : LockEntry)
    → l.is_acquired ≡ false
    → l.total_users ≡ 1
    → l.last_thread ≡ pid
    → l.lock_budget ≡ k + 1
    → k < 2 ^ 31
    → (uses k pid l ≡ some (record l { lock_budget = 1 })) × (uses (suc k) pid l ≡ none)
unfolding uses
owner_budget zero pid l free sole own b small =
    (ground arith, rw (last_use pid l free sole own (omega arith)))
owner_budget (suc k) pid l free sole own b small =
    let (won, after) = one_use k pid l free sole own (omega arith) (omega arith) in
    let (ih, stop) =
      owner_budget k pid (record l { lock_budget = k + 1 }) free sole own refl (omega arith) in
    (rw (won, after) ih, rw (won, after) stop)
