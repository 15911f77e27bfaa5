-- ===== src/Determ/Locks.antt =====
-- The mutexes of src/include/determ.h. The memory of a new entry is an argument, `fresh`, since the
-- internal heap is not modelled; a NULL from it is a fault. `lock_budget` is an `int`, whose
-- decrement wraps at 2 ^ 32.
pub mod Acquire
pub mod History
use dthreads.Base.{
  ℕ, ◌+◌, ◌-◌, ◌%◌, ◌^◌, Bool, true, false, not, ◌&&◌, Option, none, some, ◌==◌, if◌then◌else◌,
  ◌>>=◌,
}
use dthreads.Base.Maps.{update}
use dthreads.Links.{Ptr, null}
use dthreads.Determ.{LockEntry, Determ, is_single_working_thread}
use dthreads.Determ.Sync.{get_sync_entry, set_sync_entry, clear_sync_entry}

-- `xdefines::LOCK_OWNER_BUDGET`.
abbrev pub lock_owner_budget : ℕ
lock_owner_budget = 10

abbrev pub dec32 : ℕ → ℕ
dec32 a = (a + (2 ^ 32 - 1)) % 2 ^ 32

unfoldable pub lock_init : (fresh mutex : Ptr) → Determ → Option (Determ × Ptr)
unfolding set_sync_entry
lock_init fresh mutex d =
    if fresh == null
    then none
    else some (
      set_sync_entry mutex fresh (record d {
        locks =
            update d.locks fresh
              (record (d.locks fresh) { total_users = 0; last_thread = 0; is_acquired = false });
      }),
      fresh,
    )

-- The memory of the entry goes back to the internal heap.
unfoldable pub lock_destroy : (mutex : Ptr) → Determ → Determ
unfolding clear_sync_entry
lock_destroy mutex d = clear_sync_entry mutex d

-- `lock_isowner` on the entry of the lock.
unfoldable pub is_owner : (pid : ℕ) → LockEntry → LockEntry × Bool
is_owner pid l =
    if l.total_users == 1
    then if l.last_thread == pid
      then (l, true)
      else (record l { total_users = l.total_users + 1 }, false)
    else (l, false)

unfoldable pub lock_isowner : (pid : ℕ) (mutex : Ptr) → Determ → Determ × Bool
unfolding is_owner get_sync_entry
lock_isowner pid mutex d =
    let entry = get_sync_entry mutex d in
    if entry == null
    then (d, false)
    else (let (l, result) = is_owner pid (d.locks entry) in
        (record d { locks = update d.locks entry l }, result))

unfoldable pub lock_isacquired : (mutex : Ptr) → Determ → Option Bool
unfolding get_sync_entry
lock_isacquired mutex d =
    let entry = get_sync_entry mutex d in
    if entry == null then none else some (d.locks entry).is_acquired

-- `lock_acquire` on the entry of the lock; `single` is `isSingleWorkingThread()`.
unfoldable pub acquire : (pid : ℕ) (single : Bool) → LockEntry → LockEntry × Bool
acquire pid single l =
    if l.is_acquired
    then (l, false)
    else if l.total_users == 0
    then (
      record l {
        is_acquired = true;
        last_thread = pid;
        total_users = 1;
        lock_budget = lock_owner_budget;
      },
      true,
    )
    else if l.total_users == 1
    then if not (l.last_thread == pid)
      then (record l { is_acquired = true; total_users = l.total_users + 1 }, true)
      else if dec32 l.lock_budget == 0
      then if not single
        then (record l { is_acquired = false; lock_budget = lock_owner_budget }, false)
        else (record l { is_acquired = true; lock_budget = lock_owner_budget }, true)
      else (record l { is_acquired = true; lock_budget = dec32 l.lock_budget }, true)
    else (record l { is_acquired = true }, true)

-- The entry of a mutex, made if there is none.
unfoldable pub lock_entry : (fresh mutex : Ptr) → Determ → Option (Determ × Ptr)
unfolding lock_init get_sync_entry
lock_entry fresh mutex d =
    let entry = get_sync_entry mutex d in
    if entry == null then lock_init fresh mutex d else some (d, entry)

unfoldable pub lock_acquire : (pid : ℕ) (fresh mutex : Ptr) → Determ → Option (Determ × Bool)
unfolding lock_entry acquire is_single_working_thread
lock_acquire pid fresh mutex d = do
  (d, entry) ← lock_entry fresh mutex d
  let taken = acquire pid (is_single_working_thread d) (d.locks entry)
  some (record d { locks = update d.locks entry taken.0 }, taken.1)

abbrev pub release : LockEntry → LockEntry
release l = record l { is_acquired = false }

unfoldable pub lock_release : (mutex : Ptr) → Determ → Option Determ
unfolding get_sync_entry
lock_release mutex d =
    let entry = get_sync_entry mutex d in
    if entry == null
    then none
    else some (record d { locks = update d.locks entry (release (d.locks entry)) })
