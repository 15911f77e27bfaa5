-- ===== src/Determ/Sync/Words.antt =====
-- What the writes to the first word of a pthread object in src/include/determ.h reach: the copy of
-- the running process, and the shared one.
use dthreads.Base.{◌≡◌, ◌≢◌, true, false, some, arith}
use dthreads.Base.Maps.{update}
use dthreads.Links.{Ptr, null}
use dthreads.Determ.{Determ}
use dthreads.Determ.Sync.{get_sync_entry, set_sync_entry}
use dthreads.Determ.Locks.{lock_init, lock_destroy}

-- `lock_init` followed by `lock_destroy` of a mutex in the heap or the globals: between the two the
-- process and the shared copy both have the new entry; afterwards the process reads NULL, but the
-- shared copy still points to the entry that has been freed, because the second write of
-- `clearSyncEntry` goes to address NULL.
pub lock_destroy-stale :
    (fresh mutex : Ptr) (d : Determ)
    → fresh ≢ null
    → d.in_range mutex ≡ true
    → d.in_range null ≡ false
    → (d' : Determ) × (lock_init fresh mutex d ≡ some (d', fresh))
      × (get_sync_entry mutex d' ≡ fresh)
      × (d'.shared_sync mutex ≡ fresh)
      × (get_sync_entry mutex (lock_destroy mutex d') ≡ null)
      × ((lock_destroy mutex d').shared_sync mutex ≡ fresh)
unfolding lock_init lock_destroy get_sync_entry
lock_destroy-stale fresh mutex d ne ranged out = (
  set_sync_entry mutex fresh (record d {
    locks =
        update d.locks fresh
          (record (d.locks fresh) { total_users = 0; last_thread = 0; is_acquired = false });
  }),
  ground arith,
  ground arith,
  ground arith,
  ground arith,
  ground arith,
)
