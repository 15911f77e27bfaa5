-- ===== src/Determ/Sync.antt =====
-- The first word of a pthread object, which src/include/determ.h makes a pointer to its own entry:
-- `getSyncEntry`, `setSyncEntry` and `clearSyncEntry`, with `xmemory::mem_write`.
pub mod Words
use dthreads.Base.{Bool, if◌then◌else◌}
use dthreads.Base.Maps.{update}
use dthreads.Links.{Ptr, null}
use dthreads.Determ.{Determ}

unfoldable pub get_sync_entry : Ptr → Determ → Ptr
get_sync_entry orig d = d.sync orig

-- `xmemory::mem_write` writes the shared copy of an address of the heap or the globals.
unfoldable pub mem_write : (dest val : Ptr) → Determ → Determ
mem_write dest val d =
    if d.in_range dest then record d { shared_sync = update d.shared_sync dest val } else d

unfoldable pub set_sync_entry : (orig new : Ptr) → Determ → Determ
unfolding mem_write
set_sync_entry orig new d = mem_write orig new (record d { sync = update d.sync orig new })

-- The address of the second write is `*dest`, which is NULL by then.
unfoldable pub clear_sync_entry : (orig : Ptr) → Determ → Determ
unfolding mem_write
clear_sync_entry orig d =
    let d' = record d { sync = update d.sync orig null } in mem_write (d'.sync orig) null d'
