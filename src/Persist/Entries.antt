-- ===== src/Persist/Entries.antt =====
-- src/include/xpageentry.h: the entries for the pages that a process has written to, one array that is
-- filled from the front and begun again with each transaction.
use dthreads.Base.{ℕ, ◌+◌, Option, none, some, ltb, if◌then◌else◌}

pub record PageEntries : Type 0 where
  pub total : ℕ
  pub cur : ℕ

abbrev pub page_entry_num : ℕ
page_entry_num = 800000

-- `initialize` has mapped the array.
unfoldable pub initialize_entries : PageEntries
initialize_entries = record { total = page_entry_num; cur = 0 }

-- The index of the entry; `none` is the `abort` when there are no more.
unfoldable pub alloc_entry : PageEntries → Option (ℕ × PageEntries)
alloc_entry e = if ltb e.cur e.total then some (e.cur, record e { cur = e.cur + 1 }) else none

unfoldable pub cleanup_entries : PageEntries → PageEntries
cleanup_entries e = record e { cur = 0 }
