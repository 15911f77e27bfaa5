-- ===== src/Persist.antt =====
-- src/include/xpersist.h, xbitmap.h and xpageentry.h: pages with a private copy in each process and
-- the shared copy in the backing file. The bytes of a page are a map from offsets.
pub mod Diff
pub mod Bitmap
pub mod Pages
pub mod Commit
pub mod Owned
pub mod Entries
mod Tests
use dthreads.Base.{ℕ}

abbrev pub Bytes : Type 0
Bytes = ℕ → ℕ

abbrev pub page_size : ℕ
page_size = 4096
