-- ===== src/Persist/Bitmap.antt =====
-- src/include/xbitmap.h: the shared memory of the twin pages, by bytes from the start of the mapping.
-- `_cur` is the int at 0, kept apart since no index reaches it; the versions start at 4 and the
-- pages at `2 * PageSize`.
pub mod Layout
use dthreads.Base.{
  ℕ, ◌+◌, ◌-◌, ◌*◌, ◌/◌, ◌%◌, ◌^◌, Bool, ◌&&◌, Option, none, some, leb, ltb, if◌then◌else◌,
}
use dthreads.Persist.{Bytes, page_size}

pub record Bitmap : Type 0 where
  pub cur : ℕ
  pub mem : ℕ → ℕ

abbrev pub bitmap_size_per_page : ℕ
bitmap_size_per_page = 4096

abbrev pub initial_pages : ℕ
initial_pages = 81920

abbrev pub version_start : ℕ
version_start = 4

abbrev pub page_start : ℕ
page_start = 2 * page_size

-- `initialize`: the fresh mapping is zero.
unfoldable pub initialize : Bitmap
initialize = record { cur = 1; mem = λ _. 0 }

-- `get`: past the end it returns a variable that was never set, which is `none`.
unfoldable pub get : Bitmap → Option (ℕ × Bitmap)
get b = if ltb (b.cur + 1) initial_pages then some (b.cur, record b { cur = b.cur + 1 }) else none

unfoldable pub get_address : ℕ → ℕ
get_address index = page_start + index * bitmap_size_per_page

-- `_versionStart[index]`.
unfoldable pub version_address : ℕ → ℕ
version_address index = version_start + index * 4

-- The store of `n` bytes, the lowest address first.
abbrev pub store : (at n : ℕ) (bytes : ℕ → ℕ) → (ℕ → ℕ) → ℕ → ℕ
store at n bytes mem a = if leb at a && ltb a (at + n) then bytes (a - at) else mem a

-- An int in memory.
abbrev pub int_bytes : ℕ → ℕ → ℕ
int_bytes v k = (v / 256 ^ k) % 256

unfoldable pub set_version : (index version : ℕ) → Bitmap → Bitmap
unfolding version_address
set_version index version b = record b {
  mem = store (version_address index) 4 (int_bytes version) b.mem;
}

-- The page behind `getAddress(index)`, and a `memcpy` of one page to it.
unfoldable pub page_at : (index : ℕ) → Bitmap → Bytes
unfolding get_address
page_at index b j = b.mem (get_address index + j)

unfoldable pub copy_to : (index : ℕ) (page : Bytes) → Bitmap → Bitmap
unfolding get_address
copy_to index page b = record b { mem = store (get_address index) page_size page b.mem }

unfoldable pub cleanup : Bitmap → Bitmap
cleanup b = record b { cur = 1 }
