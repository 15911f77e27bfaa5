-- ===== src/Persist/Bitmap/Layout.antt =====
-- Where the versions and the pages of src/include/xbitmap.h lie.
use dthreads.Base.{ℕ, ◌+◌, ◌*◌, ◌≤◌, ◌<◌, ◌≡◌, ◌≢◌, refl, some, arith, dec_lt}
use dthreads.Persist.{Bytes, page_size}
use dthreads.Persist.Bitmap.{
  Bitmap, get, get_address, version_address, int_bytes, set_version, page_at, copy_to,
  initial_pages, bitmap_size_per_page,
}

-- `get` gives an index that is not 0, whose page lies in the mapping, and another each time until
-- `cleanup`; `_cur` stays where `get` can be called again or fails.
pub get-fresh :
    (b : Bitmap)
    → 0 < b.cur
    → b.cur + 1 < initial_pages
    → (b' : Bitmap) × (get b ≡ some (b.cur, b'))
      × (b'.cur ≡ b.cur + 1)
      × (get_address b.cur + page_size ≤ bitmap_size_per_page * (initial_pages + 10))
unfolding get get_address
get-fresh b p l = (record b { cur = b.cur + 1 }, ground arith, refl, omega arith)

-- A page that has been copied reads back, as long as its version is written to one of the first 3071
-- entries of the versions.
pub copy_to-page_at :
    (b : Bitmap) (index version : ℕ) (page : Bytes) (j : ℕ)
    → index < 3071
    → 0 < index
    → j < page_size
    → page_at index (set_version index version (copy_to index page b)) j ≡ page j
unfolding page_at set_version copy_to get_address version_address
copy_to-page_at b index version page j l p q = ground arith

-- Other pages are as before.
pub copy_to-other :
    (b : Bitmap) (index other version : ℕ) (page : Bytes) (j : ℕ)
    → index < 3071
    → 0 < other
    → other ≢ index
    → j < page_size
    → page_at other (set_version index version (copy_to index page b)) j ≡ page_at other b j
unfolding page_at set_version copy_to get_address version_address
copy_to-other b index other version page j l p n q = elim (dec_lt other index) [
  | yes less ↦ ground arith
  | no more ↦ ground arith
]

-- The version of the page with index 3071 overwrites the first byte of the twin page with index 1.
pub set_version-clobbers :
    (b : Bitmap) (version : ℕ) → page_at 1 (set_version 3071 version b) 0 ≡ int_bytes version 0
unfolding page_at set_version get_address version_address
set_version-clobbers b version = ground arith
