-- ===== src/Persist/Pages.antt =====
-- The state of src/include/xpersist.h (built with -DLAZY_COMMIT), the page fault handler, and who owns
-- a page. The mapping of a process is private: a page that it has written to since the last
-- `madvise` is its own copy, and any other page is that of the backing file.
pub mod Handover
pub mod Lost
use dthreads.Base.{
  ℕ, ◌+◌, ◌-◌, ◌/◌, ◌%◌, ◌^◌, Bool, true, false, Option, none, some, List, [], ◌∷◌, ◌==◌, ltb, leb,
  if◌then◌else◌, ◌<◌, ◌≤◌, ◌≡◌, ◌≢◌, arith,
}
use dthreads.Base.Maps.{update}
use dthreads.Persist.{Bytes, page_size}
use dthreads.Persist.Bitmap.{Bitmap}

pub data Access : Type 0 where
  access_none access_read access_write : Access

pub data Protection : Type 0 where
  prot_none prot_read prot_write : Protection

-- `struct xpageinfo`; `pageStart` is the address of the page `pageNo`.
pub record PageInfo : Type 0 where
  pub page_no : ℕ
  pub is_updated : Bool
  pub release : Bool
  pub version : ℕ

-- What all processes share: the backing file, `_persistentVersions`, `_pageUsers`, `_pageOwner` and
-- the twin pages.
pub record Shared : Type 0 where
  pub persistent : ℕ → Bytes
  pub versions : ℕ → ℕ
  pub users : ℕ → ℕ
  pub bitmap_index : ℕ → ℕ
  pub page_owner : ℕ → ℕ
  pub bitmap : Bitmap

-- One process. `dirty` is the multimap of the dirtied pages in the order of its iteration.
pub record Process : Type 0 where
  pub pid : ℕ
  pub is_protected : Bool
  pub copies : ℕ → Option Bytes
  pub protection : ℕ → Protection
  pub page_info : ℕ → Access
  pub dirty : List PageInfo
  pub trans : ℕ
  pub owned_block_info : ℕ → ℕ
  pub owned_blocks : ℕ

-- `SHARED_PAGE`.
abbrev pub shared_page : ℕ
shared_page = 2 ^ 32 - 1

-- What the process reads in a page.
abbrev pub contents_of : Option Bytes → Bytes → Bytes
contents_of none page = page
contents_of (some own) page = own

abbrev pub local_page : ℕ → Process → Shared → Bytes
local_page page_no p s = contents_of (p.copies page_no) (s.persistent page_no)

-- A `memcpy` of one page.
abbrev pub copy_page : (src dest : Bytes) → Bytes
copy_page src dest j = if ltb j page_size then src j else dest j

-- `mprotectRead` and `mprotectWrite`.
unfoldable pub mprotect_read : ℕ → Process → Process
mprotect_read page_no p = record p {
  page_info = update p.page_info page_no access_read;
  protection = update p.protection page_no prot_read;
}

unfoldable pub mprotect_write : ℕ → Process → Shared → Process
mprotect_write page_no p s = record p {
  page_info =
      if s.page_owner page_no == p.pid
      then update p.page_info page_no access_write
      else p.page_info;
  protection = update p.protection page_no prot_write;
}

unfoldable pub is_shared_page : ℕ → Shared → Bool
is_shared_page page_no s = s.page_owner page_no == shared_page

unfoldable pub set_shared_page : ℕ → Process → Shared → Process × Shared
set_shared_page page_no p s = if s.page_owner page_no == shared_page then (p, s) else (
  record p { page_info = update p.page_info page_no access_read },
  record s { page_owner = update s.page_owner page_no shared_page },
)

-- `updatePage` on one page: after `madvise` it is read from the backing file again.
unfoldable pub update_page : (page_no : ℕ) (release : Bool) → Process → Process
update_page page_no release p = record p {
  copies = if release then update p.copies page_no none else p.copies;
  protection = update p.protection page_no prot_read;
}

unfoldable pub commit_owned_page :
    (page_no : ℕ) (set_shared : Bool) → Process → Shared → Process × Shared
unfolding set_shared_page
commit_owned_page page_no set_shared p s =
    let s = record s {
      persistent =
          update s.persistent page_no (copy_page (local_page page_no p s) (s.persistent page_no));
    } in
    let (p, s) =
      if set_shared
      then (
        (record (set_shared_page page_no p s).0 { copies = update p.copies page_no none }),
        (set_shared_page page_no p s).1,
      )
      else (p, s) in
    (p, record s { versions = update s.versions page_no ((s.versions page_no + 1) % 2 ^ 64) })

-- `notifyOwnerToCommit` up to the spin; `delivered` is whether `sigqueue` returned 0. The last value
-- says whether the caller spins until the page is shared.
unfoldable pub notify_owner_to_commit :
    (page_no : ℕ) (delivered : Bool) → Process → Shared → Process × Shared × Bool
unfolding is_shared_page set_shared_page
notify_owner_to_commit page_no delivered p s =
    if is_shared_page page_no s
    then (p, s, false)
    else if delivered
    then (p, s, true)
    else ((set_shared_page page_no p s).0, (set_shared_page page_no p s).1, false)

-- `signalHandler` of src/include/xmemory.h, which the owner runs.
unfoldable pub signal_handler : (page_no : ℕ) → Process → Shared → Process × Shared
unfolding commit_owned_page
signal_handler page_no p s = commit_owned_page page_no true p s

-- A multimap puts an element behind those with the same key.
unfoldable pub insert_dirty : PageInfo → List PageInfo → List PageInfo
insert_dirty e [] = e ∷ []
insert_dirty e (x ∷ xs) =
    let rest = insert_dirty e xs in if leb x.page_no e.page_no then x ∷ rest else e ∷ x ∷ xs

-- `xatomic::increment` on the 32 bits of a `struct shareinfo`: the carry of `users` goes into
-- `bitmapIndex`.
unfoldable pub increment_users : (page_no : ℕ) → Shared → Shared
increment_users page_no s = record s {
  users = update s.users page_no ((s.users page_no + 1) % 2 ^ 16);
  bitmap_index =
      if s.users page_no + 1 == 2 ^ 16
      then update s.bitmap_index page_no ((s.bitmap_index page_no + 1) % 2 ^ 16)
      else s.bitmap_index;
}

-- `int version` of a `struct xpageinfo`, as it is compared with the `unsigned long` of
-- `_persistentVersions`: the lower 32 bits, with the sign spread over the upper ones.
unfoldable pub int_version : ℕ → ℕ
int_version v = let low = v % 2 ^ 32 in if ltb low (2 ^ 31) then low else low + (2 ^ 64 - 2 ^ 32)

pub int_version-small : (v : ℕ) → v < 2 ^ 31 → int_version v ≡ v
unfolding int_version
int_version-small v l = ground (arith, l)

-- An entry for a page with such a version is never up to date.
int_version-behind : (v : ℕ) → 2 ^ 31 ≤ v → v < 2 ^ 64 - 2 ^ 31 → int_version v ≢ v
unfolding int_version
int_version-behind v l k = ground (arith, l, k)

-- The end of `handleWrite`: `release` keeps what the entry of `xpageentry` held.
unfoldable pub add_dirty : (page_no : ℕ) (release : Bool) → Process → Shared → Process × Shared
unfolding increment_users insert_dirty int_version
add_dirty page_no release p s =
    let s = increment_users page_no s in
    let entry : PageInfo = record {
      page_no = page_no;
      is_updated = false;
      release = release;
      version = int_version (s.versions page_no);
    } in
    (record p { dirty = insert_dirty entry p.dirty }, s)

-- `handleWrite` by the access type of the page; the last value says whether the caller still waits
-- for the owner, and then `handle_write_end` is the rest.
unfoldable pub handle_write_in :
    Access → (page_no : ℕ) (delivered release : Bool) → Process → Shared → Process × Shared × Bool
unfolding notify_owner_to_commit mprotect_read mprotect_write commit_owned_page add_dirty
handle_write_in access_none page_no delivered release p s =
    let (p, s, waits) = notify_owner_to_commit page_no delivered p s in
    if waits then (p, s, true) else (mprotect_read page_no p, s, false)
handle_write_in access_read page_no delivered release p s =
    let (p, s) = add_dirty page_no release (mprotect_write page_no p s) s in (p, s, false)
handle_write_in access_write page_no delivered release p s =
    let (p, s) = commit_owned_page page_no false (mprotect_write page_no p s) s in
    let (p, s) = add_dirty page_no release p s in (p, s, false)

unfoldable pub handle_write :
    (page_no : ℕ) (delivered release : Bool) → Process → Shared → Process × Shared × Bool
unfolding handle_write_in
handle_write page_no delivered release p s =
    handle_write_in (p.page_info page_no) page_no delivered release p s

-- `computePage`, for a `Type` of one byte.
unfoldable pub compute_page : ℕ → ℕ
compute_page index = index / page_size
