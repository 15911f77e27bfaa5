-- ===== src/Persist/Commit.antt =====
-- The commit of the dirtied pages of src/include/xpersist.h, built with -DLAZY_COMMIT: `createTwinPage`,
-- `checkandcommit` and `updateAll`.
pub mod Step
pub mod Round
pub mod Order
pub mod Faults
pub mod Twins
pub mod Pages
pub mod Done
pub mod Whole
pub mod Renew
pub mod Pending
pub mod Publish
pub mod Transaction
mod Tests
use dthreads.Base.{
  ℕ, zero, suc, ◌+◌, ◌-◌, ◌*◌, ◌/◌, ◌%◌, ◌^◌, Bool, true, false, not, ◌&&◌, ◌||◌, Option, none,
  some, List, [], ◌∷◌, ◌==◌, ltb, leb, if◌then◌else◌, ◌>>=◌,
}
use dthreads.Base.Maps.{update}
use dthreads.Persist.{Bytes, page_size}
use dthreads.Persist.Bitmap.{Bitmap, get, copy_to, set_version, page_at}
use dthreads.Persist.Diff.{write_page_diffs}
use dthreads.Persist.Pages.{
  PageInfo, Shared, Process, local_page, copy_page, set_shared_page, update_page, shared_page,
}

-- `bitmapIndex` is an unsigned short, and the version of the twin an int.
unfoldable pub create_twin_page : (page_no : ℕ) → Shared → Option Shared
unfolding get copy_to set_version
create_twin_page page_no s = do
  (index, bitmap) ← get s.bitmap
  some (record s {
    bitmap_index = update s.bitmap_index page_no (index % 2 ^ 16);
    bitmap = set_version index (s.versions page_no) (copy_to index (s.persistent page_no) bitmap);
  })

-- The twin page, made if there is more than one user and none yet.
unfoldable pub ensure_twin : (page_no : ℕ) → Shared → Option Shared
unfolding create_twin_page
ensure_twin page_no s =
    if ltb 1 (s.users page_no) && (s.bitmap_index page_no == 0)
    then create_twin_page page_no s
    else some s

-- `writePageDiffs` of the local page against the twin, into the shared page.
abbrev pub write_diffs : (page_no : ℕ) → Process → Shared → Shared
write_diffs page_no p s = record s {
  persistent = update s.persistent page_no (
      write_page_diffs (local_page page_no p s) (page_at (s.bitmap_index page_no) s.bitmap)
        (s.persistent page_no));
}

abbrev pub copy_local : (page_no : ℕ) → Process → Shared → Shared
copy_local page_no p s = record s {
  persistent =
      update s.persistent page_no (copy_page (local_page page_no p s) (s.persistent page_no));
}

abbrev pub drop_user : (page_no : ℕ) → Shared → Shared
drop_user page_no s = record s {
  users = update s.users page_no ((s.users page_no + (2 ^ 16 - 1)) % 2 ^ 16);
}

-- The end of a round of `checkandcommit` on a page that has been committed.
unfoldable pub end_commit : (page_no : ℕ) → Shared → Shared
end_commit page_no s = record s {
  bitmap_index = if s.users page_no == 1 then update s.bitmap_index page_no 0 else s.bitmap_index;
  users = update s.users page_no ((s.users page_no + (2 ^ 16 - 1)) % 2 ^ 16);
  versions = update s.versions page_no ((s.versions page_no + 1) % 2 ^ 64);
}

-- `checkandcommit(true)` on one page: only a page that is behind the shared one.
unfoldable pub check_update : PageInfo → Process → Shared → PageInfo × Process × Shared
unfolding set_shared_page update_page end_commit
check_update e p s =
    if e.version == s.versions e.page_no
    then (e, p, s)
    else let (p, s) = set_shared_page e.page_no p (write_diffs e.page_no p s) in
      (record e { is_updated = true }, update_page e.page_no true p, end_commit e.page_no s)

-- `checkandcommit(false)` on one page.
unfoldable pub check_commit : PageInfo → Process → Shared → PageInfo × Process × Shared
unfolding set_shared_page end_commit
check_commit e p s =
    if e.is_updated
    then (e, p, s)
    else if not (s.users e.page_no == 1) || not (s.page_owner e.page_no == p.pid)
    then (let e = record e { release = true } in
        if e.version == s.versions e.page_no
        then (e, p, end_commit e.page_no (copy_local e.page_no p s))
        else (let (p, s) = set_shared_page e.page_no p s in
            (e, p, end_commit e.page_no (write_diffs e.page_no p s))))
    else (record e { release = false }, p, drop_user e.page_no s)

-- One round of the loop of `checkandcommit`.
unfoldable pub commit_page :
    (update : Bool) → PageInfo → Process → Shared → Option (PageInfo × Process × Shared)
unfolding ensure_twin check_update check_commit
commit_page update e p s = do
  s ← ensure_twin e.page_no s
  some (if update then check_update e p s else check_commit e p s)

-- The loop over the dirtied pages.
unfoldable pub commit_pages :
    (update : Bool) → List PageInfo → Process → Shared → Option (List PageInfo × Process × Shared)
unfolding commit_page
commit_pages update [] p s = some ([], p, s)
commit_pages update (e ∷ es) p s = do
  (e, p, s) ← commit_page update e p s
  (es, p, s) ← commit_pages update es p s
  some (e ∷ es, p, s)

unfoldable pub checkandcommit : (update : Bool) → Process → Shared → Option (Process × Shared)
unfolding commit_pages
checkandcommit update p s = go p.dirty
  where
    go : List PageInfo → Option (Process × Shared)
    go [] = some (p, s)
    go (e ∷ es) = do
      (dirty, p, s) ← commit_pages update (e ∷ es) (record p { trans = (p.trans + 1) % 2 ^ 32 }) s
      some (record p { dirty = dirty }, s)

-- The loop of `updateAll`.
unfoldable pub update_pages : List PageInfo → Process → Process
unfolding update_page
update_pages [] p = p
update_pages (e ∷ es) p =
    update_pages es (if e.is_updated then p else update_page e.page_no e.release p)

-- `begin`, which is `updateAll`.
unfoldable pub update_all : (cleanup : Bool) → Process → Process
unfolding update_pages
update_all cleanup p =
    let p = update_pages p.dirty p in if cleanup then record p { dirty = [] } else p
