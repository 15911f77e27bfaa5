-- ===== src/Persist/Owned.antt =====
-- The pages that a process owns in src/include/xpersist.h (-DLAZY_COMMIT): `setOwnedPage`,
-- `cleanupOwnedBlocks`, `finalcommit`, `forceCommitOwnedPages` and `openProtection`.
pub mod Final
use dthreads.Base.{
  ℕ, zero, suc, ◌+◌, ◌-◌, ◌*◌, ◌/◌, ◌%◌, ◌^◌, Bool, true, false, not, ◌&&◌, Option, none, some,
  List, [], ◌∷◌, ◌==◌, ltb, leb, if◌then◌else◌, ◌>>=◌,
}
use dthreads.Base.Maps.{update}
use dthreads.Persist.{Bytes, page_size}
use dthreads.Persist.Pages.{
  Access, access_none, access_read, Protection, prot_none, prot_read, prot_write, Shared, Process,
  shared_page, set_shared_page, commit_owned_page, notify_owner_to_commit, compute_page,
}

-- A loop body that is run for the pages from `at` on, `n` of them.
unfoldable pub for_pages :
    (n at : ℕ) → (ℕ → Process → Shared → Process × Shared) → Process → Shared → Process × Shared
for_pages zero at body p s = (p, s)
for_pages (suc n) at body p s = let (p, s) = body at p s in for_pages n (at + 1) body p s

-- The value `v` at the places from `at` on, `n` of them.
abbrev pub fill : {A : Type 0} → (at n : ℕ) → A → (ℕ → A) → ℕ → A
fill at n v f i = if leb at i && ltb i (at + n) then v else f i

-- `offset` is that of the block from the base; `none` is the `exit` when the blocks are counted full.
unfoldable pub set_owned_page : (offset size : ℕ) → Process → Shared → Option (Process × Shared)
unfolding compute_page
set_owned_page offset size p s =
    if not p.is_protected
    then some (p, s)
    else let start = compute_page offset in
      let pages = size / page_size in
      let blocks = p.owned_blocks in
      if blocks + 1 == page_size / 2
      then none
      else some (
        record p {
          protection = fill start pages prot_read p.protection;
          page_info = fill start pages access_read p.page_info;
          owned_block_info =
              update (update p.owned_block_info (blocks * 2) start) (blocks * 2 + 1)
                (start + pages);
          owned_blocks = blocks + 1;
        },
        record s { page_owner = fill start pages p.pid s.page_owner },
      )

unfoldable pub cleanup_owned_blocks : Process → Process
cleanup_owned_blocks p = record p { owned_blocks = 0 }

-- The body of the loops of `finalcommit` on one page.
unfoldable pub final_page : (release : Bool) → (page_no : ℕ) → Process → Shared → Process × Shared
unfolding commit_owned_page set_shared_page
final_page release j p s =
    if s.page_owner j == p.pid
    then (if release
        then commit_owned_page j true p s
        else (let (p, s) = commit_owned_page j false p s in set_shared_page j p s))
    else (p, s)

-- The first `blocks` owned blocks, from block `i` on.
unfoldable pub final_blocks : (blocks i : ℕ) (release : Bool) → Process → Shared → Process × Shared
unfolding for_pages final_page
final_blocks zero i release p s = (p, s)
final_blocks (suc blocks) i release p s =
    let startpage = p.owned_block_info (i * 2) in
    let endpage = p.owned_block_info (i * 2 + 1) in
    let (p, s) = for_pages (endpage - startpage) startpage (final_page release) p s in
    final_blocks blocks (i + 1) release p s

unfoldable pub final_commit : (release : Bool) → Process → Shared → Process × Shared
unfolding final_blocks
final_commit release p s = final_blocks p.owned_blocks 0 release p s

-- `openProtection`; `alloc_size` is how far the heap, of 4 GiB, has been used. `int allocSize` holds
-- its lower 32 bits; from 2 ^ 31 on it is negative, and so is the offset in the call of `mmap`, which
-- fails: `none` is the `exit` after that.
unfoldable pub open_protection :
    (is_heap : Bool) (alloc_size : ℕ) → Process → Shared → Option (Process × Shared)
open_protection is_heap alloc_size p s =
    let alloc_size = alloc_size % 2 ^ 32 in
    if not is_heap
    then some (
      record p {
        copies = λ _. none;
        protection = λ _. prot_read;
        page_info = λ _. access_read;
        is_protected = true;
        owned_blocks = 0;
        trans = 0;
      },
      record s { page_owner = λ _. shared_page },
    )
    else if leb (2 ^ 31) alloc_size
    then none
    else some (
      record p {
        copies = λ _. none;
        protection = fill 0 (alloc_size / page_size) prot_read (λ _. prot_none);
        page_info = fill 0 (alloc_size / page_size) access_read (λ _. access_none);
        is_protected = true;
        owned_blocks = 0;
        trans = 0;
      },
      record s { page_owner = fill 0 (alloc_size / page_size) shared_page (λ _. 0) },
    )
