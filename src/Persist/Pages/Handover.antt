-- ===== src/Persist/Pages/Handover.antt =====
-- A page of src/include/xpersist.h goes from its owner to the process that wants to read it.
use dthreads.Base.{
  ℕ, ◌+◌, ◌%◌, ◌^◌, ◌<◌, ◌≡◌, ◌≢◌, ◌∙◌, refl, sym, Bool, true, false, none, ==_self, ==_ne, arith,
}
use dthreads.Base.Maps.{update}
use dthreads.Persist.{page_size}
use dthreads.Persist.Pages.{
  access_none, access_read, Shared, Process, shared_page, local_page, copy_page, handle_write,
  handle_write_in, notify_owner_to_commit, is_shared_page, signal_handler, commit_owned_page,
  set_shared_page, mprotect_read,
}

-- A process that faults on a page that another owns waits, and has changed nothing; the owner, when
-- the signal reaches it, commits what it reads in the page, drops its own copy and makes the page
-- shared, with a new version; a fault of the first process after that makes the page readable and
-- does not wait.
pub handle_write-handover :
    (n : ℕ) (release : Bool) (p q : Process) (s : Shared)
    → p.page_info n ≡ access_none
    → s.page_owner n ≡ q.pid
    → q.pid ≢ shared_page
    → (q' : Process) × (s' : Shared) × (handle_write n true release p s ≡ (p, s, true))
      × (signal_handler n q s ≡ (q', s'))
      × ((j : ℕ) → j < page_size → s'.persistent n j ≡ local_page n q s j)
      × (q'.copies n ≡ none)
      × (s'.page_owner n ≡ shared_page)
      × (s'.versions n ≡ (s.versions n + 1) % 2 ^ 64)
      × (handle_write n true release p s' ≡ (mprotect_read n p, s', false))
unfolding handle_write handle_write_in notify_owner_to_commit is_shared_page signal_handler
    commit_owned_page set_shared_page
handle_write-handover n release p q s hidden owned mine =
    let other = ==_ne (s.page_owner n) shared_page (λ e. mine (sym owned ∙ e)) in
    (
      record q { page_info = update q.page_info n access_read; copies = update q.copies n none },
      record s {
        persistent = update s.persistent n (copy_page (local_page n q s) (s.persistent n));
        versions = update s.versions n ((s.versions n + 1) % 2 ^ 64);
        page_owner = update s.page_owner n shared_page;
      },
      rw (hidden, other) refl,
      rw other refl,
      λ j l. ground arith,
      ground arith,
      ground arith,
      ground arith,
      rw (hidden, ==_self n) refl,
    )
