-- ===== src/Persist/Pages/Lost.antt =====
-- What happens in src/include/xpersist.h to the stores of an owner that has handed over its page in the
-- middle of a transaction.
use dthreads.Base.{
  ℕ, ◌+◌, ◌%◌, ◌^◌, ◌<◌, ◌≡◌, ◌≢◌, ◌∙◌, refl, sym, ap, Bool, true, false, none, some, [], ◌∷◌,
  ==_self, ==_ne, lt→ltb, >>=-run, arith,
}
use dthreads.Base.Maps.{update, update_self}
use dthreads.Persist.{Bytes, page_size}
use dthreads.Persist.Bitmap.{page_at}
use dthreads.Persist.Diff.{write_page_diffs}
use dthreads.Persist.Diff.Words.{write_page_diffs-merged}
use dthreads.Persist.Pages.{
  access_read, prot_write, PageInfo, Shared, Process, shared_page, local_page, copy_page,
  signal_handler, commit_owned_page, set_shared_page,
}
use dthreads.Persist.Commit.{
  checkandcommit, commit_pages, commit_page, ensure_twin, check_commit, end_commit, write_diffs,
}
use dthreads.Persist.Commit.Step.{entry_of, or_true}

behind_commit :
    (e : PageInfo) (p : Process) (t : Shared)
    → e.is_updated ≡ false
    → t.page_owner e.page_no ≡ shared_page
    → p.pid ≢ shared_page
    → e.version ≢ t.versions e.page_no
    → check_commit e p t
      ≡ (record e { release = true }, p, end_commit e.page_no (write_diffs e.page_no p t))
unfolding check_commit set_shared_page
behind_commit e p t fresh owner mine behind =
    rw
      (
        fresh,
        ==_ne (t.page_owner e.page_no) p.pid (λ x. mine (sym x ∙ owner)),
        or_true,
        ==_ne e.version (t.versions e.page_no) behind,
        owner,
      )
      refl

-- The states after the owner has handed over the page, of which it had the copy `own`.
abbrev given_process : (n : ℕ) → Process → Process
given_process n q = record q {
  page_info = update q.page_info n access_read;
  copies = update q.copies n none;
}

abbrev given_shared : (n : ℕ) (own : Bytes) → Shared → Shared
given_shared n own s = record s {
  persistent = update s.persistent n (copy_page own (s.persistent n));
  versions = update s.versions n ((s.versions n + 1) % 2 ^ 64);
  page_owner = update s.page_owner n shared_page;
}

-- The owner after a store of zero at `j`, for which its page is still writable.
abbrev pub stored : (n j : ℕ) → Process → Shared → Process
stored n j p t = record p { copies = update p.copies n (some (update (local_page n p t) j 0)) }

module _ (n v : ℕ) (release : Bool) (own : Bytes) (q : Process) (s : Shared)
    (owned : s.page_owner n ≡ q.pid) (mine : q.pid ≢ shared_page)
    (copy : q.copies n ≡ some own) where
  handed : signal_handler n q s ≡ (given_process n q, given_shared n own s)
  unfolding signal_handler commit_owned_page set_shared_page
  handed = rw (copy, ==_ne (s.page_owner n) shared_page (λ e. mine (sym owned ∙ e))) refl

  module _ (j : ℕ) (l : j < page_size) (start : v < 2 ^ 64) (version : s.versions n ≡ v)
      (users : s.users n ≡ 1) (no_twin : s.bitmap_index n ≡ 0)
      (zeros : page_at 0 s.bitmap j ≡ 0) where
    abbrev after : Process
    after = stored n j (given_process n q) (given_shared n own s)

    abbrev pages : ℕ → Bytes
    pages = update (given_shared n own s).persistent n (
        write_page_diffs (local_page n after (given_shared n own s))
          (page_at (s.bitmap_index n) s.bitmap) ((given_shared n own s).persistent n))

    no_new_twin : ensure_twin n (given_shared n own s) ≡ some (given_shared n own s)
    unfolding ensure_twin
    no_new_twin = rw users refl

    pages-lost : pages n j ≡ own j
    pages-lost =
        rw (==_self n, no_twin)
          (write_page_diffs-merged _ (page_at 0 s.bitmap) _ j
            ∙ rw (lt→ltb j page_size l) (ground (arith, zeros)))

    ran :
        commit_page false (entry_of n v release) after (given_shared n own s)
        ≡ some (entry_of n v true, after, end_commit n (write_diffs n after (given_shared n own s)))
    unfolding commit_page
    ran =
        >>=-run _ no_new_twin
        ∙ ap some (
            behind_commit (entry_of n v release) after (given_shared n own s) refl
              (update_self s.page_owner n shared_page) mine
              (λ e. absurd (
                omega (
                  arith,
                  e ∙ update_self s.versions n ((s.versions n + 1) % 2 ^ 64),
                  version,
                  start,
                ))))

-- A store of zero is lost when the owner of a page has handed the page over in the middle of its
-- transaction. The owner `q` has written to the page `n` in this transaction, alone, and to no other
-- page; the page has no twin page, and the memory before the first twin page is zero. After the
-- signal the page is shared, but still writable for `q`, so that its store of zero to any byte
-- causes no fault; its commit succeeds and leaves the byte as it was.
pub signal_handler-loses :
    (n v : ℕ) (release : Bool) (own : Bytes) (q : Process) (s : Shared) (j : ℕ)
    → j < page_size
    → v < 2 ^ 64
    → s.page_owner n ≡ q.pid
    → q.pid ≢ shared_page
    → q.copies n ≡ some own
    → q.protection n ≡ prot_write
    → q.dirty ≡ entry_of n v release ∷ []
    → s.versions n ≡ v
    → s.users n ≡ 1
    → s.bitmap_index n ≡ 0
    → page_at 0 s.bitmap j ≡ 0
    → (q' : Process) × (s' : Shared) × (q'' : Process) × (s'' : Shared) × (signal_handler n q s
        ≡ (q', s'))
      × (s'.page_owner n ≡ shared_page)
      × (q'.protection n ≡ prot_write)
      × (checkandcommit false (stored n j q' s') s' ≡ some (q'', s''))
      × (s''.persistent n j ≡ own j)
unfolding checkandcommit commit_pages end_commit
signal_handler-loses n v release own q s j l start owned mine copy writable dirty version users
      no_twin zeros =
    let busy = record q { dirty = entry_of n v release ∷ []; trans = (q.trans + 1) % 2 ^ 32 } in
    let q' = given_process n q in
    let s' = given_shared n own s in
    (
      q',
      s',
      record (stored n j (given_process n busy) s') { dirty = entry_of n v true ∷ [] },
      end_commit n (
          write_diffs n
            (after n v release own busy s owned mine copy j l start version users no_twin zeros)
            s'),
      handed n v release own q s owned mine copy,
      update_self s.page_owner n shared_page,
      writable,
      (λ i. checkandcommit false (record (stored n j q' s') { dirty = dirty i }) s')
          ∙ >>=-run _ (
              >>=-run _
                (ran n v release own busy s owned mine copy j l start version users no_twin zeros)),
      pages-lost n v release own busy s owned mine copy j l start version users no_twin zeros,
    )
