-- ===== src/Persist/Commit/Step.antt =====
-- One commit of `checkandcommit(false)` in src/include/xpersist.h to a page that several processes
-- have written to since its version was `v`.
use dthreads.Base.{
  ℕ, suc, ◌+◌, ◌%◌, ◌^◌, ◌<◌, ◌≡◌, ◌≢◌, inl, inr, refl, sym, ◌∙◌, Bool, true, false, ◌||◌, some,
  ◌==◌, ==_self, ==_ne, eq_or_ne, arith,
}
use dthreads.Base.Maps.{update}
use dthreads.Persist.{Bytes, page_size}
use dthreads.Persist.Bitmap.{page_at}
use dthreads.Persist.Diff.{write_page_diffs}
use dthreads.Persist.Diff.Words.{merged, write_page_diffs-merged}
use dthreads.Persist.Pages.{PageInfo, Shared, Process, copy_page, set_shared_page, shared_page}
use dthreads.Persist.Commit.{check_commit, end_commit}

-- The entry of a process that wrote to the page `n` when its version was `v`.
abbrev pub entry_of : (n v : ℕ) (release : Bool) → PageInfo
entry_of n v release = record { page_no = n; is_updated = false; release = release; version = v }

-- `done` of the processes have committed to the page `n` and `left` have not; the twin page holds
-- what the page was before.
pub record IsRound (s : Shared) (n : ℕ) (orig : Bytes) (v done left : ℕ) : Type 0 where
  pub users : s.users n ≡ left
  pub few : done + left < 2 ^ 16
  pub version : s.versions n ≡ (v + done) % 2 ^ 64
  pub start : v < 2 ^ 64
  pub owner : s.page_owner n ≡ shared_page
  pub has_twin : s.bitmap_index n ≢ 0
  pub twin : (j : ℕ) → j < page_size → page_at (s.bitmap_index n) s.bitmap j ≡ orig j
  pub at_start : done ≡ 0 → (j : ℕ) → j < page_size → s.persistent n j ≡ orig j

-- What a commit of the local bytes `l` does to the shared pages.
pub record IsMerged (s s' : Shared) (n : ℕ) (orig l : Bytes) : Type 0 where
  pub page : (j : ℕ) → j < page_size → s'.persistent n j ≡ merged (l j) (orig j) (s.persistent n j)
  pub others : (m : ℕ) → m ≢ n → s'.persistent m ≡ s.persistent m

-- The bookkeeping that is the same for both ways to commit.
pub end_commit-IsRound :
    {s : Shared} (n : ℕ) (orig : Bytes) (v done left : ℕ) (pages : ℕ → Bytes)
    → IsRound s n orig v done (suc left)
    → 0 < left
    → IsRound (end_commit n (record s { persistent = pages })) n orig v (suc done) left
unfolding end_commit
end_commit-IsRound {s} n orig v done left pages r p =
    let more = ==_ne (s.users n) 1 (omega (arith, p, r.users)) in
    record {
      users = ground (arith, r.users, r.few);
      few = omega (arith, r.few);
      version = rw (==_self n, r.version) (omega arith);
      start = r.start;
      owner = r.owner;
      has_twin = rw more r.has_twin;
      twin = rw more r.twin;
      at_start = λ e. absurd (omega arith);
    }

pub or_true : (b : Bool) → b || true ≡ true
or_true true = refl
or_true false = refl

pub at_version : (v : ℕ) (s : Shared) (n : ℕ) → v ≡ s.versions n → (v == s.versions n) ≡ true
at_version v s n e = rw (sym e) (==_self v)

-- A commit to the page: by a copy of the whole page if the version is the one that the process saw,
-- and else by the differences to the twin. It is the merge in both cases.
pub check_commit-IsMerged :
    {s : Shared} (n : ℕ) (orig l : Bytes) (v done left : ℕ) (p : Process) (release : Bool)
    → IsRound s n orig v done (suc left)
    → p.pid ≢ shared_page
    → p.copies n ≡ some l
    → (pages : ℕ → Bytes) × (check_commit (entry_of n v release) p s
        ≡ (entry_of n v true, p, end_commit n (record s { persistent = pages })))
      × IsMerged s (record s { persistent = pages }) n orig l
unfolding check_commit set_shared_page
check_commit-IsMerged {s} n orig l v done left p release r mine own =
    let free = ==_ne (s.page_owner n) p.pid (λ e. mine (sym e ∙ r.owner)) in
    elim (eq_or_ne done 0) [
      | inl e ↦ (
        update s.persistent n (copy_page l (s.persistent n)),
        rw (free, or_true, at_version v s n (omega (arith, e, r.version, r.start)), own),
        record { page = λ j q. ground (arith, r.at_start e j q); others = λ m k. ground arith },
      )
      | inr k ↦ (
        update s.persistent n
            (write_page_diffs l (page_at (s.bitmap_index n) s.bitmap) (s.persistent n)),
        rw (
          free,
          or_true,
          ==_ne v (s.versions n) (omega (arith, k, r.version, r.start, r.few)),
          r.owner,
          own,
        ),
        record {
          page = λ j q. rw (==_self n) (
              write_page_diffs-merged l (page_at (s.bitmap_index n) s.bitmap) (s.persistent n) j
              ∙ ground (arith, r.twin j q));
          others = λ m k. ground arith;
        },
      )
    ]
