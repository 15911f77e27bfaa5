-- ===== src/Persist/Commit/Renew.antt =====
-- The end of a transaction of src/include/xpersist.h and the beginning of the next: `checkandcommit(false)`
-- and `begin(true)`.
use dthreads.Base.{
  ℕ, ◌+◌, ◌<◌, ◌≤◌, ◌≡◌, ◌≢◌, ◌∙◌, refl, true, false, none, some, List, [], ◌∷◌, length, count,
  Distinct, arith, dec_lt,
}
use dthreads.Base.Maps.{update, update_self, update_ne}
use dthreads.Persist.Pages.{
  prot_read, PageInfo, Shared, Process, local_page, contents_of, shared_page, update_page,
}
use dthreads.Persist.Commit.{checkandcommit, update_pages, update_all}
use dthreads.Persist.Commit.Twins.{IsSound}
use dthreads.Persist.Commit.Done.{AreDirty, pages_of}
use dthreads.Persist.Commit.Whole.{IsWhole, released, checkandcommit-IsWhole}

-- What the loop of `updateAll` makes of a page of the process.
pub record IsRenewed (n : ℕ) (ns : List ℕ) (p p' : Process) : Type 0 where
  pub dropped : 0 < count n ns → (p'.copies n ≡ none) × (p'.protection n ≡ prot_read)
  pub kept : count n ns ≡ 0 → (p'.copies n ≡ p.copies n) × (p'.protection n ≡ p.protection n)

-- No entry has been updated in the middle of the transaction.
abbrev pub AreFresh : List PageInfo → Type 0
AreFresh [] = ℕ
AreFresh (e ∷ es) = (e.is_updated ≡ false) × AreFresh es

AreDirty-AreFresh : (es : List PageInfo) (s : Shared) → AreDirty es s → AreFresh es
AreDirty-AreFresh [] s d = 0
AreDirty-AreFresh (e ∷ es) s (d, ds) = (d.fresh, AreDirty-AreFresh es s ds)

pub update_pages-IsRenewed :
    (es : List PageInfo) (p : Process) (n : ℕ)
    → AreFresh es
    → IsRenewed n (pages_of es) p (update_pages (released es) p)
unfolding update_pages update_page
update_pages-IsRenewed [] p n d = record {
  dropped = λ x. absurd (omega (arith, x));
  kept = λ x. (refl, refl);
}
update_pages-IsRenewed (e ∷ es) p n (d, ds) =
    let q = update_page e.page_no true p in
    let h = update_pages-IsRenewed es q n ds in
    rw d record {
      dropped = λ x. elim (dec_lt 0 (count n (pages_of es))) [
        | yes more ↦ h.dropped more
        | no last ↦
            let same : n ≡ e.page_no = ground (arith, x, last) in
            let (c, r) = h.kept (omega (arith, last)) in
            (
              c
                  ∙ (λ i. update p.copies e.page_no none (same i))
                  ∙ update_self p.copies e.page_no none,
              r
                  ∙ (λ i. update p.protection e.page_no prot_read (same i))
                  ∙ update_self p.protection e.page_no prot_read,
            )
      ];
      kept = λ x.
          let other : n ≢ e.page_no = λ y. absurd (ground (arith, x, y)) in
          let (c, r) = h.kept (ground (arith, x)) in
          (
            c ∙ update_ne p.copies e.page_no n none other,
            r ∙ update_ne p.protection e.page_no n prot_read other,
          );
    }

-- A process ends its transaction, with any number of pages that it has written to, and begins the next.
-- If the entries are of different pages, no page of them has an owner, those that others have
-- committed to since have their twin pages, and there are indices of twin pages left for all, the
-- commit succeeds. Each byte of each of the pages is then the local one, or, on a page that others have
-- committed to, the local one only where it differs from the twin page; each of the pages has a new
-- version and one user less; and of every other page the contents, the version, the users, the owner
-- and the twin page are as before. The process reads the shared contents of each page that it had
-- written to, cannot write to them without a fault, keeps its copies of the others, and has no entry.
pub commit-begin-IsWhole :
    (p : Process) (s : Shared)
    → p.pid ≢ shared_page
    → IsSound s
    → s.bitmap.cur + length p.dirty ≤ 3071
    → Distinct (pages_of p.dirty)
    → AreDirty p.dirty s
    → (p' : Process) × (s' : Shared) × (checkandcommit false p s ≡ some (p', s'))
      × IsWhole p.dirty p s s'
      × ((update_all true p').dirty ≡ [])
      × ((n : ℕ)
          → 0 < count n (pages_of p.dirty)
          → (local_page n (update_all true p') s' ≡ s'.persistent n)
            × ((update_all true p').protection n ≡ prot_read))
      × ((n : ℕ) → count n (pages_of p.dirty) ≡ 0 → (update_all true p').copies n ≡ p.copies n)
unfolding update_all
commit-begin-IsWhole p s mine o room c d =
    let (p', s', run, w, copies, dirty, same) = checkandcommit-IsWhole p s mine o room c d in
    let h = λ (n : ℕ). update_pages-IsRenewed p.dirty p' n (AreDirty-AreFresh p.dirty s d) in
    (
      p',
      s',
      run,
      w,
      refl,
      λ n x.
          let (dropped, read_only) = (h n).dropped x in
          (
            (λ i. contents_of ((update_pages (dirty i) p').copies n) (s'.persistent n))
                ∙ (λ i. contents_of (dropped i) (s'.persistent n)),
            (λ i. (update_pages (dirty i) p').protection n) ∙ read_only,
          ),
      λ n x. (λ i. (update_pages (dirty i) p').copies n) ∙ ((h n).kept x).0 ∙ (λ i. copies i n),
    )
