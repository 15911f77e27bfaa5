-- ===== src/Persist/Commit/Whole.antt =====
-- `checkandcommit(false)` of src/include/xpersist.h on all the pages that a process has written to: each
-- is committed as if it were the only one.
use dthreads.Base.{
  ℕ, ◌+◌, ◌%◌, ◌^◌, ◌<◌, ◌≤◌, ◌≡◌, ◌≢◌, ◌∙◌, refl, sym, true, false, some, List, [], ◌∷◌, length,
  count, Distinct, arith, >>=-run,
}
use dthreads.Persist.Bitmap.{page_at}
use dthreads.Persist.Pages.{PageInfo, Shared, Process, shared_page}
use dthreads.Persist.Commit.{commit_page, commit_pages, checkandcommit}
use dthreads.Persist.Commit.Twins.{IsSound, Untouched, Untouched-refl, Untouched-trans, prepared}
use dthreads.Persist.Commit.Pages.{IsDirty, IsCommitted, check_commit-IsCommitted}
use dthreads.Persist.Commit.Done.{
  pages_of, AreDirty, AreDone, AreDirty-Untouched, AreDone-Untouched, AreDone-same,
}

-- One entry of the list.
commit_page-IsCommitted :
    (e : PageInfo) (p : Process) (s : Shared)
    → p.pid ≢ shared_page
    → IsSound s
    → s.bitmap.cur < 3071
    → IsDirty e s
    → (s' : Shared) × (commit_page false e p s ≡ some (record e { release = true }, p, s'))
      × IsCommitted e p s s'
unfolding commit_page
commit_page-IsCommitted e p s mine o room d =
    let (t, twin, h) = prepared {s = s} e.page_no o room in
    let (s', run, k) = check_commit-IsCommitted e p mine s t h d in (s', rw (twin, run) refl, k)

-- The entries after the commit.
abbrev pub released : List PageInfo → List PageInfo
released [] = []
released (e ∷ es) = record e { release = true } ∷ released es

-- The state after the commit of all pages of a list of entries.
pub record IsWhole (es : List PageInfo) (p : Process) (s s' : Shared) : Type 0 where
  pub done : AreDone es p s s'
  pub sound : IsSound s'
  pub cur : s'.bitmap.cur ≤ s.bitmap.cur + length es
  pub others : (m : ℕ) → count m (pages_of es) ≡ 0 → Untouched m s s'

IsWhole-cons :
    (e : PageInfo) (es : List PageInfo) (p : Process) (s t s' : Shared)
    → count e.page_no (pages_of es) ≡ 0
    → AreDirty es s
    → IsCommitted e p s t
    → IsWhole es p t s'
    → IsWhole (e ∷ es) p s s'
IsWhole-cons e es p s t s' absent ds k w =
    let v = w.others e.page_no absent in
    record {
      done = (
        record {
          page = λ j l. (λ i. v.persistent i j) ∙ k.page j l;
          version = v.versions ∙ k.version;
          users = v.users ∙ k.users;
          owner = v.owner ∙ (λ i. k.owner i e.page_no);
          twinned = λ l x. k.twinned l (sym v.index ∙ x);
          dropped = λ x. v.index ∙ k.dropped x;
          twin = λ x j l.
              let kept : t.bitmap_index e.page_no ≢ 0 = λ y. x (v.index ∙ y) in
              (λ i. page_at (v.index i) s'.bitmap j) ∙ v.twin kept j l ∙ k.twin kept j l;
        },
        AreDone-Untouched es e.page_no p s t s' absent ds k.others w.done,
      );
      sound = w.sound;
      cur = omega (arith, w.cur, k.cur);
      others = λ m z.
          Untouched-trans (k.others m (λ x. absurd (ground (arith, z, x))))
            (w.others m (ground (arith, z)));
    }

commit_pages-cons :
    (e e' : PageInfo) (es es' : List PageInfo) (p : Process) (s t s' : Shared)
    → commit_page false e p s ≡ some (e', p, t)
    → commit_pages false es p t ≡ some (es', p, s')
    → commit_pages false (e ∷ es) p s ≡ some (e' ∷ es', p, s')
unfolding commit_pages
commit_pages-cons e e' es es' p s t s' first rest = >>=-run _ first ∙ >>=-run _ rest

-- The loop over the dirtied pages.
pub commit_pages-IsWhole :
    (es : List PageInfo) (p : Process) (s : Shared)
    → p.pid ≢ shared_page
    → IsSound s
    → s.bitmap.cur + length es ≤ 3071
    → Distinct (pages_of es)
    → AreDirty es s
    → (s' : Shared) × (commit_pages false es p s ≡ some (released es, p, s')) × IsWhole es p s s'
unfolding commit_pages
commit_pages-IsWhole [] p s mine o room c d =
    (s, refl, record { done = 0; sound = o; cur = omega arith; others = λ m z. Untouched-refl m s })
commit_pages-IsWhole (e ∷ es) p s mine o room c (d, ds) =
    let (t, run, k) = commit_page-IsCommitted e p s mine o (omega (arith, room)) d in
    let absent : count e.page_no (pages_of es) ≡ 0 = ground (arith, c e.page_no) in
    let (s', run', w) =
      commit_pages-IsWhole es p t mine k.sound (omega (arith, room, k.cur))
        (λ a. ground (arith, c a)) (AreDirty-Untouched es e.page_no s t absent ds k.others) in
    (
      s',
      commit_pages-cons e (record e { release = true }) es (released es) p s t s' run run',
      IsWhole-cons e es p s t s' absent ds k w,
    )

checked :
    (es : List PageInfo) (p : Process) (s : Shared)
    → p.pid ≢ shared_page
    → IsSound s
    → s.bitmap.cur + length es ≤ 3071
    → Distinct (pages_of es)
    → AreDirty es s
    → (p' : Process) × (s' : Shared) × (checkandcommit false (record p { dirty = es }) s
        ≡ some (p', s'))
      × IsWhole es p s s'
      × (p'.copies ≡ p.copies)
      × (p'.dirty ≡ released es)
      × (p'.protection ≡ p.protection)
unfolding checkandcommit
checked [] p s mine o room c d = (
  record p { dirty = [] },
  s,
  refl,
  record { done = 0; sound = o; cur = omega arith; others = λ m z. Untouched-refl m s },
  refl,
  refl,
  refl,
)
checked (e ∷ es) p s mine o room c d =
    let q = record p { dirty = e ∷ es; trans = (p.trans + 1) % 2 ^ 32 } in
    let (s', run, w) = commit_pages-IsWhole (e ∷ es) q s mine o room c d in
    (
      record q { dirty = released (e ∷ es) },
      s',
      >>=-run _ run,
      record {
        done = AreDone-same (e ∷ es) (e ∷ es) _ p s s' w.done;
        sound = w.sound;
        cur = w.cur;
        others = w.others;
      },
      refl,
      refl,
      refl,
    )

-- `checkandcommit(false)` on a process.
pub checkandcommit-IsWhole :
    (p : Process) (s : Shared)
    → p.pid ≢ shared_page
    → IsSound s
    → s.bitmap.cur + length p.dirty ≤ 3071
    → Distinct (pages_of p.dirty)
    → AreDirty p.dirty s
    → (p' : Process) × (s' : Shared) × (checkandcommit false p s ≡ some (p', s'))
      × IsWhole p.dirty p s s'
      × (p'.copies ≡ p.copies)
      × (p'.dirty ≡ released p.dirty)
      × (p'.protection ≡ p.protection)
checkandcommit-IsWhole p s mine o room c d = checked p.dirty p s mine o room c d
