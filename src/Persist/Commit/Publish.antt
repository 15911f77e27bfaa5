-- ===== src/Persist/Commit/Publish.antt =====
-- The pages of src/include/xpersist.h when the processes that have written to them commit in turn: what one
-- process publishes with all its pages.
use dthreads.Base.{
  ℕ, zero, suc, ◌+◌, ◌-◌, ◌<◌, ◌≤◌, ◌≡◌, ◌≢◌, ◌∙◌, sym, ap, subst, inl, inr, false, some, List, [],
  ◌∷◌, eq_or_ne, length, count, Distinct, arith,
}
use dthreads.Persist.{Bytes, page_size}
use dthreads.Persist.Diff.Words.{merged}
use dthreads.Persist.Pages.{PageInfo, Shared, Process, local_page, shared_page}
use dthreads.Persist.Commit.{checkandcommit}
use dthreads.Persist.Commit.Twins.{IsSound}
use dthreads.Persist.Commit.Done.{pages_of, AreDirty, IsDone, AreDone}
use dthreads.Persist.Commit.Whole.{IsWhole, released, checkandcommit-IsWhole}
use dthreads.Persist.Commit.Pending.{
  IsPending, IsPending-Untouched, pending-IsDirty, committed-merged, IsPending-next,
}

-- The entries of a transaction that began when the versions were `vs`.
abbrev pub AreEntries : (vs : ℕ → ℕ) → List PageInfo → Type 0
AreEntries vs [] = ℕ
AreEntries vs (e ∷ es) = (e.is_updated ≡ false) × (e.version ≡ vs e.page_no) × AreEntries vs es

-- A byte that was `orig` at the fence and is `now`, after the commit of a process whose own byte is `own`
-- and which has written to the page or not.
abbrev pub published : (own orig now : ℕ) (wrote : ℕ) → ℕ
published own orig now zero = now
published own orig now (suc wrote) = merged own orig now

module _ (orig : ℕ → Bytes) (vs : ℕ → ℕ) where
  -- `left n` of the processes that have written to the page `n` have not committed, `done n` have.
  abbrev pub ArePending : (left done : ℕ → ℕ) → Shared → Type 0
  ArePending left done s = (n : ℕ) → IsPending n (orig n) (vs n) (left n) (done n) s

  entries-AreDirty :
      (es : List PageInfo) (left done : ℕ → ℕ) (s : Shared)
      → AreEntries vs es
      → ((n : ℕ) → count n (pages_of es) ≤ left n)
      → ArePending left done s
      → AreDirty es s
  entries-AreDirty [] left done s a c h = 0
  entries-AreDirty (e ∷ es) left done s (fresh, same, a) c h =
      let n = e.page_no in
      let more : left n ≡ suc (left n - 1) = ground (arith, c n) in
      (
        pending-IsDirty e (orig n) (vs n) (left n - 1) (done n) s same
            (subst (λ k. IsPending n (orig n) (vs n) k (done n) s) more (h n)) fresh,
        entries-AreDirty es left done s a (λ m. ground (arith, c m)) h,
      )

  -- What the commit of all has done with one of the pages.
  IsDone-at :
      (es : List PageInfo) (n : ℕ) (p : Process) (s s' : Shared)
      → AreEntries vs es
      → AreDone es p s s'
      → 0 < count n (pages_of es)
      → (e : PageInfo) × (e.page_no ≡ n) × (e.version ≡ vs e.page_no) × IsDone e p s s'
  IsDone-at [] n p s s' a k c = absurd (omega (arith, c))
  IsDone-at (e ∷ es) n p s s' (fresh, same, a) (k, ks) c = elim (eq_or_ne e.page_no n) [
    | inl x ↦ (e, x, same, k)
    | inr d ↦ IsDone-at es n p s s' a ks (ground (arith, c, d))
  ]

  module _ (p : Process) (rest done : ℕ → ℕ) (s : Shared) where
    abbrev wrote : ℕ → ℕ
    wrote n = count n (pages_of p.dirty)

    -- One page, when the process has committed.
    abbrev pub Published : (n : ℕ) → Shared → Type 0
    Published n s' =
        IsPending n (orig n) (vs n) (rest n) (done n + wrote n) s'
        × ((j : ℕ)
            → j < page_size
            → s'.persistent n j
              ≡ published (local_page n p s j) (orig n j) (s.persistent n j) (wrote n))

    written-Published :
        (e : PageInfo) (s' : Shared)
        → e.version ≡ vs e.page_no
        → wrote e.page_no ≡ 1
        → ArePending (λ m. wrote m + rest m) done s
        → IsDone e p s s'
        → Published e.page_no s'
    written-Published e s' same one h k =
        let n = e.page_no in
        let pending : IsPending n (orig n) (vs n) (suc (rest n)) (done n) s =
          subst (λ x. IsPending n (orig n) (vs n) x (done n) s) (omega (arith, one)) (h n) in
        (
          subst (λ x. IsPending n (orig n) (vs n) (rest n) x s') (omega (arith, one))
              (IsPending-next e (orig n) (vs n) (rest n) (done n) s same pending p s' k),
          λ j l.
              k.page j l
              ∙ committed-merged e (orig n) (vs n) (rest n) (done n) s same pending p j l
              ∙ sym (ap (published (local_page n p s j) (orig n j) (s.persistent n j)) one),
        )

    page-Published :
        (n : ℕ) (s' : Shared)
        → AreEntries vs p.dirty
        → Distinct (pages_of p.dirty)
        → ArePending (λ m. wrote m + rest m) done s
        → IsWhole p.dirty p s s'
        → Published n s'
    page-Published n s' a c h w = elim (eq_or_ne (wrote n) 0) [
      | inl z ↦
          let u = w.others n z in
          let pending : IsPending n (orig n) (vs n) (rest n) (done n) s =
            subst (λ x. IsPending n (orig n) (vs n) x (done n) s) (omega (arith, z)) (h n) in
          (
            subst (λ x. IsPending n (orig n) (vs n) (rest n) x s') (omega (arith, z))
                (IsPending-Untouched s s' u pending),
            λ j l.
                (λ i. u.persistent i j)
                ∙ sym (ap (published (local_page n p s j) (orig n j) (s.persistent n j)) z),
          )
      | inr d ↦
          let (e, x, same, k) = IsDone-at p.dirty n p s s' a w.done (omega (arith, d)) in
          subst (λ m. Published m s') x
            (written-Published e s' same (ap (λ m. wrote m) x ∙ omega (arith, d, c n)) h k)
    ]

    -- The commit of the process, with its pages at least the pages that it has written to.
    pub checkandcommit-Published :
        p.pid ≢ shared_page
        → IsSound s
        → s.bitmap.cur + length p.dirty ≤ 3071
        → AreEntries vs p.dirty
        → Distinct (pages_of p.dirty)
        → ArePending (λ m. wrote m + rest m) done s
        → (p' : Process) × (s' : Shared) × (checkandcommit false p s ≡ some (p', s'))
          × ((n : ℕ) → Published n s')
          × IsSound s'
          × (s'.bitmap.cur ≤ s.bitmap.cur + length p.dirty)
          × (p'.dirty ≡ released p.dirty)
          × (p'.protection ≡ p.protection)
    checkandcommit-Published mine o room a c h =
        let d = entries-AreDirty p.dirty (λ m. wrote m + rest m) done s a (λ m. omega arith) h in
        let (p', s', run, w, copies, dirty, same) = checkandcommit-IsWhole p s mine o room c d in
        (p', s', run, λ n. page-Published n s' a c h w, w.sound, w.cur, dirty, same)
