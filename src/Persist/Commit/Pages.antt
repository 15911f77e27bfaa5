-- ===== src/Persist/Commit/Pages.antt =====
-- `checkandcommit(false)` of src/include/xpersist.h on all the pages that a process has written to: each
-- is committed as if it were the only one.
use dthreads.Base.{
  ℕ, ◌+◌, ◌-◌, ◌%◌, ◌^◌, ◌<◌, ◌≤◌, ◌≡◌, ◌≢◌, ◌∙◌, refl, sym, ap, subst, inl, inr, true, false, ◌==◌,
  ==_self, ==_ne, eq_or_ne, if◌then◌else◌, Bool-cases, lt→ltb, arith,
}
use dthreads.Base.Maps.{update, update_self, update_ne}
use dthreads.Persist.{Bytes, page_size}
use dthreads.Persist.Bitmap.{page_at}
use dthreads.Persist.Diff.{write_page_diffs}
use dthreads.Persist.Diff.Words.{merged, write_page_diffs-merged}
use dthreads.Persist.Pages.{
  PageInfo, Shared, Process, local_page, contents_of, copy_page, set_shared_page, shared_page,
}
use dthreads.Persist.Commit.Step.{or_true, at_version}
use dthreads.Persist.Commit.{end_commit, check_commit}
use dthreads.Persist.Commit.Twins.{IsSound, Untouched, Untouched-trans, original, IsPrepared}

-- What a commit makes of a byte of the page of an entry: the local one if no one has committed to the
-- page since, and else the local one where it is not that of the twin page.
unfoldable pub committed : PageInfo → Process → Shared → ℕ → ℕ
committed e p s j =
    if e.version == s.versions e.page_no
    then local_page e.page_no p s j
    else merged (local_page e.page_no p s j) (page_at (s.bitmap_index e.page_no) s.bitmap j)
        (s.persistent e.page_no j)

-- A page that a process has an entry for can be committed: no one owns it, and it has its twin page if
-- others have committed since.
pub record IsDirty (e : PageInfo) (s : Shared) : Type 0 where
  pub fresh : e.is_updated ≡ false
  pub owner : s.page_owner e.page_no ≡ shared_page
  pub has_twin : e.version ≢ s.versions e.page_no → s.bitmap_index e.page_no ≢ 0

-- The state after the commit of one page.
pub record IsCommitted (e : PageInfo) (p : Process) (s s' : Shared) : Type 0 where
  pub page : (j : ℕ) → j < page_size → s'.persistent e.page_no j ≡ committed e p s j
  pub version : s'.versions e.page_no ≡ (s.versions e.page_no + 1) % 2 ^ 64
  pub owner : s'.page_owner ≡ s.page_owner
  pub users : s'.users e.page_no ≡ (s.users e.page_no + (2 ^ 16 - 1)) % 2 ^ 16
  pub twinned : 1 < s.users e.page_no → s'.bitmap_index e.page_no ≢ 0
  pub dropped : s.users e.page_no ≡ 1 → s'.bitmap_index e.page_no ≡ 0
  pub twin :
      s'.bitmap_index e.page_no ≢ 0
      → (j : ℕ) → j < page_size
      → page_at (s'.bitmap_index e.page_no) s'.bitmap j ≡ original e.page_no s j
  pub sound : IsSound s'
  pub cur : s'.bitmap.cur ≤ s.bitmap.cur + 1
  pub others : (m : ℕ) → m ≢ e.page_no → Untouched m s s'

module _ (e : PageInfo) (p : Process) (mine : p.pid ≢ shared_page) where
  -- `end_commit` after new contents of the page.
  ended :
      (s t : Shared) (pages : ℕ → Bytes)
      → IsPrepared e.page_no s t
      → ((m : ℕ) → m ≢ e.page_no → pages m ≡ t.persistent m)
      → ((j : ℕ) → j < page_size → pages e.page_no j ≡ committed e p s j)
      → IsCommitted e p s (end_commit e.page_no (record t { persistent = pages }))
  unfolding end_commit
  ended s t pages h others page = record {
    page = page;
    version = ground (arith, ap (λ (x : ℕ → ℕ). x e.page_no) h.versions);
    owner = h.owner;
    users = ground (arith, ap (λ (x : ℕ → ℕ). x e.page_no) h.users);
    twinned = λ l.
        let several =
          ==_ne (t.users e.page_no) 1
            (λ x. absurd (omega (arith, l, x, ap (λ (x : ℕ → ℕ). x e.page_no) h.users))) in
        rw several (h.twinned l);
    dropped = λ x.
        rw (ap (λ (x : ℕ → ℕ). x e.page_no) h.users, x) (update_self t.bitmap_index e.page_no 0);
    twin = elim (Bool-cases (t.users e.page_no == 1)) [
      | inl one ↦ rw one (λ x. absurd (x (update_self t.bitmap_index e.page_no 0)))
      | inr more ↦ rw more h.twin
    ];
    sound = record {
      solid = h.sound.solid;
      given = λ m. elim (Bool-cases (t.users e.page_no == 1)) [
        | inl one ↦ rw one (ground (arith, h.sound.given m, h.sound.solid))
        | inr more ↦ rw more (h.sound.given m)
      ];
    };
    cur = h.cur;
    others = λ m d. Untouched-trans (h.others m d) record {
      persistent = others m d;
      versions = update_ne t.versions e.page_no m _ d;
      users = update_ne t.users e.page_no m _ d;
      owner = refl;
      index = elim (Bool-cases (t.users e.page_no == 1)) [
        | inl one ↦ rw one (update_ne t.bitmap_index e.page_no m 0 d)
        | inr more ↦ rw more refl
      ];
      twin = λ x j l. refl;
    };
  }

  -- `end_commit` where the test of the owner has failed.
  free_of :
      (t : Shared)
      → t.page_owner e.page_no ≡ shared_page
      → (t.page_owner e.page_no == p.pid) ≡ false
  free_of t o = ==_ne (t.page_owner e.page_no) p.pid (λ x. mine (sym x ∙ o))

  by_copy :
      (s t : Shared)
      → IsPrepared e.page_no s t
      → IsDirty e s
      → e.version ≡ s.versions e.page_no
      → (s' : Shared) × (check_commit e p t ≡ (record e { release = true }, p, s'))
        × IsCommitted e p s s'
  unfolding check_commit committed
  by_copy s t h d v =
      let pages =
        update t.persistent e.page_no
          (copy_page (local_page e.page_no p t) (t.persistent e.page_no)) in
      let now : (e.version == t.versions e.page_no) ≡ true =
        ground (arith, v, ap (λ (x : ℕ → ℕ). x e.page_no) h.versions) in
      let free = free_of t (ap (λ (x : ℕ → ℕ). x e.page_no) h.owner ∙ d.owner) in
      (
        end_commit e.page_no (record t { persistent = pages }),
        rw (d.fresh, free, or_true, now) refl,
        ended s t pages h (λ m k. update_ne t.persistent e.page_no m _ k)
            (λ j l.
              rw (==_self e.page_no, lt→ltb j page_size l, at_version e.version s e.page_no v)
                (λ i. contents_of (p.copies e.page_no) (h.persistent i e.page_no) j)),
      )

  by_diffs :
      (s : Shared)
      → IsPrepared e.page_no s s
      → IsDirty e s
      → e.version ≢ s.versions e.page_no
      → (s' : Shared) × (check_commit e p s ≡ (record e { release = true }, p, s'))
        × IsCommitted e p s s'
  unfolding check_commit set_shared_page committed
  by_diffs s h d v =
      let pages = update s.persistent e.page_no (
        write_page_diffs (local_page e.page_no p s) (page_at (s.bitmap_index e.page_no) s.bitmap)
          (s.persistent e.page_no)) in
      let behind = ==_ne e.version (s.versions e.page_no) v in
      (
        end_commit e.page_no (record s { persistent = pages }),
        rw (d.fresh, free_of s d.owner, or_true, behind, d.owner) refl,
        ended s s pages h (λ m k. update_ne s.persistent e.page_no m _ k)
            (λ j l.
              rw (==_self e.page_no, behind)
                (write_page_diffs-merged (local_page e.page_no p s)
                    (page_at (s.bitmap_index e.page_no) s.bitmap) (s.persistent e.page_no) j
                  ∙ rw (lt→ltb j page_size l) refl)),
      )

  -- The commit itself.
  pub check_commit-IsCommitted :
      (s t : Shared)
      → IsPrepared e.page_no s t
      → IsDirty e s
      → (s' : Shared) × (check_commit e p t ≡ (record e { release = true }, p, s'))
        × IsCommitted e p s s'
  check_commit-IsCommitted s t h d = elim (eq_or_ne e.version (s.versions e.page_no)) [
    | inl v ↦ by_copy s t h d v
    | inr v ↦
        subst
          (λ x.
            IsPrepared e.page_no s x
            → (s' : Shared) × (check_commit e p x ≡ (record e { release = true }, p, s'))
              × IsCommitted e p s s')
          (sym (h.kept (d.has_twin v))) (λ k. by_diffs s k d v) h
  ]
